-- ===== src/Btree/Nodes/Links.antt =====
-- The links between the nodes of a new clump (src/lib/btree.c).
use obmafs.Prelude.{
  ℕ, zero, suc, ◌+◌, ◌*◌, ◌<◌, ◌≤◌, ◌^◌, ◌≡◌, ◌≢◌, refl, Bool, true, List, ◌∷◌, u64, length, arith,
  sym, subst, ap, ◌∙◌,
}
use obmafs.Context.{Ctx, total_blocks, Result, ok, err}
use obmafs.Device.{Device, block_write}
use obmafs.Btree.Nodes.{link_block, link_next, link_clump}
use obmafs.Btree.Nodes.FreeList.{IsSane, NotIn, Distinct, Chain, Chain-link}

-- The nodes 1 to `i` of a clump, in front of `zs`.
abbrev pub nodes_of : (start per_node i : ℕ) → List ℕ → List ℕ
nodes_of start per_node zero zs = zs
nodes_of start per_node (suc i) zs = nodes_of start per_node i ((start + suc i * per_node) ∷ zs)

pub length-nodes_of :
    (start per_node i : ℕ) (zs : List ℕ) → length (nodes_of start per_node i zs) ≡ i + length zs
length-nodes_of start per_node zero zs = omega arith
length-nodes_of start per_node (suc i) zs =
    omega (arith, length-nodes_of start per_node i ((start + suc i * per_node) ∷ zs))

-- Where the list starts once the nodes 1 to `i` are linked.
abbrev pub head_of : (start per_node i next_ptr : ℕ) → ℕ
head_of start per_node zero next_ptr = next_ptr
head_of start per_node (suc i) next_ptr = start + per_node

pub row_lt : (a c p : ℕ) → a < c → a * p + p ≤ c * p
row_lt a c p h = grind arith

pub node-lt :
    (start p i j total : ℕ) → 0 < p → j ≤ i → start + i * p < total → start + j * p < total
node-lt start p i j total pos h lt = grind arith

node-ne : (start p i j : ℕ) → 0 < p → j < i → start + j * p ≢ start + i * p
node-ne start p i j pos h = grind arith

module _ (dev : Device) {ctx : Ctx} (s : IsSane ctx) (start per_node : ℕ) (pos : 0 < per_node) where
  open dev use {Disk}

  link_next-true :
      (r : Result (Unit {0}) × Disk) (next : Disk → Bool × Disk)
      → (link_next dev r next).0 ≡ true
      → (r.0 ≡ ok tt) × (link_next dev r next ≡ next r.1)
  unfolding link_next
  link_next-true (ok u, d) next h = (refl, refl)
  link_next-true (err e, d) next h = cc

  link_clump-suc :
      (i next_ptr : ℕ) (d : Disk)
      → start + suc i * per_node < 2 ^ 64
      → link_clump dev ctx start per_node (suc i) next_ptr d
        ≡ link_next dev
            (block_write dev ctx d (start + suc i * per_node) (link_block ctx next_ptr))
            (λ d'. link_clump dev ctx start per_node i (start + suc i * per_node) d')
  unfolding link_clump
  link_clump-suc i next_ptr d small =
      let e : u64 (start + suc i * per_node) ≡ start + suc i * per_node = omega arith in rw e

  head_of-suc : (i : ℕ) → head_of start per_node i (start + suc i * per_node) ≡ start + per_node
  head_of-suc zero = omega arith
  head_of-suc (suc i) = refl

  pub link_clump-Chain :
      (i next_ptr : ℕ) (d : Disk) (zs : List ℕ)
      → start + i * per_node < total_blocks ctx
      → next_ptr < 2 ^ 64
      → Chain dev ctx d next_ptr zs
      → Distinct zs
      → ((j : ℕ) → 0 < j → j ≤ i → NotIn (start + j * per_node) zs)
      → (link_clump dev ctx start per_node i next_ptr d).0 ≡ true
      → Chain dev ctx
          (link_clump dev ctx start per_node i next_ptr d).1
          (head_of start per_node i next_ptr)
          (nodes_of start per_node i zs)
        × Distinct (nodes_of start per_node i zs)
  unfolding link_clump
  link_clump-Chain zero next_ptr d zs inside small c distinct out done = (c, distinct)
  link_clump-Chain (suc i) next_ptr d zs inside small c distinct out done =
      let this = start + suc i * per_node in
      let written = block_write dev ctx d this (link_block ctx next_ptr) in
      let round = link_clump-suc i next_ptr d (omega (arith, s.blocks)) in
      let linked =
        link_next-true written (λ d'. link_clump dev ctx start per_node i this d')
          (rw round at done) in
      let positive : this ≢ 0 = grind arith in
      let rest =
        link_clump-Chain i this written.1 (this ∷ zs)
          (node-lt start per_node (suc i) i (total_blocks ctx) pos (omega arith) inside)
          (omega (arith, s.blocks))
          (Chain-link dev ctx d this next_ptr zs s positive inside small
            (out (suc i) (omega arith) (omega arith)) c linked.0)
          (out (suc i) (omega arith) (omega arith), distinct)
          (λ j lo hi. (node-ne start per_node (suc i) j pos (omega arith), out j lo (omega arith)))
          (ap (λ r. r.0) (sym (round ∙ linked.1)) ∙ done) in
      rw (round, linked.1)
        (
          subst
              (λ h.
                Chain dev ctx (link_clump dev ctx start per_node i this written.1).1 h
                  (nodes_of start per_node i (this ∷ zs)))
              (head_of-suc i) rest.0,
          rest.1,
        )
