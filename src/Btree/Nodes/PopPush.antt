-- ===== src/Btree/Nodes/PopPush.antt =====
-- Popping a node from the free list and pushing one (src/lib/btree.c).
use obmafs.Prelude.{
  ℕ, suc, ◌<◌, ◌^◌, ◌≡◌, ◌≢◌, refl, Bool, true, false, List, [], ◌∷◌, ltb, leb, ◌==◌, ◌&&◌, ◌||◌,
  not, take, length, Bool-cases, inl, inr, arith, sym, subst, ap,
}
use obmafs.Context.{Ctx, total_blocks, Result, ok, err}
use obmafs.Codec.{le_value}
use obmafs.Device.{Device, block_read, block_write}
use obmafs.Btree.Struct.{TreeHeader}
use obmafs.Btree.Nodes.{link_block, alloc_node, pop_head, pushed, free_node}
use obmafs.Btree.Nodes.FreeList.{IsSane, NotIn, IsFreeList, Chain-link, Chain-head}

-- What an operation leaves alone in a header.
abbrev pub SameButList : TreeHeader → TreeHeader → Type 0
SameButList h h' = h' ≡ record h { free_node_lba = h'.free_node_lba; free_nodes = h'.free_nodes }

module _ (dev : Device) {ctx : Ctx} (s : IsSane ctx) where
  open dev use {Disk}

  pop_head-lem :
      (d : Disk) (hdr : TreeHeader) (x : ℕ) (xs : List ℕ)
      → IsFreeList dev ctx d hdr (x ∷ xs)
      → IsFreeList dev ctx d (pop_head dev ctx hdr (block_read dev ctx d x ctx.sb.block_size)) xs
  unfolding pop_head
  pop_head-lem d hdr x [] f =
      let (e, ne, in_x, (buf, got, rest)) = f.chain in
      rw got (record { chain = ground arith; count = ground (arith, f.count); distinct = tt })
  pop_head-lem d hdr x (y ∷ ys) f =
      let (e, ne, in_x, (buf, got, rest)) = f.chain in
      let next_free = le_value (take 8 buf) in
      let keep : (not (next_free == 0) && leb (total_blocks ctx) next_free) ≡ false =
        ground arith in
      rw (got, keep)
        (record { chain = rest; count = omega (arith, f.count); distinct = f.distinct.1 })

  pop_head-SameButList :
      (hdr : TreeHeader) (r : Result (List ℕ)) → SameButList hdr (pop_head dev ctx hdr r)
  unfolding pop_head
  pop_head-SameButList hdr (err e) = refl
  pop_head-SameButList hdr (ok buf) =
      let next_free = le_value (take 8 buf) in
      elim (Bool-cases (not (next_free == 0) && leb (total_blocks ctx) next_free)) [
        | inl bad ↦ rw bad
        | inr good ↦ rw good
      ]

  -- `obmafs3_btree_alloc_node` gives the first free node, and leaves the rest of the list, the
  -- disk and the bitmap as they are.
  pub alloc_node-pop :
      (beyond : ℕ → ℕ) (calloc_ok : Bool) (d : Disk) (hdr : TreeHeader) (x : ℕ) (xs : List ℕ)
      → IsFreeList dev ctx d hdr (x ∷ xs)
      → let o = alloc_node dev beyond calloc_ok ctx hdr d in
        (o.result ≡ ok x)
        × IsFreeList dev ctx o.disk o.hdr xs
        × (o.ctx ≡ ctx)
        × (o.disk ≡ d)
        × SameButList hdr o.hdr
  unfolding alloc_node
  alloc_node-pop beyond calloc_ok d hdr x xs f =
      let (e, ne, in_x, (buf, got, rest)) = f.chain in
      let listed : (not (hdr.free_node_lba == 0) && ltb 0 hdr.free_nodes) ≡ true =
        ground (arith, f.count) in
      let inside : leb (total_blocks ctx) hdr.free_node_lba ≡ false = ground arith in
      rw (listed, inside)
        (
          ap ok e,
          subst
              (λ lba.
                IsFreeList dev ctx d
                  (pop_head dev ctx hdr (block_read dev ctx d lba ctx.sb.block_size)) xs)
              (sym e) (pop_head-lem d hdr x xs f),
          refl,
          refl,
          pop_head-SameButList hdr (block_read dev ctx d hdr.free_node_lba ctx.sb.block_size),
        )

  -- `obmafs3_btree_free_node` puts a node of the volume in front of the list if the write
  -- succeeds, and changes nothing else in the header.
  pub free_node-push :
      (d : Disk) (hdr : TreeHeader) (x : ℕ) (xs : List ℕ)
      → IsFreeList dev ctx d hdr xs
      → x ≢ 0
      → x < total_blocks ctx
      → NotIn x xs
      → suc (length xs) < 2 ^ 32
      → (block_write dev ctx d x (link_block ctx hdr.free_node_lba)).0 ≡ ok tt
      → let o = free_node dev true ctx hdr x d in
        (o.result ≡ ok tt)
        × IsFreeList dev ctx o.disk o.hdr (x ∷ xs)
        × (o.ctx ≡ ctx)
        × SameButList hdr o.hdr
  unfolding free_node pushed
  free_node-push d hdr x xs f ne in_x out fits done =
      let valid : ((x == 0) || leb (total_blocks ctx) x) ≡ false = ground arith in
      rw (valid, done)
        (
          refl,
          record {
            chain =
                Chain-link dev ctx d x hdr.free_node_lba xs s ne in_x
                  (Chain-head dev ctx d hdr.free_node_lba xs s f.chain) out f.chain done;
            count = omega (arith, f.count);
            distinct = (out, f.distinct);
          },
          refl,
          refl,
        )
