-- ===== src/Btree/Nodes/NewNode.antt =====
-- A new node when the free list is empty: `obmafs3_btree_alloc_node` from the label `alloc_clump`
-- (src/lib/btree.c).
use obmafs.Prelude.{
  ℕ, zero, suc, ◌+◌, ◌-◌, ◌*◌, ◌/◌, ◌<◌, ◌≤◌, ◌^◌, ◌≡◌, refl, Bool, true, false, List, [], ltb,
  if◌then◌else◌, ◌==◌, ◌&&◌, not, u64, arith, sym, subst, ap, ◌∙◌, Bool-cases, inl, inr, ltb→lt,
  dec_lt,
}
use native.Mathlib.Nat.{div-le_self}
use obmafs.Context.{Ctx, total_blocks, Superblock, Result, ok, err, nospc}
use obmafs.Device.{Device, block_write}
use obmafs.Device.Blocks.{block_write-ok}
use obmafs.Bitmap.Search.FindFree.{NoRun}
use obmafs.Alloc.Safety.{IsValid, Allocated}
use obmafs.Btree.Struct.{TreeHeader}
use obmafs.Btree.Nodes.{
  Clump, taken, refused, link_block, link_next, link_clump, grow_list, linked, use_clump,
  alloc_clump, alloc_node, try_clump, clump_nodes, blocks_per_node, blocks_per_node_pos,
}
use obmafs.Btree.Nodes.FreeList.{IsSane, Chain, IsFreeList}
use obmafs.Btree.Nodes.Growth.{ClumpSpec, try_clump-ClumpSpec, whole_nodes}
use obmafs.Btree.Nodes.Links.{nodes_of, length-nodes_of, row_lt, node-lt, link_clump-Chain}

-- The fields that size a clump fit their widths.
pub record IsSized (ctx : Ctx) (hdr : TreeHeader) : Type 0 where
  pub node_size : hdr.node_size < 2 ^ 16
  pub btree_clump : ctx.sb.btree_clump_size < 2 ^ 32
  pub dedup_clump : ctx.sb.dedup_clump_size < 2 ^ 32

clump_nodes_bounds :
    (ctx : Ctx) (hdr : TreeHeader)
    → IsSized ctx hdr
    → (0 < clump_nodes ctx hdr) × (clump_nodes ctx hdr < 2 ^ 32)
unfolding clump_nodes
clump_nodes_bounds ctx hdr z = ground arith

blocks_per_node_bounds :
    (ctx : Ctx) (hdr : TreeHeader)
    → IsSized ctx hdr
    → (0 < blocks_per_node ctx hdr) × (blocks_per_node ctx hdr < 2 ^ 16)
unfolding blocks_per_node
blocks_per_node_bounds ctx hdr z =
    ground (arith, div-le_self hdr.node_size ctx.sb.block_size, z.node_size)

-- What growing an empty list gives: the first of the nodes of a new clump of whole nodes, which was
-- free, and a list of the others, or an empty list if there was no memory for a buffer; or OBMAFS3_ERR_NOSPC, where not even one node fits, and nothing changes.
abbrev pub Grown :
    (dev : Device) (calloc_ok : Bool) (ctx : Ctx) (hdr : TreeHeader) (d : dev.Disk)
    → Result ℕ
    → Ctx
    → TreeHeader
    → dev.Disk
    → Type 0
Grown dev calloc_ok ctx hdr d (ok start) ctx' hdr' d' =
    (blocks : ℕ) × Allocated ctx blocks start ctx'
    × (blocks ≡ blocks / blocks_per_node ctx hdr * blocks_per_node ctx hdr)
    × (blocks_per_node ctx hdr ≤ blocks)
    × IsFreeList dev ctx' d' hdr' (
        if calloc_ok
        then nodes_of start (blocks_per_node ctx hdr) (blocks / blocks_per_node ctx hdr - 1) []
        else [])
Grown dev calloc_ok ctx hdr d (err e) ctx' hdr' d' =
    (e ≡ nospc) × (ctx' ≡ ctx) × (hdr' ≡ hdr) × (d' ≡ d) × NoRun ctx (blocks_per_node ctx hdr)

nodes_lt :
    (nodes limit per_node n : ℕ)
    → n ≡ nodes * per_node
    → n ≤ limit * per_node
    → 0 < per_node
    → limit < 2 ^ 32
    → nodes < 2 ^ 32
nodes_lt nodes limit per_node n whole most pos few = elim (dec_lt limit nodes) [
  | yes over ↦ absurd (omega (arith, row_lt limit nodes per_node over))
  | no within ↦ omega arith
]

link_next-ok :
    (dev : Device) (r : Result (Unit {0}) × dev.Disk) (next : dev.Disk → Bool × dev.Disk)
    → r.0 ≡ ok tt
    → link_next dev r next ≡ next r.1
unfolding link_next
link_next-ok dev (ok u, d) next h = refl
link_next-ok dev (err e, d) next h = cc

product_small : (c p : ℕ) → c < 2 ^ 32 → p < 2 ^ 16 → c * p < 2 ^ 64
product_small c p hc hp = grind arith

IsSane-sb : {ctx ctx' : Ctx} → ctx'.sb ≡ ctx.sb → IsSane ctx → IsSane ctx'
IsSane-sb e s = record { room = rw e s.room; small = rw e s.small; blocks = rw e s.blocks }

module _ (dev : Device)
    (writes : (d : dev.Disk) (o : ℕ) (bs : List ℕ) → (dev.pwrite d o bs).0 ≡ true) {ctx : Ctx}
    (s : IsSane ctx) where
  open dev use {Disk}

  link_clump-true :
      (ctx' : Ctx) (start per_node i next_ptr : ℕ) (d : Disk)
      → (link_clump dev ctx' start per_node i next_ptr d).0 ≡ true
  unfolding link_clump
  link_clump-true ctx' start per_node zero next_ptr d = refl
  link_clump-true ctx' start per_node (suc i) next_ptr d =
      let this = u64 (start + suc i * per_node) in
      let written = block_write dev ctx' d this (link_block ctx' next_ptr) in
      ap (λ r. r.0)
        (link_next-ok dev written (λ d'. link_clump dev ctx' start per_node i this d')
          (block_write-ok dev ctx' d this (link_block ctx' next_ptr)
            (writes d (u64 (this * ctx'.sb.block_size)) (link_block ctx' next_ptr))))
      ∙ link_clump-true ctx' start per_node i this written.1

  grown_list :
      {ctx' : Ctx} (hdr : TreeHeader) (d : Disk) (start per_node k : ℕ)
      → IsSane ctx'
      → 0 < per_node
      → start + suc k * per_node < total_blocks ctx'
      → suc k < 2 ^ 32
      → hdr.free_node_lba ≡ 0
      → hdr.free_nodes ≡ 0
      → IsFreeList dev ctx'
          (link_clump dev ctx' start per_node (suc k) hdr.free_node_lba d).1
          (grow_list dev hdr start per_node (suc (suc k)))
          (nodes_of start per_node (suc k) [])
  unfolding grow_list
  grown_list {ctx'} hdr d start per_node k s' pos inside few none count =
      let chain =
        link_clump-Chain dev s' start per_node pos (suc k) hdr.free_node_lba d [] inside
          (omega arith) none tt (λ j lo hi. tt)
          (link_clump-true ctx' start per_node (suc k) hdr.free_node_lba d) in
      let head : u64 (start + per_node) ≡ start + per_node = omega (
        arith,
        s'.blocks,
        node-lt start per_node (suc k) 1 (total_blocks ctx') pos (omega arith) inside,
      ) in
      record {
        chain =
            subst
              (λ h.
                Chain dev ctx' (link_clump dev ctx' start per_node (suc k) hdr.free_node_lba d).1 h
                  (nodes_of start per_node (suc k) []))
              (sym head) chain.0;
        count = omega (arith, length-nodes_of start per_node (suc k) []);
        distinct = chain.1;
      }

  -- The list after a clump of two nodes or more.
  clump_list :
      {ctx' : Ctx} (hdr : TreeHeader) (d : Disk) (start per_node nodes : ℕ)
      → IsSane ctx'
      → 0 < per_node
      → 1 < nodes
      → start + nodes * per_node ≤ total_blocks ctx'
      → nodes < 2 ^ 32
      → hdr.free_node_lba ≡ 0
      → hdr.free_nodes ≡ 0
      → IsFreeList dev ctx'
          (link_clump dev ctx' start per_node (nodes - 1) hdr.free_node_lba d).1
          (grow_list dev hdr start per_node nodes)
          (nodes_of start per_node (nodes - 1) [])
  clump_list {ctx'} hdr d start per_node nodes s' pos more inside few none count =
      let k = nodes - 2 in
      let rest : nodes - 1 ≡ suc k = omega arith in
      let all : nodes ≡ suc (suc k) = omega arith in
      let below : start + suc k * per_node < total_blocks ctx' =
        omega (arith, row_lt (suc k) nodes per_node (omega arith)) in
      let grown = grown_list hdr d start per_node k s' pos below (omega arith) none count in
      rw rest (
        subst
          (λ m.
            IsFreeList dev ctx' (link_clump dev ctx' start per_node (suc k) hdr.free_node_lba d).1
              (grow_list dev hdr start per_node m) (nodes_of start per_node (suc k) []))
          (sym all) grown)

  use_clump-Grown :
      (calloc_ok : Bool) (hdr : TreeHeader) (d : Disk) (nodes : ℕ) (c : Clump × Ctx)
      → nodes < 2 ^ 32
      → 0 < blocks_per_node ctx hdr
      → hdr.free_node_lba ≡ 0
      → hdr.free_nodes ≡ 0
      → ClumpSpec ctx (blocks_per_node ctx hdr) (nodes * blocks_per_node ctx hdr) c
      → let o = use_clump dev calloc_ok (blocks_per_node ctx hdr) hdr d c in
        Grown dev calloc_ok ctx hdr d o.result o.ctx o.hdr o.disk
  unfolding use_clump linked
  use_clump-Grown calloc_ok hdr d nodes (refused e, ctx') few pos none count (same, kept, norun) =
      (same, kept, refl, refl, norun)
  use_clump-Grown false hdr d nodes (taken n start, ctx') few pos none count
        (got, whole, room, most) =
      let idle : (ltb 1 (n / blocks_per_node ctx hdr) && false) ≡ false = ground arith in
      rw idle (n, got, whole, room, record { chain = none; count = count; distinct = tt })
  use_clump-Grown true hdr d nodes (taken n start, ctx') few pos none count
        (got, whole, room, most) =
      let per_node = blocks_per_node ctx hdr in
      elim (Bool-cases (ltb 1 (n / per_node))) [
        | inr one ↦
            let alone : n / per_node - 1 ≡ 0 = ground arith in
            rw one (
              n,
              got,
              whole,
              room,
              rw alone (record { chain = none; count = count; distinct = tt }),
            )
        | inl more ↦
            let s' = IsSane-sb got.sb s in
            let volume : total_blocks ctx' ≡ total_blocks ctx =
              ap (λ (sb : Superblock). sb.total_bytes / sb.block_size) got.sb in
            let count_lt : n / per_node < 2 ^ 32 =
              nodes_lt (n / per_node) nodes per_node n whole most pos few in
            let list =
              clump_list hdr d start per_node (n / per_node) s' pos (ltb→lt _ _ more)
                (omega (arith, got.inside)) count_lt none count in
            rw (more, link_clump-true ctx' start per_node (n / per_node - 1) hdr.free_node_lba d)
              (n, got, whole, room, list)
      ]

  -- With an empty free list, a valid bitmap, sizes that fit and a device on which every write
  -- succeeds, `obmafs3_btree_alloc_node` allocates a clump of whole nodes that were free, gives the
  -- first and leaves a list of exactly the others, or an empty list if there was no memory for a
  -- buffer; or it gives OBMAFS3_ERR_NOSPC, where not even one node fits on a side of the hint, and
  -- changes nothing.
  pub alloc_node-Grown :
      (beyond : ℕ → ℕ) (calloc_ok : Bool) (hdr : TreeHeader) (d : Disk)
      → ((i : ℕ) → beyond i < 256)
      → IsValid ctx
      → IsSized ctx hdr
      → IsFreeList dev ctx d hdr []
      → let o = alloc_node dev beyond calloc_ok ctx hdr d in
        Grown dev calloc_ok ctx hdr d o.result o.ctx o.hdr o.disk
  unfolding alloc_node alloc_clump
  alloc_node-Grown beyond calloc_ok hdr d small v z f =
      let pos = blocks_per_node_pos ctx hdr in
      let per = blocks_per_node_bounds ctx hdr z in
      let clump = clump_nodes_bounds ctx hdr z in
      let size = clump_nodes ctx hdr * blocks_per_node ctx hdr in
      let none : (not (hdr.free_node_lba == 0) && ltb 0 hdr.free_nodes) ≡ false =
        ground (arith, f.chain) in
      let fits : u64 size ≡ size = omega (arith, product_small _ _ clump.1 per.1) in
      rw (none, fits)
        (use_clump-Grown calloc_ok hdr d (clump_nodes ctx hdr)
          (try_clump beyond (blocks_per_node ctx hdr) pos ctx size) clump.1 pos f.chain f.count
          (try_clump-ClumpSpec beyond small (blocks_per_node ctx hdr) pos size size ctx v
            (whole_nodes beyond small (blocks_per_node ctx hdr) pos (clump_nodes ctx hdr))
            (omega (arith, row_lt 0 (clump_nodes ctx hdr) (blocks_per_node ctx hdr) clump.0))
            (omega arith)))
