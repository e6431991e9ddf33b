-- ===== src/Btree/Nodes.antt =====
-- `obmafs3_btree_alloc_node` and `obmafs3_btree_free_node` of src/lib/btree.c: the nodes of a tree
-- come from a list of free nodes, linked through their first 8 bytes, that grows by clumps.
pub mod Growth
pub mod FreeList
pub mod Links
pub mod NewNode
pub mod PopPush
use obmafs.Prelude.{
  ℕ, zero, suc, ◌+◌, ◌-◌, ◌*◌, ◌/◌, ◌<◌, ◌^◌, Bool, true, false, List, ◌++◌, ltb, leb, ◌==◌, ◌&&◌,
  ◌||◌, not, if◌then◌else◌, replicate, take, u32, u64, arith, dec_lt,
}
use mathlib.Core.WellFounded.{Acc}
use native.Mathlib.Nat.{div-mul-le_self}
use obmafs.Prelude.Order.{lt_wf}
use obmafs.Context.{Ctx, total_blocks, Result, ok, err, Error, nomem}
use obmafs.Codec.{le_bytes, le_value}
use obmafs.Device.{Device, block_read, block_write}
use obmafs.Alloc.{alloc_blocks}
use obmafs.Btree.Struct.{TreeHeader, type_dedup, default_dedup_clump, default_clump}

pub blocks_per_node : Ctx → TreeHeader → ℕ
blocks_per_node ctx hdr = let n = hdr.node_size / ctx.sb.block_size in if n == 0 then 1 else n

-- A block that holds a pointer in its first 8 bytes, the rest zero.
pub link_block : Ctx → ℕ → List ℕ
link_block ctx next_ptr = le_bytes 8 next_ptr ++ replicate (ctx.sb.block_size - 8) 0

pub clump_nodes : Ctx → TreeHeader → ℕ
clump_nodes ctx hdr =
    let dedup = hdr.tree_type == type_dedup in
    let clump = if dedup then ctx.sb.dedup_clump_size else ctx.sb.btree_clump_size in
    if clump == 0 then (if dedup then default_dedup_clump else default_clump) else clump

-- The next smaller number of blocks to try, a multiple of the blocks of a node.
pub smaller_clump : ℕ → ℕ → ℕ
smaller_clump per_node n =
    let n' = n / 2 / per_node * per_node in if ltb n' per_node then per_node else n'

-- The blocks that an attempt took: how many and from where, or the error of the last attempt.
pub data Clump : Type 0 where
  taken : (blocks start : ℕ) → Clump
  refused : Error → Clump

-- The state that the calls change, and what they return.
pub record Outcome (A : Type 0) (D : Type 0) : Type 0 where
  pub result : A
  pub ctx : Ctx
  pub hdr : TreeHeader
  pub disk : D

single_node : ℕ → Ctx × Result ℕ → Clump × Ctx
single_node per_node (ctx, ok s) = (taken per_node s, ctx)
single_node per_node (ctx, err e) = (refused e, ctx)

try_next : ℕ → Ctx × Result ℕ → (Ctx → Clump × Ctx) → Clump × Ctx
try_next n (ctx, ok s) next = (taken n s, ctx)
try_next n (ctx, err e) next = next ctx

smaller_clump-lt : (per_node n : ℕ) → 0 < per_node → per_node < n → smaller_clump per_node n < n
unfolding smaller_clump
smaller_clump-lt per_node n pos more = ground (arith, div-mul-le_self (n / 2) per_node)

-- `while(alloc_blocks > blocks_per_node)` from `n` blocks on, then the last resort. The loop has no
-- count of rounds: it goes on with fewer blocks than before.
pub clump_loop :
    (beyond : ℕ → ℕ) (per_node : ℕ) → 0 < per_node → Ctx → (n : ℕ) → Acc ◌<◌ n → Clump × Ctx
clump_loop beyond per_node pos ctx n (Acc.intro _ smaller) = elim (dec_lt per_node n) [
  | yes more ↦ try_next n (alloc_blocks beyond ctx n) (λ ctx'.
      clump_loop beyond per_node pos ctx' (smaller_clump per_node n)
        (smaller (smaller_clump per_node n) (smaller_clump-lt per_node n pos more)))
  | no least ↦ single_node per_node (alloc_blocks beyond ctx per_node)
]

pub try_clump : (ℕ → ℕ) → (per_node : ℕ) → 0 < per_node → Ctx → ℕ → Clump × Ctx
unfolding lt_wf
try_clump beyond per_node pos ctx n = clump_loop beyond per_node pos ctx n (lt_wf.apply n)

pub blocks_per_node_pos : (ctx : Ctx) (hdr : TreeHeader) → 0 < blocks_per_node ctx hdr
unfolding blocks_per_node
blocks_per_node_pos ctx hdr = ground arith

module _ (dev : Device) where
  open dev use {Disk}

  link_next : Result (Unit {0}) × Disk → (Disk → Bool × Disk) → Bool × Disk
  link_next (ok u, d) next = next d
  link_next (err e, d) next = (false, d)

  -- `for(i = nodes_in_clump - 1; i >= 1; i--)`: node `i` is linked to node `i + 1`, and the last
  -- one to the old head. The answer is false if a write failed.
  pub link_clump : Ctx → (start per_node : ℕ) → (i next_ptr : ℕ) → Disk → Bool × Disk
  link_clump ctx start per_node zero next_ptr d = (true, d)
  link_clump ctx start per_node (suc i) next_ptr d =
      let this_lba = u64 (start + suc i * per_node) in
      link_next (block_write dev ctx d this_lba (link_block ctx next_ptr))
        (λ d'. link_clump ctx start per_node i this_lba d')

  -- The header after the nodes of the clump but the first were linked.
  pub grow_list : TreeHeader → (start per_node nodes : ℕ) → TreeHeader
  grow_list hdr start per_node nodes = record hdr {
    free_node_lba = u64 (start + per_node);
    free_nodes = u32 (hdr.free_nodes + (nodes - 1));
  }

  linked : Ctx → TreeHeader → (start per_node nodes : ℕ) → Bool × Disk → Outcome (Result ℕ) Disk
  linked ctx hdr start per_node nodes (done, d) = record {
    result = ok start;
    ctx = ctx;
    hdr = if done then grow_list hdr start per_node nodes else hdr;
    disk = d;
  }

  -- From the label `clump_allocated`; `calloc_ok` says whether the buffer could be allocated.
  use_clump : (calloc_ok : Bool) → ℕ → TreeHeader → Disk → Clump × Ctx → Outcome (Result ℕ) Disk
  use_clump calloc_ok per_node hdr d (refused e, ctx) = record {
    result = err e;
    ctx = ctx;
    hdr = hdr;
    disk = d;
  }
  use_clump calloc_ok per_node hdr d (taken blocks start, ctx) =
      let nodes = blocks / per_node in
      if ltb 1 nodes && calloc_ok
      then linked ctx hdr start per_node nodes
          (link_clump ctx start per_node (nodes - 1) hdr.free_node_lba d)
      else record { result = ok start; ctx = ctx; hdr = hdr; disk = d }

  -- From the label `alloc_clump`.
  pub alloc_clump : (ℕ → ℕ) → Bool → Ctx → TreeHeader → Disk → Outcome (Result ℕ) Disk
  alloc_clump beyond calloc_ok ctx hdr d =
      let per_node = blocks_per_node ctx hdr in
      use_clump calloc_ok per_node hdr d (
        try_clump beyond per_node (blocks_per_node_pos ctx hdr) ctx
          (u64 (clump_nodes ctx hdr * per_node)))

  -- The header once its first free node is gone, from what that node holds.
  pub pop_head : Ctx → TreeHeader → Result (List ℕ) → TreeHeader
  pop_head ctx hdr (err e) = record hdr { free_node_lba = 0; free_nodes = 0 }
  pop_head ctx hdr (ok buf) =
      let next_free = le_value (take 8 buf) in
      if not (next_free == 0) && leb (total_blocks ctx) next_free
      then record hdr { free_node_lba = 0; free_nodes = 0 }
      else record hdr { free_node_lba = next_free; free_nodes = hdr.free_nodes - 1 }

  pub alloc_node : (ℕ → ℕ) → Bool → Ctx → TreeHeader → Disk → Outcome (Result ℕ) Disk
  alloc_node beyond calloc_ok ctx hdr d =
      if not (hdr.free_node_lba == 0) && ltb 0 hdr.free_nodes
      then if leb (total_blocks ctx) hdr.free_node_lba
        then alloc_clump beyond calloc_ok ctx (record hdr { free_node_lba = 0; free_nodes = 0 }) d
        else record {
          result = ok hdr.free_node_lba;
          ctx = ctx;
          hdr = pop_head ctx hdr (block_read dev ctx d hdr.free_node_lba ctx.sb.block_size);
          disk = d;
        }
      else alloc_clump beyond calloc_ok ctx hdr d

  pushed : TreeHeader → ℕ → Result (Unit {0}) → TreeHeader
  pushed hdr node_lba (err e) = hdr
  pushed hdr node_lba (ok u) = record hdr {
    free_node_lba = node_lba;
    free_nodes = u32 (hdr.free_nodes + 1);
  }

  pub free_node : Bool → Ctx → TreeHeader → ℕ → Disk → Outcome (Result (Unit {0})) Disk
  free_node calloc_ok ctx hdr node_lba d =
      let (r, d') = block_write dev ctx d node_lba (link_block ctx hdr.free_node_lba) in
      if (node_lba == 0) || leb (total_blocks ctx) node_lba
      then record { result = ok tt; ctx = ctx; hdr = hdr; disk = d }
      else if not calloc_ok
      then record { result = err nomem; ctx = ctx; hdr = hdr; disk = d }
      else record { result = r; ctx = ctx; hdr = pushed hdr node_lba r; disk = d' }
