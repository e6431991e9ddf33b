-- ===== src/Tests/Trees.antt =====
-- Nodes that come from and go to the free list of a tree (src/lib/btree.c).
use obmafs.Prelude.{ℕ, ◌<◌, some, ◌≡◌, refl, true, [], ◌∷◌, arith}
use obmafs.Context.{Result, ok}
use obmafs.Device.{block_write}
use obmafs.Device.Memory.{ram}
use obmafs.Device.Blocks.{block_write-ok}
use obmafs.Btree.{TreeHeader, header_magic}
use obmafs.Btree.Nodes.{Outcome, link_block, alloc_node, free_node, try_clump}
use obmafs.Btree.Nodes.FreeList.{IsSane, IsFreeList}
use obmafs.Btree.Nodes.PopPush.{SameButList, alloc_node-pop, free_node-push}
use obmafs.Btree.Nodes.Growth.{
  ClumpSpec, try_clump-ClumpSpec, counted_tries, counted_tries-try_clump,
}
use obmafs.Btree.Nodes.NewNode.{IsSized, Grown, alloc_node-Grown}
use obmafs.Tests.{ctx, beyond, beyond_small, ctx-IsValid}

abbrev empty_disk : ℕ → ℕ
empty_disk i = 0

abbrev hdr : TreeHeader
hdr = record {
  magic = header_magic;
  data_type = 1;
  root_node_lba = 14;
  free_node_lba = 0;
  node_size = 8192;
  total_nodes = 1;
  free_nodes = 0;
  tree_type = 1;
  last_block_lba = 0;
  last_block_offset = 0;
  checksum = 0;
}

ctx-IsSane : IsSane ctx
ctx-IsSane = record { room = omega arith; small = omega arith; blocks = omega arith }

hdr-IsFreeList : IsFreeList ram ctx empty_disk hdr []
hdr-IsFreeList = record { chain = refl; count = refl; distinct = tt }

link-done : (block_write ram ctx empty_disk 20 (link_block ctx 0)).0 ≡ ok tt
link-done = block_write-ok ram ctx empty_disk 20 (link_block ctx 0) refl

-- The volume once the node at block 20 was freed.
abbrev freed : Outcome (Result (Unit {0})) (ℕ → ℕ)
freed = free_node ram true ctx hdr 20 empty_disk

free_node-push_example :
    (freed.result ≡ ok tt)
    × IsFreeList ram ctx freed.disk freed.hdr (20 ∷ [])
    × (freed.ctx ≡ ctx)
    × SameButList hdr freed.hdr
free_node-push_example =
    free_node-push ram ctx-IsSane empty_disk hdr 20 [] hdr-IsFreeList (omega arith) (omega arith) tt
      (omega arith) link-done

freed-IsFreeList : IsFreeList ram ctx freed.disk freed.hdr (20 ∷ [])
freed-IsFreeList =
    (free_node-push ram ctx-IsSane empty_disk hdr 20 [] hdr-IsFreeList (omega arith) (omega arith)
      tt (omega arith) link-done).1

abbrev popped : Outcome (Result ℕ) (ℕ → ℕ)
popped = alloc_node ram beyond true ctx freed.hdr freed.disk

alloc_node-pop_example :
    (popped.result ≡ ok 20)
    × IsFreeList ram ctx popped.disk popped.hdr []
    × (popped.ctx ≡ ctx)
    × (popped.disk ≡ freed.disk)
    × SameButList freed.hdr popped.hdr
alloc_node-pop_example =
    alloc_node-pop ram ctx-IsSane beyond true freed.disk freed.hdr 20 [] freed-IsFreeList

two : 0 < 2
two = omega arith

try_clump-ClumpSpec_example : ClumpSpec ctx 2 8 (try_clump beyond 2 two ctx 8)
try_clump-ClumpSpec_example =
    try_clump-ClumpSpec beyond beyond_small 2 two 8 8 ctx ctx-IsValid refl (omega arith)
      (omega arith)

counted_tries-try_clump_example :
    counted_tries beyond 2 4 ctx 8 ≡ some (try_clump beyond 2 two ctx 8)
counted_tries-try_clump_example =
    counted_tries-try_clump beyond beyond_small 2 two 4 8 ctx (omega arith) (omega arith)

hdr-IsSized : IsSized ctx hdr
hdr-IsSized = record {
  node_size = omega arith;
  btree_clump = omega arith;
  dedup_clump = omega arith;
}

abbrev grown : Outcome (Result ℕ) (ℕ → ℕ)
grown = alloc_node ram beyond true ctx hdr empty_disk

alloc_node-Grown_example :
    Grown ram true ctx hdr empty_disk grown.result grown.ctx grown.hdr grown.disk
alloc_node-Grown_example =
    alloc_node-Grown ram (λ d o bs. refl) ctx-IsSane beyond true hdr empty_disk beyond_small
      ctx-IsValid hdr-IsSized hdr-IsFreeList
