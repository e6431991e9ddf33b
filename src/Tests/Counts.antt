-- ===== src/Tests/Counts.antt =====
-- A tree of reference counts that is one leaf with one record (src/lib/refcount.c).
use obmafs.Prelude.{
  ℕ, ◌<◌, ◌≡◌, refl, false, some, List, [], ◌∷◌, ◌++◌, replicate, arith, subst, ◌*◌,
}
use obmafs.Context.{ok}
use obmafs.Codec.{le_value, unpack}
use obmafs.Device.{block_write}
use obmafs.Device.Memory.{ram}
use obmafs.Device.Blocks.{block_write-ok, block_read-block_write_same}
use obmafs.Refcount.{LeafCache, refcount_get, record_lba, leaf_find}
use obmafs.Refcount.Search.{GoesUp, IsSlot, leaf_find_lem}
use obmafs.Refcount.Tree.{IsLeaf, IsTree, Content}
use obmafs.Refcount.Lookup.{IsCount, IsRight, refcount_get-IsCount}
use obmafs.Tests.{ctx}

-- Block 9 has the count 3.
abbrev pub leaf : List ℕ
leaf =
    0x42 ∷ 0x54 ∷ 0x52 ∷ 0x45 ∷ 0x45 ∷ 0x4E ∷ 0x44 ∷ 0x45 ∷ 10 ∷ 0 ∷ []
    ++ replicate 24 0
    ++ (1 ∷ 0 ∷ 12 ∷ 0 ∷ [])
    ++ replicate 32 0
    ++ (9 ∷ 0 ∷ 0 ∷ 0 ∷ 0 ∷ 0 ∷ 0 ∷ 0 ∷ 3 ∷ 0 ∷ 0 ∷ 0 ∷ [])
    ++ replicate 4014 0

abbrev empty_disk : ℕ → ℕ
empty_disk i = 0

abbrev pub disk : ℕ → ℕ
disk = (block_write ram ctx empty_disk 20 leaf).1

leaf-IsLeaf : IsLeaf 0 40 leaf
unfolding unpack le_value
leaf-IsLeaf = record {
  magic = refl;
  level = refl;
  up = λ i j a b. absurd (omega arith);
  range = λ i inside.
      let first : 0 ≡ i = omega arith in
      (omega arith, subst (λ j. record_lba leaf j < 40) first (omega arith));
}

pub leaf-Content : Content ram ctx disk 20 leaf
leaf-Content =
    block_read-block_write_same ram ctx empty_disk 20 leaf
      (block_write-ok ram ctx empty_disk 20 leaf refl)

pub disk-IsTree : IsTree ram ctx disk 0 0 40 20
disk-IsTree = (leaf, leaf-Content, leaf-IsLeaf)

abbrev pub no_cache : LeafCache
no_cache = record { valid = false; buf = []; lba = 0; count = 0; least = 0; greatest = 0 }

pub no_cache-IsRight : IsRight ram ctx disk 0 20 no_cache
no_cache-IsRight valid = cc

refcount_get-IsCount_example :
    (n : ℕ) × (cache' : LeafCache) × (refcount_get ram 1 ctx 20 no_cache disk 9
      ≡ some (ok n, cache'))
    × IsCount ram ctx disk 0 20 9 n
    × IsRight ram ctx disk 0 20 cache'
refcount_get-IsCount_example =
    refcount_get-IsCount ram ctx disk 0 0 40 20 9 1 no_cache (omega arith) disk-IsTree (omega arith)
      (omega arith) (omega arith) no_cache-IsRight

abbrev even : ℕ → ℕ
even i = 2 * i

even-GoesUp : GoesUp even 5
even-GoesUp i j a b = omega arith

leaf_find_lem_example : IsSlot even 5 7 (leaf_find even 7 5 0 5)
leaf_find_lem_example = leaf_find_lem even 5 7 even-GoesUp
