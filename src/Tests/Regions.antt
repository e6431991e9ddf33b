-- ===== src/Tests/Regions.antt =====
-- A map of padding regions that is one leaf with one region (src/lib/junk_map.c).
use obmafs.Prelude.{
  ℕ, ◌+◌, ◌<◌, ◌≡◌, ◌⊎◌, refl, ◌∙◌, ap, sym, subst, some, List, [], ◌∷◌, ◌++◌, replicate, arith,
}
use obmafs.Context.{Ctx, ok, err, notfound}
use obmafs.Codec.{le_value, unpack}
use obmafs.Device.{block_write}
use obmafs.Device.Memory.{ram}
use obmafs.Device.Blocks.{block_write-ok, block_read-block_write_same}
use obmafs.Refcount.{keys_of}
use obmafs.JunkMap.{JunkRecord, record_at, jm_leaf_find, junk_map_lookup}
use obmafs.JunkMap.Order.{RecordsUp}
use obmafs.JunkMap.Tree.{Node, Has, Has-leaf, IsJunkTree, IsApart}
use obmafs.JunkMap.Find.{IsPlace, jm_leaf_find-IsPlace}
use obmafs.JunkMap.Lookup.{IsCovering, junk_map_lookup-IsCovering}
use obmafs.Tests.{ctx, sb}

abbrev mapped : Ctx
mapped = record ctx { sb = record sb { junk_map_lba = 30 } }

-- Inode 5 has the region of 50 bytes from 100 on.
abbrev leaf : List ℕ
leaf =
    0x42 ∷ 0x54 ∷ 0x52 ∷ 0x45 ∷ 0x45 ∷ 0x4E ∷ 0x44 ∷ 0x45 ∷ 13 ∷ 0 ∷ []
    ++ replicate 24 0
    ++ (1 ∷ 0 ∷ 94 ∷ 0 ∷ [])
    ++ replicate 32 0
    ++ (5 ∷ 0 ∷ 0 ∷ 0 ∷ 0 ∷ 0 ∷ 0 ∷ 0 ∷ 100 ∷ 0 ∷ 0 ∷ 0 ∷ 0 ∷ 0 ∷ 0 ∷ 0 ∷ [])
    ++ (50 ∷ 0 ∷ 0 ∷ 0 ∷ 0 ∷ 0 ∷ 0 ∷ 0 ∷ 255 ∷ 255 ∷ [])
    ++ replicate 4000 0

abbrev disk : ℕ → ℕ
disk = (block_write ram mapped (λ i. 0) 20 leaf).1

one_key : keys_of leaf ≡ 1
unfolding unpack le_value
one_key = refl

region_start : (record_at leaf 0).offset ≡ 100
unfolding le_value
region_start = refl

region_length : (record_at leaf 0).length ≡ 50
unfolding le_value
region_length = refl

leaf-Node : Node ram mapped disk 20 leaf
leaf-Node =
    block_read-block_write_same ram mapped (λ i. 0) 20 leaf
      (block_write-ok ram mapped (λ i. 0) 20 leaf refl)

leaf-RecordsUp : RecordsUp leaf (keys_of leaf)
leaf-RecordsUp i j lt j_in = absurd (omega (arith, one_key))

disk-IsJunkTree : IsJunkTree ram mapped disk 0 20
unfolding unpack le_value
disk-IsJunkTree = (leaf, leaf-Node, record { magic = refl; level = refl; up = leaf-RecordsUp })

only_region : (rec : JunkRecord) → Has ram mapped disk 0 20 rec → record_at leaf 0 ≡ rec
only_region rec has =
    let (i, i_in, is) = Has-leaf ram mapped disk 20 leaf rec leaf-Node has in
    let first : 0 ≡ i = omega (arith, one_key) in ap (record_at leaf) first ∙ is

disk-IsApart : IsApart ram mapped disk 0 20
disk-IsApart = record {
  apart = λ a b has_a has_b id lt.
      let same : a.offset ≡ b.offset =
        ap (λ (r : JunkRecord). r.offset) (sym (only_region a has_a) ∙ only_region b has_b) in
      absurd (omega arith);
  small = λ a has.
      subst (λ (r : JunkRecord). r.offset + r.length < 18446744073709551616) (only_region a has)
        (omega (arith, region_start, region_length));
}

junk_map_lookup-IsCovering_example :
    ((rec : JunkRecord) × (junk_map_lookup 5 120 ram 1 mapped 20 disk ≡ some (ok rec))
      × Has ram mapped disk 0 20 rec
      × IsCovering 5 120 rec)
    ⊎ ((junk_map_lookup 5 120 ram 1 mapped 20 disk ≡ some (err notfound))
        × ((rec : JunkRecord) → Has ram mapped disk 0 20 rec → IsCovering 5 120 rec → ⊥))
junk_map_lookup-IsCovering_example =
    junk_map_lookup-IsCovering ram mapped disk 5 120 0 20 1 (omega arith) (omega arith)
      disk-IsJunkTree disk-IsApart (omega arith)

jm_leaf_find-IsPlace_example :
    IsPlace leaf 5 120 (keys_of leaf) (jm_leaf_find leaf 5 120 (keys_of leaf))
jm_leaf_find-IsPlace_example = jm_leaf_find-IsPlace leaf 5 120 (keys_of leaf) leaf-RecordsUp
