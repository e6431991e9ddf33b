-- ===== src/Tests/Changes.antt =====
-- Changes of reference counts (src/lib/refcount.c) in a tree that is one leaf.
use obmafs.Prelude.{
  ℕ, ◌<◌, ◌≤◌, ◌≡◌, ◌≢◌, ◌↔◌, refl, Bool, true, some, List, arith, subst, sym, inl,
}
use obmafs.Context.{ok}
use obmafs.Codec.{le_value, unpack}
use obmafs.Device.Memory.{ram}
use obmafs.Btree.{TreeHeader, header_magic}
use obmafs.Refcount.{LeafCache, refcount_get, keys_of}
use obmafs.Refcount.Tree.{Content, Content-same, Holds}
use obmafs.Refcount.Lookup.{IsCount}
use obmafs.Refcount.Node.{leaf_max_keys}
use obmafs.Refcount.Set.{refcount_set, refcount_inc, refcount_dec, ended, forget}
use obmafs.Refcount.Set.Written.{Assign, IsStore, IsAssigned}
use obmafs.Refcount.Set.Effect.{refcount_set-Assign}
use obmafs.Refcount.Set.Counts.{count_set, refcount_get-refcount_set, refcount_dec-refcount_inc}
use obmafs.Tests.{ctx}
use obmafs.Tests.Counts.{leaf, disk, leaf-Content, disk-IsTree, no_cache, no_cache-IsRight}

abbrev hdr : TreeHeader
hdr = record {
  magic = header_magic;
  data_type = 10;
  root_node_lba = 20;
  free_node_lba = 0;
  node_size = 4096;
  total_nodes = 1;
  free_nodes = 0;
  tree_type = 1;
  last_block_lba = 0;
  last_block_offset = 0;
  checksum = 0;
}

abbrev hash : List ℕ → ℕ
hash bs = 0

abbrev rest : ℕ → ℕ
rest i = 0

abbrev plenty : ℕ → Bool
plenty n = true

one_record : keys_of leaf ≡ 1
unfolding unpack le_value
one_record = refl

most_records : leaf_max_keys ctx ≡ 335
unfolding leaf_max_keys
most_records = refl

only_leaf :
    (b : ℕ) (buf : List ℕ) → 20 ≡ b → Content ram ctx disk b buf → keys_of buf < leaf_max_keys ctx
only_leaf b buf has read =
    let one : buf ≡ leaf =
      Content-same ram ctx disk 20 (subst (λ y. Content ram ctx disk y buf) (sym has) read)
        leaf-Content in
    subst (λ c. keys_of c < leaf_max_keys ctx) (sym one) (omega (arith, one_record, most_records))

disk-IsStore : IsStore ram ctx disk 0 0 40 20
disk-IsStore = record {
  tree = disk-IsTree;
  placed = omega arith;
  separate = tt;
  fits = λ b buf has read. omega (arith, only_leaf b buf has read);
}

-- Block 7 gets its first record, before the one that is there.
refcount_set-Assign_example :
    (d' : ℕ → ℕ) × (refcount_set ram hash rest plenty 1 ctx hdr disk 7 5
      ≡ some (ended ram hash rest plenty (ok tt) ctx hdr d'))
    × IsAssigned ram ctx disk 0 0 40 20 7 5 d'
refcount_set-Assign_example =
    refcount_set-Assign ram hash rest plenty ctx (omega arith) (omega arith) hdr disk 0 0 40 7 5
      disk-IsStore (λ o bs. refl) 1 (omega arith) (omega arith) (omega arith) (omega arith)
      (omega arith) (omega arith) (omega arith)
      (λ many none_held b buf has read. only_leaf b buf has read)

abbrev CountsAt : (d : ℕ → ℕ) (k n : ℕ) → Type 0
CountsAt d k n = IsCount ram ctx d 0 20 k n

three : CountsAt disk 9 3
unfolding unpack le_value
three = inl (leaf, leaf-Content, (0, omega (arith, one_record), refl, refl))

-- The record of block 9 is taken out.
refcount_get-refcount_set_example :
    (d' : ℕ → ℕ) × (refcount_set ram hash rest plenty 1 ctx hdr disk 9 0
      ≡ some (ended ram hash rest plenty (ok tt) ctx hdr d'))
    × ((cache : LeafCache) (k : ℕ)
        → 0 ≤ k
        → k < 40
        → (n : ℕ) × (cache' : LeafCache) × (refcount_get ram 1 ctx 20 (forget cache) d' k
            ≡ some (ok n, cache'))
          × (k ≡ 9 → n ≡ count_set 0)
          × (k ≢ 9 → CountsAt disk k n))
refcount_get-refcount_set_example =
    refcount_get-refcount_set ram hash rest plenty ctx (omega arith) (omega arith) hdr
      (λ e o bs. refl) 0 0 40 9 1 (omega arith) (omega arith) (omega arith) (omega arith)
      (omega arith) (omega arith) disk 0 disk-IsStore (omega arith)
      (λ none_held b buf has read. only_leaf b buf has read)

refcount_dec-refcount_inc_example :
    (d' : ℕ → ℕ) × (cache' : LeafCache) × (d'' : ℕ → ℕ) × (cache'' : LeafCache) × (refcount_inc ram
        hash rest plenty 1 ctx hdr no_cache disk 9
      ≡ some (ended ram hash rest plenty (ok tt) ctx hdr d', cache'))
    × (refcount_dec ram hash rest plenty 1 ctx hdr cache' d' 9
        ≡ some (ended ram hash rest plenty (ok tt) ctx hdr d'', (cache'', 3)))
    × ((k v : ℕ) → Holds ram ctx d'' 0 20 k v ↔ Assign (Holds ram ctx disk 0 20) 9 3 k v)
refcount_dec-refcount_inc_example =
    refcount_dec-refcount_inc ram hash rest plenty ctx (omega arith) (omega arith) hdr
      (λ e o bs. refl) 0 0 40 9 1 (omega arith) (omega arith) (omega arith) (omega arith)
      (omega arith) (omega arith) disk no_cache 3 disk-IsStore no_cache-IsRight three (omega arith)
      (omega arith) (λ none_held b buf has read. only_leaf b buf has read)
