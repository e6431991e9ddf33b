-- ===== src/Refcount/Set/Effect.antt =====
-- What `obmafs3_refcount_set` (src/lib/refcount.c) does to a tree of reference counts, where no node
-- has to be split.
use obmafs.Prelude.{
  ℕ, ◌+◌, ◌*◌, ◌^◌, ◌<◌, ◌≤◌, ◌≡◌, ◌≢◌, ◌↔◌, inl, inr, refl, ◌∙◌, subst, some, Bool, true, List, [],
  length, leb, arith, Bool-cases, ne→==, lt→ltb, dec_lt,
}
use obmafs.Context.{Ctx, ok}
use obmafs.Device.{Device, block_write}
use obmafs.Device.Blocks.{block_write-ok, length-block_read}
use obmafs.Btree.{TreeHeader}
use obmafs.Refcount.{keys_of, record_lba, Slot, at, insert_at}
use obmafs.Refcount.Search.{IsSlot, leaf_find_lem}
use obmafs.Refcount.Tree.{IsLeaf, Content, Holds}
use obmafs.Refcount.Node.{leaf_max_keys, with_record, with_new_record, without_record}
use obmafs.Refcount.Node.Edits.{fits_block}
use obmafs.Refcount.Node.Leaf.{with_record-IsEdited, with_new_record-IsEdited}
use obmafs.Refcount.Node.Records.{
  Records, Put, Without, replaced-IsLeaf, replaced-Put, inserted-IsLeaf, inserted-Put,
}
use obmafs.Refcount.Node.Removal.{without_record-IsEdited, removed-IsLeaf, removed-Without}
use obmafs.Refcount.Set.{
  Trail, ended, last_write, put_in_leaf, put_found, put_count, take_from_leaf, take_found,
  take_count, refcount_set, find_in,
}
use obmafs.Refcount.Set.Kept.{HasLeaf}
use obmafs.Refcount.Set.Spot.{IsSpot}
use obmafs.Refcount.Set.Descent.{IsTree-Spot}
use obmafs.Refcount.Set.Written.{Assign, IsStore, IsAssigned, written-IsStore, written-Assign}

Put-Assign :
    {m m' : ℕ → ℕ → Type 0} (lba count : ℕ)
    → 1 < count
    → ((k v : ℕ) → m' k v ↔ Put m lba count k v)
    → (k v : ℕ) → m' k v ↔ Assign m lba count k v
Put-Assign lba count many put k v = (
  λ h. elim ((put k v).0 h) [ inl new ↦ inl (many, new.0, new.1) | inr old ↦ inr old ],
  λ a. (put k v).1 (elim a [ inl new ↦ inl (new.1, new.2) | inr old ↦ inr old ]),
)

Without-Assign :
    {m m' : ℕ → ℕ → Type 0} (lba count : ℕ)
    → count ≤ 1
    → ((k v : ℕ) → m' k v ↔ Without m lba k v)
    → (k v : ℕ) → m' k v ↔ Assign m lba count k v
Without-Assign lba count few without k v = (
  λ h. inr ((without k v).0 h),
  λ a. elim a [ inl new ↦ absurd (omega (arith, new.0)) | inr old ↦ (without k v).1 old ],
)

module _ (dev : Device) (xxh64 : List ℕ → ℕ) (beyond : ℕ → ℕ) (mem : ℕ → Bool) (ctx : Ctx)
    (wide : 70 ≤ ctx.sb.block_size) (small : ctx.sb.total_bytes < 2 ^ 63) (hdr : TreeHeader)
    (d : dev.Disk) (height lo hi lba count : ℕ)
    (store : IsStore dev ctx d height lo hi hdr.root_node_lba)
    (writes : (offset : ℕ) (bs : List ℕ) → (dev.pwrite d offset bs).0 ≡ true) where
  module _ (cur low high : ℕ) (leaf : List ℕ)
      (r : IsSpot dev xxh64 beyond mem ctx d height lo hi hdr.root_node_lba lba cur low high
        leaf) where
    length-leaf : length leaf ≡ ctx.sb.block_size
    length-leaf = length-block_read dev ctx d cur ctx.sb.block_size r.read

    held : keys_of leaf ≤ leaf_max_keys ctx
    held = store.fits cur leaf r.has r.read

    room : 70 + keys_of leaf * 12 ≤ length leaf
    room = omega (arith, fits_block ctx (keys_of leaf) wide held, length-leaf)

    last_write-IsAssigned :
        (leaf' : List ℕ)
        → length leaf' ≡ length leaf
        → IsLeaf low high leaf'
        → keys_of leaf' ≤ leaf_max_keys ctx
        → ((k v : ℕ) → Records leaf' k v ↔ Assign (Records leaf) lba count k v)
        → (d' : dev.Disk) × (last_write dev xxh64 beyond mem ctx hdr d cur leaf'
            ≡ ended dev xxh64 beyond mem (ok tt) ctx hdr d')
          × IsAssigned dev ctx d height lo hi hdr.root_node_lba lba count d'
    unfolding last_write
    last_write-IsAssigned leaf' size is_leaf few records =
        let done = block_write-ok dev ctx d cur leaf' (writes _ leaf') in
        (
          (block_write dev ctx d cur leaf').1,
          rw done refl,
          (
            written-IsStore dev ctx xxh64 beyond mem small d height lo hi hdr.root_node_lba lba cur
                low high leaf leaf' store r (size ∙ length-leaf) done is_leaf few,
            written-Assign dev ctx xxh64 beyond mem small d height lo hi hdr.root_node_lba lba cur
                low high leaf leaf' store r (size ∙ length-leaf) done is_leaf count records,
          ),
        )

    -- A slot for a new record means that the tree has no record of the block.
    absent :
        (p : ℕ)
        → IsSlot (record_lba leaf) (keys_of leaf) lba (insert_at p)
        → (v : ℕ) → Holds dev ctx d height hdr.root_node_lba lba v
        → ⊥
    absent p slot v h =
        let (i, i_in, key, val) = (r.own lba v r.around.0 r.around.1).0 h in
        elim (dec_lt i p) [
          | yes before ↦ omega (arith, slot.1 i before)
          | no behind ↦ omega (arith, slot.2 i (omega arith) i_in)
        ]

    put_in_leaf-IsAssigned :
        (trail : Trail) (slot : Slot)
        → IsSlot (record_lba leaf) (keys_of leaf) lba slot
        → 1 < count
        → lba < 2 ^ 64
        → count < 2 ^ 32
        → (((v : ℕ) → Holds dev ctx d height hdr.root_node_lba lba v → ⊥)
            → keys_of leaf < leaf_max_keys ctx)
        → (d' : dev.Disk) × (put_in_leaf dev xxh64 beyond mem trail cur lba count leaf slot ctx hdr
              d
            ≡ ended dev xxh64 beyond mem (ok tt) ctx hdr d')
          × IsAssigned dev ctx d height lo hi hdr.root_node_lba lba count d'
    unfolding put_in_leaf
    put_in_leaf-IsAssigned trail (at p) here many lba_small count_small free =
        let e = with_record-IsEdited xxh64 leaf room p lba count here.0 lba_small count_small in
        last_write-IsAssigned (with_record xxh64 p lba count leaf) e.size
          (replaced-IsLeaf r.leaf lba count p e here) (omega (arith, e.keys, held))
          (Put-Assign lba count many (replaced-Put r.leaf lba count p e here))
    put_in_leaf-IsAssigned trail (insert_at p) slot many lba_small count_small free =
        let fewer : keys_of leaf < leaf_max_keys ctx = free (absent p slot) in
        let more = fits_block ctx (keys_of leaf + 1) wide (omega arith) in
        let e =
          with_new_record-IsEdited xxh64 leaf room p slot.0 (omega (arith, more, length-leaf)) lba
            count lba_small count_small more.1 in
        rw (lt→ltb (keys_of leaf) (leaf_max_keys ctx) fewer) (
          last_write-IsAssigned (with_new_record xxh64 (keys_of leaf) p lba count leaf) e.size
            (inserted-IsLeaf r.leaf lba count p e slot r.around.0 r.around.1)
            (omega (arith, e.keys))
            (Put-Assign lba count many (inserted-Put r.leaf lba count p e slot)))

    take_from_leaf-IsAssigned :
        (slot : Slot)
        → IsSlot (record_lba leaf) (keys_of leaf) lba slot
        → count ≤ 1
        → (d' : dev.Disk) × (take_from_leaf dev xxh64 beyond mem cur leaf slot ctx hdr d
            ≡ ended dev xxh64 beyond mem (ok tt) ctx hdr d')
          × IsAssigned dev ctx d height lo hi hdr.root_node_lba lba count d'
    unfolding take_from_leaf
    take_from_leaf-IsAssigned (at p) here few =
        let e =
          without_record-IsEdited xxh64 leaf room p here.0
            (fits_block ctx (keys_of leaf) wide held).1 in
        last_write-IsAssigned (without_record xxh64 (keys_of leaf) p leaf) e.size
          (removed-IsLeaf r.leaf lba count p e here) (omega (arith, e.keys, held))
          (Without-Assign lba count few (removed-Without r.leaf lba count p e here))
    take_from_leaf-IsAssigned (insert_at p) slot few = (
      d,
      refl,
      (store, Without-Assign lba count few (λ k v. (λ h. (differs k v h, h), λ h. h.1))),
    )
      where
        differs : (k v : ℕ) → Holds dev ctx d height hdr.root_node_lba k v → k ≢ lba
        differs k v h e =
            absent p slot v (subst (λ j. Holds dev ctx d height hdr.root_node_lba j v) e h)

  -- `obmafs3_refcount_set` on a tree on the disk that is as it should be, of at most 8 levels above
  -- the leaves, for a block in its range, with blocks of 70 bytes or more, with a device that takes the write and, if the block needs a new record, with no leaf that is
  -- full: the call succeeds and changes no header, the tree is as it should be again, and it holds
  -- the counts that it had, but for the block, which has the new count, or no record if the count is
  -- 0 or 1.
  pub refcount_set-Assign :
      (rounds : ℕ)
      → hdr.root_node_lba ≢ 0
      → lo ≤ lba
      → lba < hi
      → lba < 2 ^ 64
      → count < 2 ^ 32
      → height ≤ 8
      → height < rounds
      → (1 < count
          → ((v : ℕ) → Holds dev ctx d height hdr.root_node_lba lba v → ⊥)
          → (b : ℕ) (buf : List ℕ) → HasLeaf dev ctx d height hdr.root_node_lba b
          → Content dev ctx d b buf
          → keys_of buf < leaf_max_keys ctx)
      → (d' : dev.Disk) × (refcount_set dev xxh64 beyond mem rounds ctx hdr d lba count
          ≡ some (ended dev xxh64 beyond mem (ok tt) ctx hdr d'))
        × IsAssigned dev ctx d height lo hi hdr.root_node_lba lba count d'
  unfolding refcount_set take_count take_found put_count put_found
  refcount_set-Assign rounds there low high lba_small count_small flat deep free =
      let (cur, low', high', leaf, r) =
        IsTree-Spot dev xxh64 beyond mem ctx d height lo hi hdr.root_node_lba lba store.tree
          store.placed store.separate low high in
      let slot = leaf_find_lem (record_lba leaf) (keys_of leaf) lba r.leaf.up in
      elim (Bool-cases (leb count 1)) [
        | inl few ↦
            let done =
              take_from_leaf-IsAssigned cur low' high' leaf r (find_in leaf lba) slot
                (ground arith) in
            (
              done.0,
              rw (few, ne→== hdr.root_node_lba 0 there, r.walk rounds deep, take_found, done.1)
                  refl,
              done.2,
            )
        | inr many ↦
            let way = r.path 8 [] flat in
            let done =
              put_in_leaf-IsAssigned cur low' high' leaf r way.0 (find_in leaf lba) slot
                (ground arith) lba_small count_small
                (λ none_held. free (ground arith) none_held cur leaf r.has r.read) in
            (
              done.0,
              rw (many, ne→== hdr.root_node_lba 0 there, way.1, put_found, done.1) refl,
              done.2,
            )
      ]
