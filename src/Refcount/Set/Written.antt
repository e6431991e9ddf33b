-- ===== src/Refcount/Set/Written.antt =====
-- The tree of reference counts after its leaf for a block was written back, which is how most calls
-- of `obmafs3_refcount_set` (src/lib/refcount.c) end.
use obmafs.Prelude.{
  ℕ, zero, suc, ◌^◌, ◌<◌, ◌≤◌, ◌≡◌, ◌≢◌, ◌↔◌, ◌⊎◌, inl, inr, ◌∙◌, sym, subst, List, length, arith,
  Bool, dec_lt, ℕ_discrete,
}
use obmafs.Context.{Ctx, total_blocks, ok}
use obmafs.Device.{Device, block_read, block_write}
use obmafs.Device.Blocks.{block_read-block_write_same, block_read-block_write_ne}
use obmafs.Refcount.{keys_of, entry_child}
use obmafs.Refcount.Tree.{IsLeaf, Content, Content-same, IsTree, Holds}
use obmafs.Refcount.Node.{leaf_max_keys}
use obmafs.Refcount.Node.Records.{Records}
use obmafs.Refcount.Set.Kept.{IsPlaced, HasLeaf, IsSeparate, SameElse}
use obmafs.Refcount.Set.Spot.{IsSpot}
use obmafs.Refcount.Set.Shape.{IsShaped, IsTree-IsShaped}

-- The map `m` from blocks to counts after the block `lba` was given a count, where a block with the
-- count 0 or 1 has no entry.
abbrev pub Assign : (ℕ → ℕ → Type 0) → (lba count : ℕ) → (k v : ℕ) → Type 0
Assign m lba count k v = ((1 < count) × (k ≡ lba) × (v ≡ count)) ⊎ ((k ≢ lba) × m k v)

module _ (dev : Device) (ctx : Ctx) where
  -- A tree of reference counts as it stands on the disk: in order, in the volume, with no leaf in two
  -- places, and with no leaf that holds more records than its block has room for.
  pub record IsStore (d : dev.Disk) (height lo hi root : ℕ) : Type 0 where
    pub tree : IsTree dev ctx d height lo hi root
    pub placed : IsPlaced dev ctx d height root
    pub separate : IsSeparate dev ctx d height root
    pub fits :
        (b : ℕ) (buf : List ℕ)
        → HasLeaf dev ctx d height root b
        → Content dev ctx d b buf
        → keys_of buf ≤ leaf_max_keys ctx

  -- The tree on the disk `d'` is the one on the disk `d` after a block was given a count.
  abbrev pub IsAssigned : (d : dev.Disk) (height lo hi root lba count : ℕ) (d' : dev.Disk) → Type 0
  IsAssigned d height lo hi root lba count d' =
      IsStore d' height lo hi root
      × ((k v : ℕ)
          → Holds dev ctx d' height root k v ↔ Assign (Holds dev ctx d height root) lba count k v)

  HasLeaf-placed :
      (d : dev.Disk) (height x b : ℕ)
      → IsPlaced dev ctx d height x
      → HasLeaf dev ctx d height x b
      → b < total_blocks ctx
  HasLeaf-placed d zero x b placed has = subst (λ y. y < total_blocks ctx) has placed
  HasLeaf-placed d (suc height) x b placed (buf, read, (i, i_in, has)) =
      HasLeaf-placed d height (entry_child buf i) b (placed.1 buf read i i_in) has

  module _ (xxh64 : List ℕ → ℕ) (beyond : ℕ → ℕ) (mem : ℕ → Bool)
      (small : ctx.sb.total_bytes < 2 ^ 63) (d : dev.Disk) (height lo hi root lba cur low high : ℕ)
      (leaf leaf' : List ℕ) (store : IsStore d height lo hi root)
      (r : IsSpot dev xxh64 beyond mem ctx d height lo hi root lba cur low high leaf)
      (size : length leaf' ≡ ctx.sb.block_size)
      (written : (block_write dev ctx d cur leaf').0 ≡ ok tt)
      (is_leaf : IsLeaf low high leaf') where
    abbrev after : dev.Disk
    after = (block_write dev ctx d cur leaf').1

    same : SameElse dev ctx d after cur
    same y inside ne =
        block_read-block_write_ne dev ctx d cur y leaf' small r.placed inside (λ e. ne (sym e)) size

    read : Content dev ctx after cur leaf'
    read =
        subst (λ n. block_read dev ctx after cur n ≡ ok leaf') size
          (block_read-block_write_same dev ctx d cur leaf' written)

    shaped : IsShaped dev ctx d after cur leaf same r.read r.leaf.level height root
    shaped =
        IsTree-IsShaped dev ctx d after cur leaf same r.read r.leaf.level height lo hi root
          store.tree store.placed store.separate

    pub written-IsStore : keys_of leaf' ≤ leaf_max_keys ctx → IsStore after height lo hi root
    written-IsStore few = record {
      tree = r.tree after leaf' same read is_leaf;
      placed = shaped.0;
      separate = shaped.1;
      fits = λ b buf has' read_b.
          let has = (shaped.2 b).0 has' in
          elim (ℕ_discrete b cur) [
            | yes e ↦
                let one : buf ≡ leaf' =
                  Content-same dev ctx after cur (subst (λ y. Content dev ctx after y buf) e read_b)
                    read in
                subst (λ c. keys_of c ≤ leaf_max_keys ctx) (sym one) few
            | no ne ↦
                store.fits b buf has
                  (sym (same b (HasLeaf-placed d height root b store.placed has) ne) ∙ read_b)
          ];
    }

    pub written-Assign :
        (count : ℕ)
        → ((k v : ℕ) → Records leaf' k v ↔ Assign (Records leaf) lba count k v)
        → (k v : ℕ)
        → Holds dev ctx after height root k v ↔ Assign (Holds dev ctx d height root) lba count k v
    written-Assign count records k v = elim (dec_lt k low) [
      | yes before ↦ elsewhere (λ in_it. omega arith)
      | no above ↦ elim (dec_lt k high) [
        | no behind ↦ elsewhere (λ in_it. omega arith)
        | yes below ↦ here (omega arith) below
      ]
    ]
      where
        elsewhere :
            ((low ≤ k) × (k < high) → ⊥)
            → Holds dev ctx after height root k v
              ↔ Assign (Holds dev ctx d height root) lba count k v
        elsewhere out =
            let outer = r.outer after leaf' same read is_leaf k v out in
            let ne : k ≢ lba = λ e. out (subst (λ j. (low ≤ j) × (j < high)) (sym e) r.around) in
            (
              λ h. inr (ne, outer.0 h),
              λ a. elim a [ inl new ↦ absurd (ne new.1) | inr old ↦ outer.1 old.1 ],
            )

        here :
            low ≤ k
            → k < high
            → Holds dev ctx after height root k v
              ↔ Assign (Holds dev ctx d height root) lba count k v
        here above below =
            let inner = r.inner after leaf' same read is_leaf k v above below in
            let own = r.own k v above below in
            (
              λ h. elim ((records k v).0 (inner.0 h)) [
                | inl new ↦ inl new
                | inr old ↦ inr (old.0, own.1 old.1)
              ],
              λ a. inner.1 (
                  (records k v).1
                    (elim a [ inl new ↦ inl new | inr old ↦ inr (old.0, own.0 old.1) ])),
            )
