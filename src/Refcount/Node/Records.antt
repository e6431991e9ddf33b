-- ===== src/Refcount/Node/Records.antt =====
-- A leaf as a finite map from blocks to counts, and what the changes of src/lib/refcount.c do to it.
use obmafs.Prelude.{
  ℕ, ◌+◌, ◌-◌, ◌<◌, ◌≤◌, ◌≡◌, ◌≢◌, ◌⊎◌, ◌↔◌, inl, inr, refl, ◌∙◌, ap, sym, List, arith, dec_lt,
  ℕ_discrete, lt→ltb, le→ltb, eq→==, ne→==,
}
use obmafs.Refcount.{keys_of, record_lba, record_count}
use obmafs.Refcount.Search.{GoesUp}
use obmafs.Refcount.Tree.{IsLeaf}
use obmafs.Refcount.Node.Leaf.{IsEdited, replaced, inserted, removed}

-- The leaf holds the count `v` for the block `k`.
abbrev pub Records : List ℕ → (k v : ℕ) → Type 0
Records buf k v = (i : ℕ) × (i < keys_of buf) × (record_lba buf i ≡ k) × (record_count buf i ≡ v)

-- A map with one block set to a count, and one without a block.
abbrev pub Put : (ℕ → ℕ → Type 0) → (lba count : ℕ) → (k v : ℕ) → Type 0
Put m lba count k v = ((k ≡ lba) × (v ≡ count)) ⊎ ((k ≢ lba) × m k v)

abbrev pub Without : (ℕ → ℕ → Type 0) → (lba : ℕ) → (k v : ℕ) → Type 0
Without m lba k v = (k ≢ lba) × m k v

module _ (p v : ℕ) (old : ℕ → ℕ) (i : ℕ) where
  replaced_at : i ≡ p → replaced p v old i ≡ v
  replaced_at e = rw (eq→== i p e) refl

  replaced_ne : i ≢ p → replaced p v old i ≡ old i
  replaced_ne ne = rw (ne→== i p ne) refl

  inserted_low : i < p → inserted p v old i ≡ old i
  inserted_low lt = rw (lt→ltb i p lt) refl

  inserted_at : i ≡ p → inserted p v old i ≡ v
  inserted_at e = rw (le→ltb i p (omega arith), eq→== i p e) refl

  inserted_high : p < i → inserted p v old i ≡ old (i - 1)
  inserted_high lt = rw (le→ltb i p (omega arith), ne→== i p (λ e. omega arith)) refl

  pub removed_low : i < p → removed p old i ≡ old i
  removed_low lt = rw (lt→ltb i p lt) refl

  pub removed_high : p ≤ i → removed p old i ≡ old (i + 1)
  removed_high le = rw (le→ltb i p le) refl

-- Keys that go up differ.
pub apart : (key : ℕ → ℕ) (n i j : ℕ) → GoesUp key n → i < n → j < n → i ≢ j → key i ≢ key j
apart key n i j up i_in j_in ne e = elim (dec_lt i j) [
  | yes lt ↦ omega (arith, up i j lt j_in)
  | no ge ↦ omega (arith, up j i (omega arith) i_in)
]

module _ {lo hi : ℕ} {buf buf' : List ℕ} (leaf : IsLeaf lo hi buf) (lba count p : ℕ) where
  -- The record of a block that has one gets another count.
  module _
      (e : IsEdited buf buf'
        (keys_of buf)
        (replaced p lba (record_lba buf))
        (replaced p count (record_count buf)))
      (here : (p < keys_of buf) × (record_lba buf p ≡ lba)) where
    lba_kept : (i : ℕ) → i < keys_of buf → record_lba buf' i ≡ record_lba buf i
    lba_kept i lt = elim (ℕ_discrete i p) [
      | yes this ↦
          e.has_lba i lt
          ∙ replaced_at p lba (record_lba buf) i this
          ∙ sym here.1
          ∙ ap (record_lba buf) (sym this)
      | no other ↦ e.has_lba i lt ∙ replaced_ne p lba (record_lba buf) i other
    ]

    pub replaced-IsLeaf : IsLeaf lo hi buf'
    replaced-IsLeaf = record {
      magic = e.magic ∙ leaf.magic;
      level = e.level ∙ leaf.level;
      up = λ i j lt j_in. omega (
        arith,
        e.keys,
        lba_kept i (omega (arith, e.keys)),
        lba_kept j (omega (arith, e.keys)),
        leaf.up i j lt (omega (arith, e.keys)),
      );
      range = λ i i_in.
          let same = lba_kept i (omega (arith, e.keys)) in
          let r = leaf.range i (omega (arith, e.keys)) in
          (omega (arith, same, r), omega (arith, same, r));
    }

    pub replaced-Put : (k v : ℕ) → Records buf' k v ↔ Put (Records buf) lba count k v
    replaced-Put k v = (forth, back)
      where
        forth : Records buf' k v → Put (Records buf) lba count k v
        forth (i, i_in', key, val) =
            let i_in : i < keys_of buf = omega (arith, e.keys) in
            let key' = sym (lba_kept i i_in) ∙ key in
            elim (ℕ_discrete i p) [
              | yes this ↦ inl (
                sym key' ∙ ap (record_lba buf) this ∙ here.1,
                sym val ∙ e.has_count i i_in ∙ replaced_at p count (record_count buf) i this,
              )
              | no other ↦ inr (
                λ is.
                    apart (record_lba buf) (keys_of buf) i p leaf.up i_in here.0 other
                      (key' ∙ is ∙ sym here.1),
                (
                  i,
                  i_in,
                  key',
                  sym (replaced_ne p count (record_count buf) i other)
                      ∙ sym (e.has_count i i_in)
                      ∙ val,
                ),
              )
            ]

        back : Put (Records buf) lba count k v → Records buf' k v
        back (inl (is_k, is_v)) = (
          p,
          omega (arith, e.keys, here),
          lba_kept p here.0 ∙ here.1 ∙ sym is_k,
          e.has_count p here.0 ∙ replaced_at p count (record_count buf) p refl ∙ sym is_v,
        )
        back (inr (ne, (i, i_in, key, val))) =
            let other : i ≢ p = λ this. ne (sym key ∙ ap (record_lba buf) this ∙ here.1) in
            (
              i,
              omega (arith, e.keys),
              lba_kept i i_in ∙ key,
              e.has_count i i_in ∙ replaced_ne p count (record_count buf) i other ∙ val,
            )

  -- A block without a record gets one.
  module _
      (e : IsEdited buf buf'
        (keys_of buf + 1)
        (inserted p lba (record_lba buf))
        (inserted p count (record_count buf)))
      (slot : (p ≤ keys_of buf)
        × ((j : ℕ) → j < p → record_lba buf j < lba)
        × ((j : ℕ) → p ≤ j → j < keys_of buf → lba < record_lba buf j)) where
    low_lba : (i : ℕ) → i < p → record_lba buf' i ≡ record_lba buf i
    low_lba i lt = e.has_lba i (omega (arith, slot.0)) ∙ inserted_low p lba (record_lba buf) i lt

    this_lba : (i : ℕ) → i ≡ p → record_lba buf' i ≡ lba
    this_lba i is = e.has_lba i (omega (arith, slot.0)) ∙ inserted_at p lba (record_lba buf) i is

    high_lba : (i : ℕ) → p < i → i < keys_of buf + 1 → record_lba buf' i ≡ record_lba buf (i - 1)
    high_lba i lt i_in = e.has_lba i i_in ∙ inserted_high p lba (record_lba buf) i lt

    inserted_up : (i j : ℕ) → i < j → j < keys_of buf + 1 → record_lba buf' i < record_lba buf' j
    inserted_up i j lt j_in = elim (dec_lt i p) [
      | yes i_low ↦ elim (dec_lt j p) [
        | yes j_low ↦
            omega (arith, low_lba i i_low, low_lba j j_low, leaf.up i j lt (omega (arith, slot.0)))
        | no j_not ↦ elim (ℕ_discrete j p) [
          | yes j_at ↦ omega (arith, low_lba i i_low, this_lba j j_at, slot.1 i i_low)
          | no j_high ↦ omega (
            arith,
            low_lba i i_low,
            high_lba j (omega arith) j_in,
            slot.1 i i_low,
            slot.2 (j - 1) (omega arith) (omega arith),
          )
        ]
      ]
      | no i_not ↦ elim (ℕ_discrete i p) [
        | yes i_at ↦ omega (
          arith,
          this_lba i i_at,
          high_lba j (omega arith) j_in,
          slot.2 (j - 1) (omega arith) (omega arith),
        )
        | no i_high ↦ omega (
          arith,
          high_lba i (omega arith) (omega arith),
          high_lba j (omega arith) j_in,
          leaf.up (i - 1) (j - 1) (omega arith) (omega arith),
        )
      ]
    ]

    pub inserted-IsLeaf : lo ≤ lba → lba < hi → IsLeaf lo hi buf'
    inserted-IsLeaf above below = record {
      magic = e.magic ∙ leaf.magic;
      level = e.level ∙ leaf.level;
      up = λ i j lt j_in. inserted_up i j lt (omega (arith, e.keys));
      range = λ i i_in. in_range i (omega (arith, e.keys));
    }
      where
        in_range :
            (i : ℕ) → i < keys_of buf + 1 → (lo ≤ record_lba buf' i) × (record_lba buf' i < hi)
        in_range i i_in = elim (dec_lt i p) [
          | yes low ↦
              let same = low_lba i low in
              let r = leaf.range i (omega (arith, slot.0)) in
              (omega (arith, same, r), omega (arith, same, r))
          | no not_low ↦ elim (ℕ_discrete i p) [
            | yes at ↦ let same = this_lba i at in (omega (arith, same), omega (arith, same))
            | no high ↦
                let same = high_lba i (omega arith) i_in in
                let r = leaf.range (i - 1) (omega arith) in
                (omega (arith, same, r), omega (arith, same, r))
          ]
        ]

    pub inserted-Put : (k v : ℕ) → Records buf' k v ↔ Put (Records buf) lba count k v
    inserted-Put k v = (forth, back)
      where
        forth : Records buf' k v → Put (Records buf) lba count k v
        forth (i, i_in', key, val) =
            let i_in : i < keys_of buf + 1 = omega (arith, e.keys) in
            elim (dec_lt i p) [
              | yes low ↦
                  let key' : record_lba buf i ≡ k = sym (low_lba i low) ∙ key in
                  inr (
                    (λ is. omega (arith, slot.1 i low)),
                    (
                      i,
                      omega (arith, slot.0),
                      key',
                      sym (inserted_low p count (record_count buf) i low)
                          ∙ sym (e.has_count i i_in)
                          ∙ val,
                    ),
                  )
              | no not_low ↦ elim (ℕ_discrete i p) [
                | yes at ↦ inl (
                  sym key ∙ this_lba i at,
                  sym val ∙ e.has_count i i_in ∙ inserted_at p count (record_count buf) i at,
                )
                | no high ↦
                    let key' : record_lba buf (i - 1) ≡ k =
                      sym (high_lba i (omega arith) i_in) ∙ key in
                    inr (
                      (λ is. omega (arith, slot.2 (i - 1) (omega arith) (omega arith))),
                      (
                        i - 1,
                        omega arith,
                        key',
                        sym (inserted_high p count (record_count buf) i (omega arith))
                            ∙ sym (e.has_count i i_in)
                            ∙ val,
                      ),
                    )
              ]
            ]

        back : Put (Records buf) lba count k v → Records buf' k v
        back (inl (is_k, is_v)) = (
          p,
          omega (arith, e.keys, slot.0),
          this_lba p refl ∙ sym is_k,
          e.has_count p (omega (arith, slot.0))
              ∙ inserted_at p count (record_count buf) p refl
              ∙ sym is_v,
        )
        back (inr (ne, (i, i_in, key, val))) = elim (dec_lt i p) [
          | yes low ↦ (
            i,
            omega (arith, e.keys),
            low_lba i low ∙ key,
            e.has_count i (omega arith) ∙ inserted_low p count (record_count buf) i low ∙ val,
          )
          | no high ↦
              let back_one : i + 1 - 1 ≡ i = omega arith in
              (
                i + 1,
                omega (arith, e.keys),
                high_lba (i + 1) (omega arith) (omega arith) ∙ ap (record_lba buf) back_one ∙ key,
                e.has_count (i + 1) (omega arith)
                    ∙ inserted_high p count (record_count buf) (i + 1) (omega arith)
                    ∙ ap (record_count buf) back_one
                    ∙ val,
              )
        ]
