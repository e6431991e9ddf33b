-- ===== src/Refcount/Node/Removal.antt =====
-- A leaf that loses a record, in its buffer and as a finite map (src/lib/refcount.c).
use obmafs.Prelude.{
  ℕ, ◌+◌, ◌-◌, ◌*◌, ◌^◌, ◌<◌, ◌≤◌, ◌≡◌, ◌≢◌, ◌↔◌, inl, refl, ◌∙◌, ap, sym, List, ltb, if◌then◌else◌,
  length, length-replicate, replicate, u16, arith, lt→ltb, le→ltb, dec_lt,
}
use obmafs.Codec.Patch.Numbers.{number_at}
use obmafs.Refcount.{keys_of, record_lba, record_count}
use obmafs.Refcount.Node.{move_elements, put_element, without_record}
use obmafs.Refcount.Node.Edits.{
  within, within-move_inside, within-move_apart, within-put_apart, length-move_elements,
  length-put_element, number_at-move_before, number_at-put_before,
}
use obmafs.Refcount.Tree.{IsLeaf}
use obmafs.Refcount.Node.Leaf.{IsEdited, removed, lba_within, counted-IsEdited}
use obmafs.Refcount.Node.Records.{Records, Without, apart, removed_low, removed_high}

module _ (xxh64 : List ℕ → ℕ) (buf : List ℕ) (room : 70 + keys_of buf * 12 ≤ length buf) where
  -- The buffer with record `p` overwritten by the ones behind it.
  module _ (p : ℕ) (inside : p < keys_of buf) where
    abbrev closed : List ℕ
    closed =
        if ltb p (keys_of buf - 1)
        then move_elements 12 (p + 1) p (keys_of buf - p - 1) buf
        else buf

    length-closed : length closed ≡ length buf
    length-closed = elim (dec_lt p (keys_of buf - 1)) [
      | yes lt ↦
          rw (lt→ltb p (keys_of buf - 1) lt)
            (length-move_elements (p + 1) p (keys_of buf - p - 1) buf)
      | no ge ↦ rw (le→ltb p (keys_of buf - 1) (omega arith)) refl
    ]

    closed_before : (o m : ℕ) → o + m ≤ 70 → number_at closed o m ≡ number_at buf o m
    closed_before o m before = elim (dec_lt p (keys_of buf - 1)) [
      | yes lt ↦
          rw (lt→ltb p (keys_of buf - 1) lt)
            (number_at-move_before (p + 1) p (keys_of buf - p - 1) o m buf before)
      | no ge ↦ rw (le→ltb p (keys_of buf - 1) (omega arith)) refl
    ]

    within-closed :
        (k c m : ℕ)
        → c + m ≤ 12
        → k < keys_of buf - 1
        → within closed k c m ≡ (if ltb k p then within buf k c m else within buf (k + 1) c m)
    within-closed k c m inner lt = elim (dec_lt k p) [
      | yes low ↦ rw (lt→ltb k p low) (elim (dec_lt p (keys_of buf - 1)) [
        | yes gap ↦
            rw (lt→ltb p (keys_of buf - 1) gap)
              (within-move_apart buf (p + 1) p (keys_of buf - p - 1) k c m inner (inl low))
        | no last ↦ rw (le→ltb p (keys_of buf - 1) (omega arith)) refl
      ])
      | no high ↦
          rw (le→ltb k p (omega arith), lt→ltb p (keys_of buf - 1) (omega arith))
            (within-move_inside buf (p + 1) p (keys_of buf - p - 1) k c m inner (omega arith)
                (omega arith) (omega arith)
              ∙ ap (λ i. within buf i c m) (omega arith))
    ]

    pub without_record-IsEdited :
        keys_of buf < 2 ^ 16
        → IsEdited buf
            (without_record xxh64 (keys_of buf) p buf)
            (keys_of buf - 1)
            (removed p (record_lba buf))
            (removed p (record_count buf))
    unfolding without_record
    without_record-IsEdited wide =
        let n = keys_of buf - 1 in
        let blank : List ℕ = replicate 12 0 in
        let b = put_element 12 n blank closed in
        let whole : u16 (keys_of buf - 1) ≡ n = omega arith in
        let apart = λ (k : ℕ) (c : ℕ) (m : ℕ) (inner : c + m ≤ 12) (lt : k < n).
          within-put_apart closed 0 n 0 k c m inner blank (length-replicate {A = ℕ} 12 0)
            (λ e. omega arith) in
        rw whole (
          counted-IsEdited xxh64 buf b n (removed p (record_lba buf)) (removed p (record_count buf))
            (omega arith) (omega arith) (length-put_element n blank closed ∙ length-closed)
            (λ o m before.
              number_at-put_before n o m blank closed before ∙ closed_before o m before)
            (λ k lt.
              apart k 0 8 (omega arith) lt
              ∙ within-closed k 0 8 (omega arith) lt
              ∙ ground (arith, lba_within buf k, lba_within buf (k + 1)))
            (λ k lt. apart k 8 4 (omega arith) lt ∙ within-closed k 8 4 (omega arith) lt))

module _ {lo hi : ℕ} {buf buf' : List ℕ} (leaf : IsLeaf lo hi buf) (lba count p : ℕ) where
  -- The record of a block goes away.
  module _
      (e : IsEdited buf buf'
        (keys_of buf - 1)
        (removed p (record_lba buf))
        (removed p (record_count buf)))
      (here : (p < keys_of buf) × (record_lba buf p ≡ lba)) where
    before_lba : (i : ℕ) → i < p → i < keys_of buf - 1 → record_lba buf' i ≡ record_lba buf i
    before_lba i lt i_in = e.has_lba i i_in ∙ removed_low p count (record_lba buf) i lt

    after_lba : (i : ℕ) → p ≤ i → i < keys_of buf - 1 → record_lba buf' i ≡ record_lba buf (i + 1)
    after_lba i le i_in = e.has_lba i i_in ∙ removed_high p count (record_lba buf) i le

    pub removed-IsLeaf : IsLeaf lo hi buf'
    removed-IsLeaf = record {
      magic = e.magic ∙ leaf.magic;
      level = e.level ∙ leaf.level;
      up = λ i j lt j_in. goes_up i j lt (omega (arith, e.keys));
      range = λ i i_in. in_range i (omega (arith, e.keys));
    }
      where
        goes_up : (i j : ℕ) → i < j → j < keys_of buf - 1 → record_lba buf' i < record_lba buf' j
        goes_up i j lt j_in = elim (dec_lt i p) [
          | yes i_low ↦ elim (dec_lt j p) [
            | yes j_low ↦ omega (
              arith,
              before_lba i i_low (omega arith),
              before_lba j j_low j_in,
              leaf.up i j lt (omega arith),
            )
            | no j_high ↦ omega (
              arith,
              before_lba i i_low (omega arith),
              after_lba j (omega arith) j_in,
              leaf.up i (j + 1) (omega arith) (omega arith),
            )
          ]
          | no i_high ↦ omega (
            arith,
            after_lba i (omega arith) (omega arith),
            after_lba j (omega arith) j_in,
            leaf.up (i + 1) (j + 1) (omega arith) (omega arith),
          )
        ]

        in_range :
            (i : ℕ) → i < keys_of buf - 1 → (lo ≤ record_lba buf' i) × (record_lba buf' i < hi)
        in_range i i_in = elim (dec_lt i p) [
          | yes low ↦
              let same = before_lba i low i_in in
              let r = leaf.range i (omega arith) in (omega (arith, same, r), omega (arith, same, r))
          | no high ↦
              let same = after_lba i (omega arith) i_in in
              let r = leaf.range (i + 1) (omega arith) in
              (omega (arith, same, r), omega (arith, same, r))
        ]

    pub removed-Without : (k v : ℕ) → Records buf' k v ↔ Without (Records buf) lba k v
    removed-Without k v = (forth, back)
      where
        differs : (i : ℕ) → i < keys_of buf → i ≢ p → record_lba buf i ≡ k → k ≢ lba
        differs i i_in other key is =
            apart (record_lba buf) (keys_of buf) i p leaf.up i_in here.0 other
              (key ∙ is ∙ sym here.1)

        forth : Records buf' k v → Without (Records buf) lba k v
        forth (i, i_in', key, val) =
            let i_in : i < keys_of buf - 1 = omega (arith, e.keys) in
            elim (dec_lt i p) [
              | yes low ↦
                  let key' = sym (before_lba i low i_in) ∙ key in
                  (
                    differs i (omega arith) (λ is. omega arith) key',
                    (
                      i,
                      omega arith,
                      key',
                      sym (removed_low p lba (record_count buf) i low)
                          ∙ sym (e.has_count i i_in)
                          ∙ val,
                    ),
                  )
              | no high ↦
                  let key' = sym (after_lba i (omega arith) i_in) ∙ key in
                  (
                    differs (i + 1) (omega arith) (λ is. omega arith) key',
                    (
                      i + 1,
                      omega arith,
                      key',
                      sym (removed_high p lba (record_count buf) i (omega arith))
                          ∙ sym (e.has_count i i_in)
                          ∙ val,
                    ),
                  )
            ]

        back : Without (Records buf) lba k v → Records buf' k v
        back (ne, (i, i_in, key, val)) =
            let other : i ≢ p = λ this. ne (sym key ∙ ap (record_lba buf) this ∙ here.1) in
            elim (dec_lt i p) [
              | yes low ↦ (
                i,
                omega (arith, e.keys, here.0),
                before_lba i low (omega (arith, here.0)) ∙ key,
                e.has_count i (omega (arith, here.0))
                    ∙ removed_low p lba (record_count buf) i low
                    ∙ val,
              )
              | no high ↦
                  let on : i - 1 + 1 ≡ i = omega arith in
                  (
                    i - 1,
                    omega (arith, e.keys),
                    after_lba (i - 1) (omega arith) (omega arith) ∙ ap (record_lba buf) on ∙ key,
                    e.has_count (i - 1) (omega arith)
                        ∙ removed_high p lba (record_count buf) (i - 1) (omega arith)
                        ∙ ap (record_count buf) on
                        ∙ val,
                  )
            ]
