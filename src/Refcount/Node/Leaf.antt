-- ===== src/Refcount/Node/Leaf.antt =====
-- The records of a leaf after `obmafs3_refcount_set` changed it (src/lib/refcount.c).
use obmafs.Prelude.{
  ℕ, ◌+◌, ◌-◌, ◌*◌, ◌^◌, ◌<◌, ◌≤◌, ◌≡◌, ◌≢◌, inl, inr, refl, ◌∙◌, ap, sym, List, ltb, ◌==◌,
  if◌then◌else◌, length, u16, arith, lt→ltb, le→ltb, dec_lt, ℕ_discrete, eq→==, ne→==,
}
use obmafs.Codec.Patch.Numbers.{number_at}
use obmafs.Refcount.{node_field, level_of, keys_of, record_lba, record_count}
use obmafs.Refcount.Node.{
  with_keys, sealed_node, record_bytes, move_elements, put_element, with_record, widened,
  with_new_record,
}
use obmafs.Refcount.Node.Edits.{
  magic_at, level_at, keys_at, length-sealed_node, number_at-sealed_node, length-with_keys,
  number_at-with_keys, keys-with_keys, within, within-move_inside, within-move_apart,
  within-put_apart, length-move_elements, length-put_element, length-record_bytes, put_record_lba,
  put_record_count, number_at-move_before, number_at-put_before,
}

-- The buffer of a leaf after a change: the header but for the number of keys, and the records.
pub record IsEdited (buf buf' : List ℕ) (n : ℕ) (lbas counts : ℕ → ℕ) : Type 0 where
  pub magic : node_field buf' 0 ≡ node_field buf 0
  pub level : level_of buf' ≡ level_of buf
  pub keys : keys_of buf' ≡ n
  pub size : length buf' ≡ length buf
  pub has_lba : (k : ℕ) → k < n → record_lba buf' k ≡ lbas k
  pub has_count : (k : ℕ) → k < n → record_count buf' k ≡ counts k

pub lba_within : (buf : List ℕ) (k : ℕ) → record_lba buf k ≡ within buf k 0 8
lba_within buf k = ap (λ o. number_at buf o 8) (omega arith)

-- A buffer that differs behind the header only, with its new header.
module _ (xxh64 : List ℕ → ℕ) (buf b : List ℕ) (n : ℕ) (lbas counts : ℕ → ℕ) where
  pub counted-IsEdited :
      n < 2 ^ 16
      → 70 ≤ length buf
      → length b ≡ length buf
      → ((o m : ℕ) → o + m ≤ 70 → number_at b o m ≡ number_at buf o m)
      → ((k : ℕ) → k < n → within b k 0 8 ≡ lbas k)
      → ((k : ℕ) → k < n → within b k 8 4 ≡ counts k)
      → IsEdited buf (sealed_node xxh64 (with_keys n 12 b)) n lbas counts
  counted-IsEdited small long size before has_lba has_count =
      let w = with_keys n 12 b in
      let r = sealed_node xxh64 w in
      record {
        magic =
            magic_at r
            ∙ number_at-sealed_node xxh64 w 0 8 (inl (omega arith))
            ∙ number_at-with_keys n 12 b 0 8 (inl (omega arith))
            ∙ before 0 8 (omega arith)
            ∙ sym (magic_at buf);
        level =
            level_at r
            ∙ number_at-sealed_node xxh64 w 9 1 (inl (omega arith))
            ∙ number_at-with_keys n 12 b 9 1 (inl (omega arith))
            ∙ before 9 1 (omega arith)
            ∙ sym (level_at buf);
        keys =
            keys_at r
            ∙ number_at-sealed_node xxh64 w 34 2 (inl (omega arith))
            ∙ keys-with_keys n 12 b small (omega arith);
        size = length-sealed_node xxh64 w ∙ length-with_keys n 12 b ∙ size;
        has_lba = λ k lt.
            lba_within r k
            ∙ number_at-sealed_node xxh64 w (70 + k * 12 + 0) 8 (inr (omega arith))
            ∙ number_at-with_keys n 12 b (70 + k * 12 + 0) 8 (inr (omega arith))
            ∙ has_lba k lt;
        has_count = λ k lt.
            number_at-sealed_node xxh64 w (70 + k * 12 + 8) 4 (inr (omega arith))
            ∙ number_at-with_keys n 12 b (70 + k * 12 + 8) 4 (inr (omega arith))
            ∙ has_count k lt;
      }

  kept-IsEdited :
      keys_of buf ≡ n
      → length b ≡ length buf
      → ((o m : ℕ) → o + m ≤ 70 → number_at b o m ≡ number_at buf o m)
      → ((k : ℕ) → k < n → within b k 0 8 ≡ lbas k)
      → ((k : ℕ) → k < n → within b k 8 4 ≡ counts k)
      → IsEdited buf (sealed_node xxh64 b) n lbas counts
  kept-IsEdited keys size before has_lba has_count =
      let r = sealed_node xxh64 b in
      record {
        magic =
            magic_at r
            ∙ number_at-sealed_node xxh64 b 0 8 (inl (omega arith))
            ∙ before 0 8 (omega arith)
            ∙ sym (magic_at buf);
        level =
            level_at r
            ∙ number_at-sealed_node xxh64 b 9 1 (inl (omega arith))
            ∙ before 9 1 (omega arith)
            ∙ sym (level_at buf);
        keys =
            keys_at r
            ∙ number_at-sealed_node xxh64 b 34 2 (inl (omega arith))
            ∙ before 34 2 (omega arith)
            ∙ sym (keys_at buf)
            ∙ keys;
        size = length-sealed_node xxh64 b ∙ size;
        has_lba = λ k lt.
            lba_within r k
            ∙ number_at-sealed_node xxh64 b (70 + k * 12 + 0) 8 (inr (omega arith))
            ∙ has_lba k lt;
        has_count = λ k lt.
            number_at-sealed_node xxh64 b (70 + k * 12 + 8) 4 (inr (omega arith)) ∙ has_count k lt;
      }

-- One record has another value.
abbrev pub replaced : (p v : ℕ) → (ℕ → ℕ) → ℕ → ℕ
replaced p v old k = if k == p then v else old k

-- A record was put in at `p`.
abbrev pub inserted : (p v : ℕ) → (ℕ → ℕ) → ℕ → ℕ
inserted p v old k = if ltb k p then old k else if k == p then v else old (k - 1)

-- Record `p` was taken out.
abbrev pub removed : (p : ℕ) → (ℕ → ℕ) → ℕ → ℕ
removed p old k = if ltb k p then old k else old (k + 1)

module _ (xxh64 : List ℕ → ℕ) (buf : List ℕ) (room : 70 + keys_of buf * 12 ≤ length buf) where
  pub with_record-IsEdited :
      (p lba count : ℕ)
      → p < keys_of buf
      → lba < 2 ^ 64
      → count < 2 ^ 32
      → IsEdited buf
          (with_record xxh64 p lba count buf)
          (keys_of buf)
          (replaced p lba (record_lba buf))
          (replaced p count (record_count buf))
  unfolding with_record
  with_record-IsEdited p lba count inside small few =
      let element = record_bytes lba count in
      let b = put_element 12 p element buf in
      kept-IsEdited xxh64 buf b (keys_of buf) (replaced p lba (record_lba buf))
        (replaced p count (record_count buf)) refl (length-put_element p element buf)
        (λ o m before. number_at-put_before p o m element buf before)
        (λ k lt. elim (ℕ_discrete k p) [
          | yes this ↦
              rw (this, eq→== p p refl) (put_record_lba p lba count buf small few (omega arith))
          | no other ↦ rw (ne→== k p other) (
              within-put_apart buf 0 p 0 k 0 8 (omega arith) element (length-record_bytes lba count)
                other
              ∙ sym (lba_within buf k))
        ])
        (λ k lt. elim (ℕ_discrete k p) [
          | yes this ↦
              rw (this, eq→== p p refl) (put_record_count p lba count buf small few (omega arith))
          | no other ↦ rw (ne→== k p other) (
              within-put_apart buf 0 p 0 k 8 4 (omega arith) element (length-record_bytes lba count)
                other)
        ])

  -- The buffer with a gap at `p`.
  module _ (p : ℕ) (p_in : p ≤ keys_of buf) (more : 70 + (keys_of buf + 1) * 12 ≤ length buf) where
    abbrev opened : List ℕ
    opened = if ltb p (keys_of buf) then move_elements 12 p (p + 1) (keys_of buf - p) buf else buf

    length-opened : length opened ≡ length buf
    length-opened = elim (dec_lt p (keys_of buf)) [
      | yes lt ↦
          rw (lt→ltb p (keys_of buf) lt) (length-move_elements p (p + 1) (keys_of buf - p) buf)
      | no ge ↦ rw (le→ltb p (keys_of buf) (omega arith)) refl
    ]

    opened_before : (o m : ℕ) → o + m ≤ 70 → number_at opened o m ≡ number_at buf o m
    opened_before o m before = elim (dec_lt p (keys_of buf)) [
      | yes lt ↦
          rw (lt→ltb p (keys_of buf) lt)
            (number_at-move_before p (p + 1) (keys_of buf - p) o m buf before)
      | no ge ↦ rw (le→ltb p (keys_of buf) (omega arith)) refl
    ]

    within-opened_low : (k c m : ℕ) → c + m ≤ 12 → k < p → within opened k c m ≡ within buf k c m
    within-opened_low k c m inner low = elim (dec_lt p (keys_of buf)) [
      | yes lt ↦
          rw (lt→ltb p (keys_of buf) lt)
            (within-move_apart buf p (p + 1) (keys_of buf - p) k c m inner (inl (omega arith)))
      | no ge ↦ rw (le→ltb p (keys_of buf) (omega arith)) refl
    ]

    within-opened_high :
        (k c m : ℕ)
        → c + m ≤ 12
        → p < k
        → k ≤ keys_of buf
        → within opened k c m ≡ within buf (k - 1) c m
    within-opened_high k c m inner low high = rw (lt→ltb p (keys_of buf) (omega arith)) (
        within-move_inside buf p (p + 1) (keys_of buf - p) k c m inner (omega arith) (omega arith)
          (omega arith)
        ∙ ap (λ i. within buf i c m) (omega arith))

    pub with_new_record-IsEdited :
        (lba count : ℕ)
        → lba < 2 ^ 64
        → count < 2 ^ 32
        → keys_of buf + 1 < 2 ^ 16
        → IsEdited buf
            (with_new_record xxh64 (keys_of buf) p lba count buf)
            (keys_of buf + 1)
            (inserted p lba (record_lba buf))
            (inserted p count (record_count buf))
    unfolding with_new_record widened
    with_new_record-IsEdited lba count small few wide =
        let element = record_bytes lba count in
        let b = put_element 12 p element opened in
        let whole : u16 (keys_of buf + 1) ≡ keys_of buf + 1 = omega arith in
        let len = length-put_element p element opened ∙ length-opened in
        let apart = λ (k : ℕ) (c : ℕ) (m : ℕ) (inner : c + m ≤ 12) (ne : k ≢ p).
          within-put_apart opened 0 p 0 k c m inner element (length-record_bytes lba count) ne in
        rw whole (
          counted-IsEdited xxh64 buf b (keys_of buf + 1) (inserted p lba (record_lba buf))
            (inserted p count (record_count buf)) wide (omega arith) len
            (λ o m before.
              number_at-put_before p o m element opened before ∙ opened_before o m before)
            (λ k lt. elim (dec_lt k p) [
              | yes low ↦ rw (lt→ltb k p low) (
                  apart k 0 8 (omega arith) (λ e. omega arith)
                  ∙ within-opened_low k 0 8 (omega arith) low
                  ∙ sym (lba_within buf k))
              | no other ↦ rw (le→ltb k p (omega arith)) (elim (ℕ_discrete k p) [
                | yes this ↦
                    rw (this, eq→== p p refl)
                      (put_record_lba p lba count opened small few (omega (arith, length-opened)))
                | no high ↦ rw (ne→== k p high) (
                    apart k 0 8 (omega arith) high
                    ∙ within-opened_high k 0 8 (omega arith) (omega arith) (omega arith)
                    ∙ sym (lba_within buf (k - 1)))
              ])
            ])
            (λ k lt. elim (dec_lt k p) [
              | yes low ↦ rw (lt→ltb k p low) (
                  apart k 8 4 (omega arith) (λ e. omega arith)
                  ∙ within-opened_low k 8 4 (omega arith) low)
              | no other ↦ rw (le→ltb k p (omega arith)) (elim (ℕ_discrete k p) [
                | yes this ↦
                    rw (this, eq→== p p refl)
                      (put_record_count p lba count opened small few (omega (arith, length-opened)))
                | no high ↦ rw (ne→== k p high) (
                    apart k 8 4 (omega arith) high
                    ∙ within-opened_high k 8 4 (omega arith) (omega arith) (omega arith))
              ])
            ]))
