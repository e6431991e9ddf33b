-- ===== src/Bitmap/Search/Pass.antt =====
-- One pass of `obmafs3_bitmap_find_free` (src/lib/bitmap.c) gives the answer of the search one
-- block at a time.
use obmafs.Prelude.{
  ℕ, zero, suc, ◌+◌, ◌-◌, ◌*◌, ◌/◌, ◌%◌, ◌^◌, ◌≤◌, ◌<◌, ◌≡◌, refl, Bool, true, false, ltb, leb,
  ◌==◌, arith, dec_lt, u64, not64, Bool-cases, inl, inr, subst, min,
}
use obmafs.Prelude.Bits.{bit, bit-le-one}
use obmafs.Bitmap.Search.{
  Run, Outcome, found, scanning, go_on, scan_word, pass_loop, scan_pass, load_word, mask_word,
}
use obmafs.Bitmap.Search.Reference.{Scan, hit, miss, first_run, and_then, first_run-add}
use obmafs.Bitmap.Search.Word.{load_word-lt, bit-load_word, bit-mask_word}
use obmafs.Bitmap.Search.Loop.{trailing, Ends, Agrees, IsMask, word_loop-zero, word_loop-Agrees}

-- The same run is found, or none.
abbrev pub SameAnswer : Outcome → Scan → Type 0
SameAnswer (found s) (hit t) = s ≡ t
SameAnswer (found s) (miss len) = ⊥
SameAnswer (scanning r) (hit t) = ⊥
SameAnswer (scanning r) (miss len) = Unit {0}

-- A run that ended before block `j` may be dropped.
Agrees-drop :
    (r : Run) (fr : Scan) (i j : ℕ)
    → Ends r i
    → i < j
    → Agrees (scanning r) fr j
    → Agrees (scanning (record r { len = 0 })) fr j
Agrees-drop r (hit s) i j ends lt h = h
Agrees-drop r (miss len) i j ends lt h = (ground arith, omega arith)

module _ (m : ℕ → ℕ) (small : (i : ℕ) → m i < 256) (free : ℕ → Bool) (count scan_end : ℕ)
    (bound : scan_end < 2 ^ 63)
    (is_free : (b : ℕ) → b < scan_end → free b ≡ (bit (m (b / 8)) (b % 8) == 0)) where
  mask_at : ℕ → ℕ
  mask_at i = not64 (mask_word (load_word m (i / 64)) (i % 64) (i / 64 * 64 + 64) scan_end)

  mask_at-IsMask :
      (i j : ℕ)
      → i < scan_end
      → j ≡ min (i / 64 * 64 + 64) scan_end
      → IsMask free (i / 64) (i % 64) (j - i) (mask_at i)
  unfolding mask_at
  mask_at-IsMask i j inside end =
      let masked =
        bit-mask_word (load_word m (i / 64)) (i % 64) (load_word-lt m small (i / 64)) (omega arith)
          (i / 64 * 64) scan_end (omega arith) (omega arith) in
      record {
        below = omega arith;
        low = λ k hk. ground (arith, masked k (omega arith));
        high = λ k a b. ground (arith, masked k b);
        is_free = λ k a b. ground (
          arith,
          masked k (omega arith),
          bit-load_word m small (i / 64) k (omega arith),
          is_free (i / 64 * 64 + k) (omega arith),
          bit-le-one (load_word m (i / 64)) k,
        );
      }

  -- The end of the part of the range that lies in the word of block `i`.
  abbrev word_end : ℕ → ℕ
  word_end i = min (i / 64 * 64 + 64) scan_end

  scan_word-Agrees :
      (i : ℕ) (r : Run)
      → i < scan_end
      → Ends r i
      → Agrees
          (scan_word count scan_end m i r)
          (first_run free count (word_end i - i) i (trailing r i))
          (word_end i)
  unfolding scan_word mask_at
  scan_word-Agrees i r inside ends =
      let e : u64 ((i / 64 + 1) * 64) ≡ i / 64 * 64 + 64 = omega arith in
      let scanned =
        word_loop-Agrees free count scan_end (i / 64) bound (word_end i - i) (i % 64) i (word_end i)
          64 (mask_at i) r (omega arith) (omega arith) (omega arith) (omega arith) (omega arith)
          (mask_at-IsMask i (word_end i) inside refl) ends in
      rw e
        (elim (Bool-cases
          (mask_word (load_word m (i / 64)) (i % 64) (i / 64 * 64 + 64) scan_end == 2 ^ 64 - 1)) [
            | inr some_free ↦ rw some_free scanned
            | inl full ↦
                let none : mask_at i ≡ 0 = ground arith in
                rw full (
                  Agrees-drop r (first_run free count (word_end i - i) i (trailing r i)) i
                    (word_end i) ends (omega arith)
                    (rw (none, word_loop-zero count scan_end (i / 64) 64 r) at scanned))
          ])

  pass_loop-end :
      (rounds i : ℕ) (r : Run) → scan_end ≤ i → pass_loop count scan_end m rounds i r ≡ scanning r
  unfolding pass_loop
  pass_loop-end zero i r h = refl
  pass_loop-end (suc rounds) i r h = let over : ltb i scan_end ≡ false = ground arith in rw over

  -- The answer of a pass, from that of the word of block `i` and of the rest.
  after_word :
      (rounds i j : ℕ) (o : Outcome) (fr : Scan)
      → Agrees o fr j
      → ((r' : Run)
          → Ends r' j
          → SameAnswer
              (pass_loop count scan_end m rounds (u64 ((i / 64 + 1) * 64)) r')
              (first_run free count (scan_end - j) j (trailing r' j)))
      → SameAnswer
          (go_on o (λ r'. pass_loop count scan_end m rounds (u64 ((i / 64 + 1) * 64)) r'))
          (and_then fr (first_run free count (scan_end - j) j))
  unfolding and_then go_on
  after_word rounds i j (found s) (hit t) h rest = h
  after_word rounds i j (found s) (miss len) h rest = absurd h
  after_word rounds i j (scanning r) (hit t) h rest = absurd h
  after_word rounds i j (scanning r) (miss len) h rest =
      subst
        (λ k.
          SameAnswer (pass_loop count scan_end m rounds (u64 ((i / 64 + 1) * 64)) r)
            (first_run free count (scan_end - j) j k))
        h.0 (rest r h.1)

  pass_loop-suc :
      (rounds i : ℕ) (r : Run)
      → i < scan_end
      → pass_loop count scan_end m (suc rounds) i r
        ≡ go_on
            (scan_word count scan_end m i r)
            (λ r'. pass_loop count scan_end m rounds (u64 ((i / 64 + 1) * 64)) r')
  unfolding pass_loop
  pass_loop-suc rounds i r live = let go : ltb i scan_end ≡ true = ground arith in rw go

  pass_loop-SameAnswer :
      (rounds i : ℕ) (r : Run)
      → i ≤ scan_end
      → scan_end ≤ (i / 64 + rounds) * 64
      → Ends r i
      → SameAnswer
          (pass_loop count scan_end m rounds i r)
          (first_run free count (scan_end - i) i (trailing r i))
  unfolding pass_loop first_run
  pass_loop-SameAnswer zero i r inside enough ends =
      let none : scan_end - i ≡ 0 = omega arith in rw none tt
  pass_loop-SameAnswer (suc rounds) i r inside enough ends = elim (dec_lt i scan_end) [
    | no over ↦
        let none : scan_end - i ≡ 0 = omega arith in
        rw (none, pass_loop-end (suc rounds) i r (omega arith)) tt
    | yes live ↦
        let split : scan_end - i ≡ (word_end i - i) + (scan_end - word_end i) = omega arith in
        let next : u64 ((i / 64 + 1) * 64) ≡ i / 64 * 64 + 64 = omega arith in
        rw
          (
            split,
            first_run-add free count (word_end i - i) (scan_end - word_end i) i (word_end i)
                (trailing r i) (omega arith),
            pass_loop-suc rounds i r live,
          )
          (after_word rounds i (word_end i) (scan_word count scan_end m i r)
            (first_run free count (word_end i - i) i (trailing r i))
            (scan_word-Agrees i r live ends)
            λ r' ends'. rw next (elim (dec_lt scan_end (i / 64 * 64 + 64)) [
              | yes last ↦
                  let whole : word_end i ≡ scan_end = omega arith in
                  let none : scan_end - scan_end ≡ 0 = omega arith in
                  rw (whole, none, pass_loop-end rounds (i / 64 * 64 + 64) r' (omega arith)) tt
              | no more ↦
                  let whole : word_end i ≡ i / 64 * 64 + 64 = omega arith in
                  rw whole (
                    pass_loop-SameAnswer rounds (i / 64 * 64 + 64) r' (omega arith) (omega arith)
                      (omega arith))
            ]))
  ]

  -- A pass over the blocks from `lo` up to `scan_end` answers as the reference does.
  pub scan_pass-SameAnswer :
      (lo : ℕ)
      → lo ≤ scan_end
      → SameAnswer (scan_pass m count lo scan_end) (first_run free count (scan_end - lo) lo 0)
  unfolding scan_pass first_run
  scan_pass-SameAnswer lo inside = elim (dec_lt lo scan_end) [
    | no empty ↦
        let none : scan_end - lo ≡ 0 = omega arith in
        let skip : leb scan_end lo ≡ true = ground arith in rw (none, skip) tt
    | yes live ↦
        let go : leb scan_end lo ≡ false = ground arith in
        let start : Run = record { start = 0; len = 0 } in
        let fresh : trailing start lo ≡ 0 = ground arith in
        rw go (
          subst
            (λ k.
              SameAnswer (pass_loop count scan_end m (scan_end / 64 + 1) lo start)
                (first_run free count (scan_end - lo) lo k))
            fresh
            (pass_loop-SameAnswer (scan_end / 64 + 1) lo start inside (omega arith) (omega arith)))
  ]
