-- ===== src/Bitmap/Search/Loop.antt =====
-- The loops of `obmafs3_bitmap_find_free` (src/lib/bitmap.c) against the search one block at a
-- time.
use obmafs.Prelude.{
  ℕ, zero, suc, ◌+◌, ◌-◌, ◌*◌, ◌/◌, ◌^◌, ◌≤◌, ◌<◌, ◌≡◌, refl, Bool, false, bit_and, leb, ◌==◌,
  if◌then◌else◌, arith, dec_lt, ℕ_discrete, u64, Bool-cases, inl, inr, subst, ap₂,
}
use obmafs.Prelude.Bits.{bit, eq_zero_of_bits, bit_clear_lowest, pos_of_bit, bit_and-le}
use obmafs.Bitmap.Search.{Run, Outcome, found, scanning, ctz, extend_run, word_loop}
use obmafs.Bitmap.Search.Reference.{Scan, hit, miss, first_run}

-- The free blocks that end at block `i`, as the run records them.
abbrev pub trailing : Run → ℕ → ℕ
trailing r i = if r.start + r.len == i then r.len else 0

abbrev pub Ends : Run → ℕ → Type 0
Ends r i = r.start + r.len ≤ i

-- The outcome of the code before block `i` and that of the reference agree.
abbrev pub Agrees : Outcome → Scan → ℕ → Type 0
Agrees (found s) (hit t) i = s ≡ t
Agrees (found s) (miss len) i = ⊥
Agrees (scanning r) (hit t) i = ⊥
Agrees (scanning r) (miss len) i = (trailing r i ≡ len) × Ends r i

record Extends (r : Run) (i : ℕ) (r' : Run) : Type 0 where
  len : r'.len ≡ trailing r i + 1
  start : r'.start ≡ i - trailing r i
  ends : r'.start + r'.len ≡ i + 1

extend_run-Extends : (r : Run) (i : ℕ) → Ends r i → i + 1 < 2 ^ 64 → Extends r i (extend_run r i)
unfolding extend_run
extend_run-Extends r i h small = record {
  len = ground arith;
  start = ground arith;
  ends = ground arith;
}

ctz_lem : (n p m : ℕ) → p < n → ((j : ℕ) → j < p → bit m j ≡ 0) → bit m p ≡ 1 → ctz n m ≡ p
unfolding ctz
ctz_lem zero p m h low one = absurd (omega arith)
ctz_lem (suc n) zero m h low one = ground arith
ctz_lem (suc n) (suc p) m h low one = ground (
  arith,
  low 0 (omega arith),
  ctz_lem n p (m / 2) (omega arith) (λ j hj. low (suc j) (omega arith)) one,
)

-- Bit `k` of the mask tells whether block `word_idx * 64 + k` is free, for the `n` bits from `p`
-- on; all other bits are clear.
pub record IsMask (free : ℕ → Bool) (word_idx p n mask : ℕ) : Type 0 where
  pub below : mask < 2 ^ 64
  pub low : (k : ℕ) → k < p → bit mask k ≡ 0
  pub high : (k : ℕ) → p + n ≤ k → k < 64 → bit mask k ≡ 0
  pub is_free :
      (k : ℕ) → p ≤ k → k < p + n → bit mask k ≡ (if free (word_idx * 64 + k) then 1 else 0)

module _ (free : ℕ → Bool) (word_idx p n : ℕ) {mask : ℕ} where
  IsMask-zero : n ≡ 0 → IsMask free word_idx p n mask → mask ≡ 0
  IsMask-zero none h =
      eq_zero_of_bits 64 mask h.below λ k hk. elim (dec_lt k p) [
        | yes below ↦ h.low k below
        | no above ↦ h.high k (omega arith) hk
      ]

  IsMask-used :
      IsMask free word_idx p (suc n) mask
      → free (word_idx * 64 + p) ≡ false
      → IsMask free word_idx (p + 1) n mask
  IsMask-used h used = record {
    below = h.below;
    low = λ k hk. elim (ℕ_discrete k p) [
      | yes at ↦ rw at (ground (arith, h.is_free p (omega arith) (omega arith)))
      | no under ↦ h.low k (omega arith)
    ];
    high = λ k a b. h.high k (omega arith) b;
    is_free = λ k a b. h.is_free k (omega arith) (omega arith);
  }

  IsMask-clear :
      IsMask free word_idx p (suc n) mask
      → bit mask p ≡ 1
      → IsMask free word_idx (p + 1) n (bit_and mask (mask - 1))
  IsMask-clear h one = record {
    below = omega (arith, bit_and-le mask (mask - 1), h.below);
    low = λ k hk. ground (arith, bit_clear_lowest p mask k h.low one, h.low k);
    high = λ k a b. ground (arith, bit_clear_lowest p mask k h.low one, h.high k (omega arith) b);
    is_free = λ k a b.
        ground
          (arith, bit_clear_lowest p mask k h.low one, h.is_free k (omega arith) (omega arith));
  }

module _ (count scan_end word_idx : ℕ) where
  pub word_loop-zero :
      (rounds : ℕ) (r : Run) → word_loop count scan_end word_idx rounds 0 r ≡ scanning r
  unfolding word_loop
  word_loop-zero zero r = refl
  word_loop-zero (suc rounds) r = refl

  -- One round, when `p` is the lowest bit of the mask and stands for block `i`.
  word_loop-suc :
      (rounds p i mask : ℕ) (r : Run)
      → p < 64
      → word_idx * 64 + p ≡ i
      → i < scan_end
      → scan_end < 2 ^ 63
      → ((k : ℕ) → k < p → bit mask k ≡ 0)
      → bit mask p ≡ 1
      → Ends r i
      → word_loop count scan_end word_idx (suc rounds) mask r ≡ (
          if leb count (trailing r i + 1)
          then found (i - trailing r i)
          else word_loop count scan_end word_idx rounds (bit_and mask (mask - 1)) (extend_run r i))
  unfolding word_loop
  word_loop-suc rounds p i mask r width at inside small low one ends =
      let next = extend_run-Extends r i ends (omega arith) in
      let lowest : ctz 64 mask ≡ p = ctz_lem 64 p mask width low one in
      let live : (mask == 0) ≡ false = ground (arith, pos_of_bit p mask one) in
      let block : u64 (word_idx * 64 + p) ≡ i = omega arith in
      let before : leb scan_end i ≡ false = ground arith in
      rw (lowest, live, block, before)
        (ap₂
          (λ len start.
            if leb count len
            then found start
            else word_loop count scan_end word_idx rounds (bit_and mask (mask - 1))
                (extend_run r i))
          next.len next.start)

module _ (free : ℕ → Bool) (count scan_end word_idx : ℕ) (small : scan_end < 2 ^ 63) where
  pub word_loop-Agrees :
      (n p i j rounds mask : ℕ) (r : Run)
      → p + n ≤ 64
      → n ≤ rounds
      → word_idx * 64 + p ≡ i
      → i + n ≡ j
      → j ≤ scan_end
      → IsMask free word_idx p n mask
      → Ends r i
      → Agrees
          (word_loop count scan_end word_idx rounds mask r)
          (first_run free count n i (trailing r i))
          j
  unfolding first_run
  word_loop-Agrees zero p i j rounds mask r width enough at to inside h ends =
      let none : mask ≡ 0 = IsMask-zero free word_idx p 0 refl h in
      let same : i ≡ j = omega arith in
      rw (none, word_loop-zero count scan_end word_idx rounds r, same) (refl, omega arith)
  word_loop-Agrees (suc n) p i j zero mask r width enough at to inside h ends = absurd (omega arith)
  word_loop-Agrees (suc n) p i j (suc rounds) mask r width enough at to inside h ends =
      elim (Bool-cases (free i)) [
        | inr used ↦
            let gap : trailing r (i + 1) ≡ 0 = ground arith in
            rw (used, ← gap, first_run)
              (word_loop-Agrees n (p + 1) (i + 1) j (suc rounds) mask r (omega arith) (omega arith)
                (omega arith) (omega arith) inside (IsMask-used free word_idx p n h (rw at used))
                (omega arith))
        | inl unused ↦
            let one : bit mask p ≡ 1 = ground (arith, h.is_free p (omega arith) (omega arith)) in
            let next : Extends r i (extend_run r i) = extend_run-Extends r i ends (omega arith) in
            let round =
              word_loop-suc count scan_end word_idx rounds p i mask r (omega arith) at (omega arith)
                small h.low one ends in
            rw round (elim (Bool-cases (leb count (trailing r i + 1))) [
              | inl long ↦ rw (unused, long, first_run)
              | inr more ↦
                  let grown : trailing (extend_run r i) (i + 1) ≡ trailing r i + 1 =
                    ground (arith, next.ends, next.len) in
                  rw (unused, more, first_run)
                    (subst
                      (λ len.
                        Agrees
                          (word_loop count scan_end word_idx rounds (bit_and mask (mask - 1))
                            (extend_run r i))
                          (first_run free count n (i + 1) len) j)
                      grown
                      (word_loop-Agrees n (p + 1) (i + 1) j rounds (bit_and mask (mask - 1))
                        (extend_run r i) (omega arith) (omega arith) (omega arith) (omega arith)
                        inside (IsMask-clear free word_idx p n h one) (omega (arith, next.ends))))
            ])
      ]
