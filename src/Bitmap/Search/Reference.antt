-- ===== src/Bitmap/Search/Reference.antt =====
-- A search for a run of free blocks one block at a time, the reference for the search by words.
use obmafs.Prelude.{
  ℕ, zero, suc, ◌+◌, ◌-◌, ◌≤◌, ◌<◌, ◌≡◌, Bool, true, false, leb, arith, Bool-cases, inl, inr,
  dec_lt, ℕ_discrete, subst, leb→le,
}

-- `hit s` is the first block of a run, `miss len` the number of free blocks that end the range.
pub data Scan : Type 0 where
  hit : ℕ → Scan
  miss : ℕ → Scan

unfoldable pub and_then : Scan → (ℕ → Scan) → Scan
and_then (hit s) next = hit s
and_then (miss len) next = next len

module _ (free : ℕ → Bool) (count : ℕ) where
  -- The `n` blocks from `i` on, where the `len` blocks before `i` are free.
  unfoldable pub first_run : ℕ → ℕ → ℕ → Scan
  first_run zero i len = miss len
  first_run (suc n) i len = elim (free i) [
    | false ↦ first_run n (i + 1) 0
    | true ↦ elim (leb count (len + 1)) [
      | true ↦ hit (i - len)
      | false ↦ first_run n (i + 1) (len + 1)
    ]
  ]

  pub first_run-add :
      (n k i j len : ℕ)
      → i + n ≡ j
      → first_run (n + k) i len ≡ and_then (first_run n i len) (first_run k j)
  unfolding first_run and_then
  first_run-add zero k i j len e =
      let n0 : zero + k ≡ k = omega arith in let e' : i ≡ j = omega arith in rw (n0, e')
  first_run-add (suc n) k i j len e =
      let n0 : suc n + k ≡ suc (n + k) = omega arith in
      rw n0 (
        ground (
          arith,
          first_run-add n k (i + 1) j 0 (omega arith),
          first_run-add n k (i + 1) j (len + 1) (omega arith),
        ))

-- The blocks `s` to `s + count - 1` are free.
abbrev pub AllFree : (ℕ → Bool) → ℕ → ℕ → Type 0
AllFree free s count = (j : ℕ) → s ≤ j → j < s + count → free j ≡ true

-- One of the blocks `s` to `s + count - 1` is allocated.
abbrev pub SomeUsed : (ℕ → Bool) → ℕ → ℕ → Type 0
SomeUsed free s count = (j : ℕ) × (s ≤ j) × (j < s + count) × (free j ≡ false)

-- A hit is the first run of `count` free blocks in the range; after a miss there is none.
abbrev pub IsFirstRun : (ℕ → Bool) → (count lo hi : ℕ) → Scan → Type 0
IsFirstRun free count lo hi (hit s) =
    (lo ≤ s)
    × (s + count ≤ hi)
    × AllFree free s count
    × ((t : ℕ) → lo ≤ t → t < s → SomeUsed free t count)
IsFirstRun free count lo hi (miss len) = (t : ℕ) → lo ≤ t → t + count ≤ hi → SomeUsed free t count

module _ (free : ℕ → Bool) (count lo : ℕ) where
  -- What is known before block `i` is looked at: the blocks from `st` to `i` are free, and no run
  -- starts before `st`.
  record IsSearched (st len i : ℕ) : Type 0 where
    above : lo ≤ st
    ends : st + len ≡ i
    short : len < count
    free_run : AllFree free st len
    none_before : (t : ℕ) → lo ≤ t → t < st → SomeUsed free t count

  IsSearched-used :
      {st len i : ℕ} → IsSearched st len i → free i ≡ false → IsSearched (i + 1) 0 (i + 1)
  IsSearched-used {st} {len} {i} h used = record {
    above = omega (arith, h.above, h.ends);
    ends = omega arith;
    short = omega (arith, h.short);
    free_run = λ j p q. absurd (omega arith);
    none_before = λ t p q. elim (dec_lt t st) [
      | yes before ↦ h.none_before t p before
      | no after ↦ (i, omega arith, omega (arith, h.ends, h.short), used)
    ];
  }

  AllFree-suc : {st len i : ℕ} → IsSearched st len i → free i ≡ true → AllFree free st (len + 1)
  AllFree-suc {st} {len} {i} h unused j p q = elim (ℕ_discrete j i) [
    | yes same ↦ rw same unused
    | no other ↦ h.free_run j p (omega (arith, h.ends))
  ]

  first_run-IsFirstRun :
      (n i st len hi : ℕ)
      → IsSearched st len i
      → i + n ≡ hi
      → IsFirstRun free count lo hi (first_run free count n i len)
  unfolding first_run
  first_run-IsFirstRun zero i st len hi h e =
      λ t p q. h.none_before t p (omega (arith, h.ends, h.short))
  first_run-IsFirstRun (suc n) i st len hi h e = elim (Bool-cases (free i)) [
    | inr used ↦
        rw (used, first_run)
          (first_run-IsFirstRun n (i + 1) (i + 1) 0 hi (IsSearched-used h used) (omega arith))
    | inl unused ↦ elim (Bool-cases (leb count (len + 1))) [
      | inl long ↦
          let at : i - len ≡ st = omega (arith, h.ends) in
          let whole : len + 1 ≡ count = omega (arith, leb→le count (len + 1) long, h.short) in
          rw (unused, long, at, first_run)
            (
              h.above,
              omega (arith, h.ends),
              subst (AllFree free st) whole (AllFree-suc h unused),
              h.none_before,
            )
      | inr more ↦
          rw (unused, more, first_run)
            (first_run-IsFirstRun n (i + 1) st (len + 1) hi
              (record {
                above = h.above;
                ends = omega (arith, h.ends);
                short = ground arith;
                free_run = AllFree-suc h unused;
                none_before = h.none_before;
              })
              (omega arith))
    ]
  ]

-- The search over the blocks from `lo` up to `hi` hits the first run of `count` free blocks there,
-- and misses only if there is none.
pub first_run_lem :
    (free : ℕ → Bool) (count n lo hi : ℕ)
    → 0 < count
    → lo + n ≡ hi
    → IsFirstRun free count lo hi (first_run free count n lo 0)
first_run_lem free count n lo hi pos e =
    first_run-IsFirstRun free count lo n lo lo 0 hi
      (record {
        above = omega arith;
        ends = omega arith;
        short = pos;
        free_run = λ j p q. absurd (omega arith);
        none_before = λ t p q. absurd (omega arith);
      })
      e
