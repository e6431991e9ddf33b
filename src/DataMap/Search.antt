-- ===== src/DataMap/Search.antt =====
-- The binary search for a region that overlaps a range (src/lib/nintendo.c).
use obmafs.Prelude.{
  ℕ, zero, suc, ◌+◌, ◌<◌, ◌≤◌, ◌≡◌, ◌⊎◌, inl, inr, refl, Bool, true, false, leb, arith, Bool-cases,
  dec_lt,
}
use obmafs.Refcount.{middle}
use obmafs.DataMap.{overlap_loop}

module _ (stop start : ℕ → ℕ) (offset end n : ℕ)
    (starts : (i j : ℕ) → i ≤ j → j < n → start i ≤ start j)
    (stops : (i j : ℕ) → i ≤ j → j < n → stop i ≤ stop j) where
  -- Region `i` overlaps the range.
  abbrev pub Overlaps : ℕ → Type 0
  Overlaps i = (offset < stop i) × (start i < end)

  -- The answer says whether there is one.
  abbrev pub Decides : Bool → Type 0
  Decides b =
      ((b ≡ true) × ((i : ℕ) × (i < n) × Overlaps i))
      ⊎ ((b ≡ false) × ((i : ℕ) → i < n → Overlaps i → ⊥))

  pub overlap_loop-Decides :
      (rounds lo hi : ℕ)
      → lo ≤ hi
      → hi ≤ n
      → hi ≤ lo + rounds
      → ((j : ℕ) → j < lo → stop j ≤ offset)
      → ((j : ℕ) → hi ≤ j → j < n → end ≤ start j)
      → Decides (overlap_loop stop start offset end rounds lo hi)
  unfolding overlap_loop
  overlap_loop-Decides zero lo hi order inside enough lows highs = inr (
    refl,
    λ i i_in o. elim (dec_lt i lo) [
      | yes low ↦ omega (arith, lows i low)
      | no high ↦ omega (arith, highs i (omega arith) i_in)
    ],
  )
  overlap_loop-Decides (suc rounds) lo hi order inside enough lows highs =
      let mid = middle lo hi in
      elim (Bool-cases (leb hi lo)) [
        | inl done ↦ rw done (
            inr (
              refl,
              λ i i_in o. elim (dec_lt i lo) [
                | yes low ↦ omega (arith, lows i low)
                | no high ↦ omega (arith, highs i (ground arith) i_in)
              ],
            ))
        | inr more ↦
            let lt : lo < hi = ground arith in
            rw more (elim (Bool-cases (leb (stop mid) offset)) [
              | inl below ↦
                  let low : stop mid ≤ offset = ground arith in
                  rw below (
                    overlap_loop-Decides rounds (mid + 1) hi (omega arith) inside (omega arith)
                      (λ j a. omega (arith, stops j mid (omega arith) (omega arith))) highs)
              | inr not_below ↦ rw not_below (elim (Bool-cases (leb end (start mid))) [
                | inl above ↦
                    let high : end ≤ start mid = ground arith in
                    rw above (
                      overlap_loop-Decides rounds lo mid (omega arith) (omega arith) (omega arith)
                        lows (λ j a b. omega (arith, starts mid j a b)))
                | inr not_above ↦
                    rw not_above (inl (refl, (mid, omega arith, (ground arith, ground arith))))
              ])
            ])
      ]
