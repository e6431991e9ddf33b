-- ===== src/JunkMap/Find.antt =====
-- The binary search in a leaf of the map of padding regions (src/lib/junk_map.c).
use obmafs.Prelude.{
  ℕ, zero, suc, ◌+◌, ◌<◌, ◌≤◌, ◌≡◌, inl, inr, List, leb, arith, Bool-cases, ℕ_discrete, subst, sym,
}
use obmafs.Refcount.{Slot, at, insert_at, middle}
use obmafs.JunkMap.{Cmp, below, same, above, jm_key_cmp, record_at, jm_leaf_loop, jm_leaf_find}
use obmafs.JunkMap.Order.{Before, Says, jm_key_cmp-Says, RecordsUp}

module _ (buf : List ℕ) (id off : ℕ) where
  -- The record has the key, comes before it, comes after it.
  abbrev pub IsKey : ℕ → Type 0
  IsKey i = ((record_at buf i).inode_id ≡ id) × ((record_at buf i).offset ≡ off)

  abbrev pub IsLow : ℕ → Type 0
  IsLow i = Before (record_at buf i).inode_id (record_at buf i).offset id off

  abbrev pub IsHigh : ℕ → Type 0
  IsHigh i = Before id off (record_at buf i).inode_id (record_at buf i).offset

  -- The index of the key, or the place where it belongs.
  abbrev pub IsPlace : (n : ℕ) → Slot → Type 0
  IsPlace n (at i) = (i < n) × IsKey i
  IsPlace n (insert_at p) =
      (p ≤ n) × ((j : ℕ) → j < p → IsLow j) × ((j : ℕ) → p ≤ j → j < n → IsHigh j)

  module _ (n : ℕ) (up : RecordsUp buf n) where
    IsLow-until : (i j : ℕ) → i ≤ j → j < n → IsLow j → IsLow i
    IsLow-until i j le j_in low = elim (ℕ_discrete i j) [
      | yes e ↦ subst (λ k. IsLow k) (sym e) low
      | no ne ↦ ground (arith, up i j (omega arith) j_in, low)
    ]

    IsHigh-from : (i j : ℕ) → i ≤ j → j < n → IsHigh i → IsHigh j
    IsHigh-from i j le j_in high = elim (ℕ_discrete i j) [
      | yes e ↦ subst (λ k. IsHigh k) e high
      | no ne ↦ ground (arith, up i j (omega arith) j_in, high)
    ]

    jm_leaf_loop-IsPlace :
        (rounds lo hi : ℕ)
        → lo ≤ hi
        → hi ≤ n
        → hi ≤ lo + rounds
        → ((j : ℕ) → j < lo → IsLow j)
        → ((j : ℕ) → hi ≤ j → j < n → IsHigh j)
        → IsPlace n (jm_leaf_loop buf id off rounds lo hi)
    unfolding jm_leaf_loop
    jm_leaf_loop-IsPlace zero lo hi order inside enough lows highs =
        (omega arith, lows, λ j a b. highs j (omega arith) b)
    jm_leaf_loop-IsPlace (suc rounds) lo hi order inside enough lows highs =
        let mid = middle lo hi in
        let rec = record_at buf mid in
        elim (Bool-cases (leb hi lo)) [
          | inl done ↦ rw done (omega arith, lows, λ j a b. highs j (ground arith) b)
          | inr more ↦
              let lt : lo < hi = ground arith in
              rw more (
                by_cmp (jm_key_cmp rec.inode_id rec.offset id off)
                  (jm_key_cmp-Says rec.inode_id rec.offset id off) (omega arith)
                  (λ low.
                    jm_leaf_loop-IsPlace rounds (mid + 1) hi (omega arith) inside (omega arith)
                      (λ j a. IsLow-until j mid (omega arith) (omega arith) low) highs)
                  (λ high.
                    jm_leaf_loop-IsPlace rounds lo mid (omega arith) (omega arith) (omega arith)
                      lows (λ j a b. IsHigh-from mid j a b high)))
        ]
      where
        by_cmp :
            (c : Cmp)
            → Says c
                (record_at buf (middle lo hi)).inode_id
                (record_at buf (middle lo hi)).offset
                id
                off
            → middle lo hi < n
            → (IsLow (middle lo hi)
                → IsPlace n (jm_leaf_loop buf id off rounds (middle lo hi + 1) hi))
            → (IsHigh (middle lo hi) → IsPlace n (jm_leaf_loop buf id off rounds lo (middle lo hi)))
            → IsPlace n (elim c [
              | same ↦ at (middle lo hi)
              | below ↦ jm_leaf_loop buf id off rounds (middle lo hi + 1) hi
              | above ↦ jm_leaf_loop buf id off rounds lo (middle lo hi)
            ])
        by_cmp below says mid_in higher lower = higher says
        by_cmp same says mid_in higher lower = (mid_in, says)
        by_cmp above says mid_in higher lower = lower says

    -- On records whose keys go up, `jm_leaf_find` gives the index of the record with the key, or else
    -- the place where it belongs; as many rounds as there are records are enough.
    pub jm_leaf_find-IsPlace : IsPlace n (jm_leaf_find buf id off n)
    unfolding jm_leaf_find
    jm_leaf_find-IsPlace =
        jm_leaf_loop-IsPlace n 0 n (omega arith) (omega arith) (omega arith)
          (λ j a. absurd (omega arith)) (λ j a b. absurd (omega arith))
