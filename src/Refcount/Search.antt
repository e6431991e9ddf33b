-- ===== src/Refcount/Search.antt =====
-- The binary searches in a leaf and in an index node (src/lib/refcount.c).
use obmafs.Prelude.{
  ℕ, zero, suc, ◌+◌, ◌<◌, ◌≤◌, ◌^◌, ◌≡◌, ◌⊎◌, inl, inr, refl, ltb, leb, ◌==◌, arith, Bool-cases,
  ℕ_discrete, u16,
}
use obmafs.Refcount.{Slot, at, insert_at, middle, leaf_find, index_find}

-- The first `n` keys go up.
abbrev pub GoesUp : (ℕ → ℕ) → ℕ → Type 0
GoesUp key n = (i j : ℕ) → i < j → j < n → key i < key j

-- The key is there, or it is not and belongs where the slot says.
abbrev pub IsSlot : (ℕ → ℕ) → (n lba : ℕ) → Slot → Type 0
IsSlot key n lba (at i) = (i < n) × (key i ≡ lba)
IsSlot key n lba (insert_at p) =
    (p ≤ n) × ((j : ℕ) → j < p → key j < lba) × ((j : ℕ) → p ≤ j → j < n → lba < key j)

-- The last child whose keys start at `lba` or below, the first if there is none.
pub record IsChild (key : ℕ → ℕ) (n lba r : ℕ) : Type 0 where
  pub inside : r < n
  pub starts : (r ≡ 0) ⊎ (key r ≤ lba)
  pub ends : (j : ℕ) → r < j → j < n → lba < key j

module _ (key : ℕ → ℕ) (n lba : ℕ) (up : GoesUp key n) where
  key-le : (i j : ℕ) → i ≤ j → j < n → key i ≤ key j
  key-le i j h lt = elim (ℕ_discrete i j) [
    | yes same ↦ rw same (omega arith)
    | no other ↦ omega (arith, up i j (omega arith) lt)
  ]

  leaf_find-IsSlot :
      (rounds lo hi : ℕ)
      → lo ≤ hi
      → hi ≤ n
      → hi ≤ lo + rounds
      → ((j : ℕ) → j < lo → key j < lba)
      → ((j : ℕ) → hi ≤ j → j < n → lba < key j)
      → IsSlot key n lba (leaf_find key lba rounds lo hi)
  unfolding leaf_find
  leaf_find-IsSlot zero lo hi order inside enough below above =
      (omega arith, below, λ j a b. above j (omega arith) b)
  leaf_find-IsSlot (suc rounds) lo hi order inside enough below above =
      let mid = middle lo hi in
      elim (Bool-cases (leb hi lo)) [
        | inl done ↦ rw (done, leaf_find) (omega arith, below, λ j a b. above j (ground arith) b)
        | inr more ↦
            let lt : lo < hi = ground arith in
            elim (Bool-cases (key mid == lba)) [
              | inl same ↦ rw (more, same, leaf_find) (omega arith, ground arith)
              | inr other ↦ elim (Bool-cases (ltb (key mid) lba)) [
                | inl less ↦
                    let small : key mid < lba = ground arith in
                    rw (more, other, less, leaf_find)
                      (leaf_find-IsSlot rounds (mid + 1) hi (omega arith) inside (omega arith)
                        (λ j h. omega (arith, key-le j mid (omega arith) (omega arith))) above)
                | inr greater ↦
                    let large : lba < key mid = ground arith in
                    rw (more, other, greater, leaf_find)
                      (leaf_find-IsSlot rounds lo mid (omega arith) (omega arith) (omega arith)
                        below (λ j a b. omega (arith, key-le mid j a b)))
              ]
            ]
      ]

  -- The search in a leaf finds the key, or where it belongs.
  pub leaf_find_lem : IsSlot key n lba (leaf_find key lba n 0 n)
  leaf_find_lem =
      leaf_find-IsSlot n 0 n (omega arith) (omega arith) (omega arith) (λ j h. absurd (omega arith))
        (λ j a b. absurd (omega arith))

  -- The range is empty.
  stopped :
      (lo hi result : ℕ)
      → 0 < n
      → lo ≤ hi
      → hi ≤ n
      → hi ≤ lo
      → (lo ≡ 0 → result ≡ 0)
      → (0 < lo → (result + 1 ≡ lo) × (key result ≤ lba))
      → ((j : ℕ) → hi ≤ j → j < n → lba < key j)
      → IsChild key n lba result
  stopped lo hi result some_key order inside empty first later above = elim (ℕ_discrete lo 0) [
    | yes start ↦ record {
      inside = omega (arith, first start);
      starts = inl (first start);
      ends = λ j a b. above j (omega arith) b;
    }
    | no further ↦
        let p = later (omega arith) in
        record { inside = omega arith; starts = inr p.1; ends = λ j a b. above j (omega arith) b }
  ]

  index_find-IsChild :
      (rounds lo hi result : ℕ)
      → 0 < n
      → n < 2 ^ 16
      → lo ≤ hi
      → hi ≤ n
      → hi ≤ lo + rounds
      → (lo ≡ 0 → result ≡ 0)
      → (0 < lo → (result + 1 ≡ lo) × (key result ≤ lba))
      → ((j : ℕ) → hi ≤ j → j < n → lba < key j)
      → IsChild key n lba (index_find key lba rounds lo hi result)
  unfolding index_find
  index_find-IsChild zero lo hi result some_key small order inside enough first later above =
      stopped lo hi result some_key order inside (omega arith) first later above
  index_find-IsChild (suc rounds) lo hi result some_key small order inside enough first later
        above =
      let mid = middle lo hi in
      elim (Bool-cases (leb hi lo)) [
        | inl done ↦
            rw (done, index_find)
              (stopped lo hi result some_key order inside (ground arith) first later above)
        | inr more ↦
            let lt : lo < hi = ground arith in
            let here : u16 mid ≡ mid = omega arith in
            elim (Bool-cases (leb (key mid) lba)) [
              | inl less ↦
                  rw (more, less, here, index_find)
                    (index_find-IsChild rounds (mid + 1) hi mid some_key small (omega arith) inside
                      (omega arith) (λ e. absurd (omega arith)) (λ p. (refl, ground arith)) above)
              | inr greater ↦
                  let large : lba < key mid = ground arith in
                  rw (more, greater, index_find)
                    (index_find-IsChild rounds lo mid result some_key small (omega arith)
                      (omega arith) (omega arith) first later
                      (λ j a b. omega (arith, key-le mid j a b)))
            ]
      ]

  -- The search in an index node finds the child for the key.
  pub index_find_lem : 0 < n → n < 2 ^ 16 → IsChild key n lba (index_find key lba n 0 n 0)
  index_find_lem some_key small =
      index_find-IsChild n 0 n 0 some_key small (omega arith) (omega arith) (omega arith)
        (λ e. refl) (λ p. absurd (omega arith)) (λ j a b. absurd (omega arith))
