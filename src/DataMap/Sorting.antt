-- ===== src/DataMap/Sorting.antt =====
-- The regions of a disc in order (src/lib/nintendo.c).
use obmafs.Prelude.{
  ℕ, zero, suc, ◌<◌, ◌≤◌, ◌≡◌, ◌⊎◌, ◌↔◌, inl, inr, refl, sym, subst, List, [], ◌∷◌, ◌++◌, leb,
  arith, Bool-cases, length, get_or,
}
use obmafs.DataMap.{Region, no_region, insert_region, sort_regions, start_at}

-- The region is in the list.
abbrev pub Among : Region → List Region → Type 0
Among r [] = ⊥
Among r (x ∷ xs) = (r ≡ x) ⊎ Among r xs

pub Among-append :
    (r x : Region) (xs : List Region) → Among r (xs ++ (x ∷ [])) ↔ (Among r xs ⊎ (r ≡ x))
Among-append r x [] = (
  λ h. elim h [ inl e ↦ inr e | inr h' ↦ absurd h' ],
  λ h. elim h [ inl h' ↦ absurd h' | inr e ↦ inl e ],
)
Among-append r x (y ∷ ys) =
    let rest = Among-append r x ys in
    (
      λ h. elim h [
        | inl e ↦ inl (inl e)
        | inr h' ↦ elim (rest.0 h') [ inl a ↦ inl (inr a) | inr e ↦ inr e ]
      ],
      λ h. elim h [
        | inl a ↦ elim a [ inl e ↦ inl e | inr h' ↦ inr (rest.1 (inl h')) ]
        | inr e ↦ inr (rest.1 (inr e))
      ],
    )

Among-insert_region :
    (r x : Region) (xs : List Region) → Among r (insert_region x xs) ↔ ((r ≡ x) ⊎ Among r xs)
unfolding insert_region
Among-insert_region r x [] = (λ h. h, λ h. h)
Among-insert_region r x (y ∷ ys) =
    let rest = Among-insert_region r x ys in
    elim (Bool-cases (leb x.offset y.offset)) [
      | inl first ↦ rw first (λ h. h, λ h. h)
      | inr later ↦ rw later (
        λ h. elim h [
          | inl e ↦ inr (inl e)
          | inr h' ↦ elim (rest.0 h') [ inl e ↦ inl e | inr a ↦ inr (inr a) ]
        ],
        λ h. elim h [
          | inl e ↦ inr (rest.1 (inl e))
          | inr a ↦ elim a [ inl e ↦ inl e | inr h' ↦ inr (rest.1 (inr h')) ]
        ],
      )
    ]

pub Among-sort_regions : (r : Region) (xs : List Region) → Among r (sort_regions xs) ↔ Among r xs
unfolding sort_regions
Among-sort_regions r [] = (λ h. h, λ h. h)
Among-sort_regions r (x ∷ xs) =
    let one = Among-insert_region r x (sort_regions xs) in
    let rest = Among-sort_regions r xs in
    (
      λ h. elim (one.0 h) [ inl e ↦ inl e | inr a ↦ inr (rest.0 a) ],
      λ h. one.1 (elim h [ inl e ↦ inl e | inr a ↦ inr (rest.1 a) ]),
    )

-- The regions are in the order of their offsets.
abbrev pub IsOrdered : List Region → Type 0
IsOrdered [] = Unit {0}
IsOrdered (x ∷ xs) = ((r : Region) → Among r xs → x.offset ≤ r.offset) × IsOrdered xs

insert_region-IsOrdered :
    (x : Region) (xs : List Region) → IsOrdered xs → IsOrdered (insert_region x xs)
unfolding insert_region
insert_region-IsOrdered x [] o = (λ r h. absurd h, tt)
insert_region-IsOrdered x (y ∷ ys) (least, rest) =
    let tail = insert_region-IsOrdered x ys rest in
    elim (Bool-cases (leb x.offset y.offset)) [
      | inl first ↦ rw first (
        (λ r h. elim h [
          | inl e ↦ subst (λ (q : Region). x.offset ≤ q.offset) (sym e) (ground arith)
          | inr a ↦ ground (arith, least r a)
        ]),
        (least, rest),
      )
      | inr later ↦ rw later (
        (λ r h. elim ((Among-insert_region r x ys).0 h) [
          | inl e ↦ subst (λ (q : Region). y.offset ≤ q.offset) (sym e) (ground arith)
          | inr a ↦ least r a
        ]),
        tail,
      )
    ]

pub sort_regions-IsOrdered : (xs : List Region) → IsOrdered (sort_regions xs)
unfolding sort_regions
sort_regions-IsOrdered [] = tt
sort_regions-IsOrdered (x ∷ xs) =
    insert_region-IsOrdered x (sort_regions xs) (sort_regions-IsOrdered xs)

-- A place in the list is a region of it, and the other way round.
pub Among-get_or : (xs : List Region) (i : ℕ) → i < length xs → Among (get_or xs i no_region) xs
Among-get_or [] i i_in = absurd (omega arith)
Among-get_or (x ∷ xs) zero i_in = inl refl
Among-get_or (x ∷ xs) (suc i) i_in = inr (Among-get_or xs i (omega arith))

pub place_of :
    (r : Region) (xs : List Region)
    → Among r xs
    → (i : ℕ) × (i < length xs) × (get_or xs i no_region ≡ r)
place_of r [] h = absurd h
place_of r (x ∷ xs) (inl e) = (0, omega arith, sym e)
place_of r (x ∷ xs) (inr h) = let (i, i_in, is) = place_of r xs h in (suc i, omega arith, is)

pub starts_up :
    (xs : List Region)
    → IsOrdered xs
    → (i j : ℕ) → i ≤ j
    → j < length xs
    → start_at xs i ≤ start_at xs j
starts_up [] o i j le j_in = absurd (omega arith)
starts_up (x ∷ xs) o zero zero le j_in = omega arith
starts_up (x ∷ xs) o zero (suc j) le j_in =
    o.0 (get_or xs j no_region) (Among-get_or xs j (omega arith))
starts_up (x ∷ xs) o (suc i) zero le j_in = absurd (omega arith)
starts_up (x ∷ xs) o (suc i) (suc j) le j_in = starts_up xs o.1 i j (omega arith) (omega arith)
