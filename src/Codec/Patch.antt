-- ===== src/Codec/Patch.antt =====
-- Bytes that are copied into a buffer with `memcpy`, and read back from it.
pub mod Numbers
use obmafs.Prelude.{
  ℕ, zero, suc, ◌+◌, ◌-◌, ◌*◌, ◌<◌, ◌≤◌, ◌≡◌, ◌≢◌, ◌⊎◌, inl, inr, refl, ◌∙◌, ap, ap₂, sym, subst,
  List, [], ◌∷◌, ◌++◌, length, length-append, get_or, set, replicate, length-set, get_or-set_self,
  get_or-set_ne, arith, ℕ_discrete, dec_lt,
}

-- `memcpy` of bytes to a position, or a row of assignments.
unfoldable pub put : List ℕ → (at : ℕ) → List ℕ → List ℕ
put [] at s = s
put (b ∷ bs) at s = put bs (at + 1) (set s at b)

-- The bytes from a position on.
unfoldable pub bytes_at : (n at : ℕ) → List ℕ → List ℕ
bytes_at zero at s = []
bytes_at (suc n) at s = get_or s at 0 ∷ bytes_at n (at + 1) s

pub length-put : (bs : List ℕ) (at : ℕ) (s : List ℕ) → length (put bs at s) ≡ length s
unfolding put
length-put [] at s = refl
length-put (b ∷ bs) at s = length-put bs (at + 1) (set s at b) ∙ length-set s at b

pub get_or-put_apart :
    (bs : List ℕ) (at : ℕ) (s : List ℕ) (i : ℕ)
    → (i < at) ⊎ (at + length bs ≤ i)
    → get_or (put bs at s) i 0 ≡ get_or s i 0
unfolding put
get_or-put_apart [] at s i apart = refl
get_or-put_apart (b ∷ bs) at s i apart =
    get_or-put_apart bs (at + 1) (set s at b) i (ground arith)
    ∙ get_or-set_ne s at i b 0 (ground arith)

pub bytes_at-put :
    (bs : List ℕ) (at : ℕ) (s : List ℕ)
    → at + length bs ≤ length s
    → bytes_at (length bs) at (put bs at s) ≡ bs
unfolding put bytes_at
bytes_at-put [] at s room = refl
bytes_at-put (b ∷ bs) at s room =
    let len = length-set s at b in
    ap₂ (λ x xs. x ∷ xs)
      (get_or-put_apart bs (at + 1) (set s at b) at (inl (omega arith))
        ∙ get_or-set_self s at b 0 (omega arith))
      (bytes_at-put bs (at + 1) (set s at b) (omega (arith, len)))

pub bytes_at-same :
    (n at : ℕ) (a b : List ℕ)
    → ((i : ℕ) → at ≤ i → i < at + n → get_or a i 0 ≡ get_or b i 0)
    → bytes_at n at a ≡ bytes_at n at b
unfolding bytes_at
bytes_at-same zero at a b same = refl
bytes_at-same (suc n) at a b same =
    ap₂ (λ x xs. x ∷ xs) (same at (omega arith) (omega arith))
      (bytes_at-same n (at + 1) a b (λ i from to. same i (omega arith) (omega arith)))

pub get_or-put_zeros :
    (n at : ℕ) (s : List ℕ) (i : ℕ)
    → at + n ≤ length s
    → at ≤ i
    → i < at + n
    → get_or (put (replicate n 0) at s) i 0 ≡ 0
unfolding put
get_or-put_zeros zero at s i room from to = absurd (omega arith)
get_or-put_zeros (suc n) at s i room from to =
    let len = length-set s at 0 in
    elim (ℕ_discrete at i) [
      | yes e ↦
          get_or-put_apart (replicate n 0) (at + 1) (set s at 0) i (inl (omega arith))
          ∙ ap (λ k. get_or (set s k 0) i 0) e
          ∙ get_or-set_self s i 0 0 (omega arith)
      | no ne ↦
          get_or-put_zeros n (at + 1) (set s at 0) i (omega (arith, len)) (omega arith)
            (omega arith)
    ]

-- Storing what is there changes nothing.
pub set-get_or : (s : List ℕ) (i v : ℕ) → get_or s i 0 ≡ v → set s i v ≡ s
set-get_or [] i v e = refl
set-get_or (x ∷ s) zero v e = ap (λ y. y ∷ s) (sym e)
set-get_or (x ∷ s) (suc i) v e = ap (λ s'. x ∷ s') (set-get_or s i v e)

pub put-bytes_at : (n at : ℕ) (s : List ℕ) → put (bytes_at n at s) at s ≡ s
unfolding put bytes_at
put-bytes_at zero at s = refl
put-bytes_at (suc n) at s =
    ap (put (bytes_at n (at + 1) s) (at + 1)) (set-get_or s at (get_or s at 0) refl)
    ∙ put-bytes_at n (at + 1) s

pub length-bytes_at : (n at : ℕ) (s : List ℕ) → length (bytes_at n at s) ≡ n
unfolding bytes_at
length-bytes_at zero at s = refl
length-bytes_at (suc n) at s = ap suc (length-bytes_at n (at + 1) s)

pub get_or-bytes_at :
    (n at : ℕ) (s : List ℕ) (j : ℕ) → j < n → get_or (bytes_at n at s) j 0 ≡ get_or s (at + j) 0
unfolding bytes_at
get_or-bytes_at zero at s j lt = absurd (omega arith)
get_or-bytes_at (suc n) at s zero lt = ap (λ i. get_or s i 0) (omega arith)
get_or-bytes_at (suc n) at s (suc j) lt =
    get_or-bytes_at n (at + 1) s j (omega arith) ∙ ap (λ i. get_or s i 0) (omega arith)

pub get_or-put_inside :
    (bs : List ℕ) (at : ℕ) (s : List ℕ) (j : ℕ)
    → j < length bs
    → at + length bs ≤ length s
    → get_or (put bs at s) (at + j) 0 ≡ get_or bs j 0
unfolding put
get_or-put_inside [] at s j lt room = absurd (omega arith)
get_or-put_inside (b ∷ bs) at s zero lt room =
    let e : at + 0 ≡ at = omega arith in
    rw e (
      get_or-put_apart bs (at + 1) (set s at b) at (inl (omega arith))
      ∙ get_or-set_self s at b 0 (omega arith))
get_or-put_inside (b ∷ bs) at s (suc j) lt room =
    let e : at + suc j ≡ at + 1 + j = omega arith in
    rw e (
      get_or-put_inside bs (at + 1) (set s at b) j (omega arith) (omega (arith, length-set s at b)))

pub put-append :
    (xs ys : List ℕ) (at : ℕ) (s : List ℕ)
    → put (xs ++ ys) at s ≡ put ys (at + length xs) (put xs at s)
unfolding put
put-append [] ys at s = ap (λ i. put ys i s) (omega arith)
put-append (x ∷ xs) ys at s =
    put-append xs ys (at + 1) (set s at x)
    ∙ ap (λ i. put ys i (put xs (at + 1) (set s at x))) (omega arith)
