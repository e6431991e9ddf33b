-- ===== src/Codec/Patch/Numbers.antt =====
-- Numbers in a buffer that bytes were copied into.
use obmafs.Prelude.{
  ℕ, zero, suc, ◌+◌, ◌-◌, ◌^◌, ◌<◌, ◌≤◌, ◌≡◌, ◌⊎◌, refl, ◌∙◌, ap, ap₂, sym, List, [], ◌∷◌, length,
  get_or, take, drop, arith,
}
use obmafs.Codec.{le_bytes, le_value}
use obmafs.Codec.RoundTrip.{le_value-le_bytes, length-le_bytes}
use obmafs.Codec.Patch.{
  put, bytes_at, length-bytes_at, get_or-bytes_at, bytes_at-put, get_or-put_apart,
  get_or-put_inside,
}

-- `n` bytes at an offset.
abbrev pub number_at : List ℕ → (offset n : ℕ) → ℕ
number_at buf offset n = le_value (take n (drop offset buf))

nothing_at : (n o : ℕ) → le_value (bytes_at n o []) ≡ 0
unfolding bytes_at le_value
nothing_at zero o = refl
nothing_at (suc n) o = omega (arith, nothing_at n (o + 1))

bytes_at_later : (n o x : ℕ) (xs : List ℕ) → bytes_at n (o + 1) (x ∷ xs) ≡ bytes_at n o xs
unfolding bytes_at
bytes_at_later zero o x xs = refl
bytes_at_later (suc n) o x xs =
    let e : o + 1 ≡ suc o = omega arith in
    ap (λ i. get_or (x ∷ xs) i 0 ∷ bytes_at n (o + 1 + 1) (x ∷ xs)) e
    ∙ ap (λ r. get_or xs o 0 ∷ r) (bytes_at_later n (o + 1) x xs)

take_bytes : (n : ℕ) (xs : List ℕ) → le_value (take n xs) ≡ le_value (bytes_at n 0 xs)
unfolding bytes_at le_value
take_bytes zero xs = refl
take_bytes (suc n) [] = omega (arith, nothing_at n (0 + 1))
take_bytes (suc n) (x ∷ xs) = omega (arith, take_bytes n xs, ap le_value (bytes_at_later n 0 x xs))

pub number_at_bytes : (buf : List ℕ) (o n : ℕ) → number_at buf o n ≡ le_value (bytes_at n o buf)
unfolding le_value bytes_at
number_at_bytes xs zero n = take_bytes n xs
number_at_bytes [] (suc o) zero = refl
number_at_bytes [] (suc o) (suc n) = sym (nothing_at (suc n) (suc o))
number_at_bytes (x ∷ xs) (suc o) n =
    let e : suc o ≡ o + 1 = omega arith in
    number_at_bytes xs o n
    ∙ ap le_value (sym (bytes_at_later n o x xs))
    ∙ ap (λ i. le_value (bytes_at n i (x ∷ xs))) (sym e)

bytes_at_shifted :
    (n : ℕ) (a b : List ℕ) (o p : ℕ)
    → ((j : ℕ) → j < n → get_or a (o + j) 0 ≡ get_or b (p + j) 0)
    → bytes_at n o a ≡ bytes_at n p b
unfolding bytes_at
bytes_at_shifted zero a b o p same = refl
bytes_at_shifted (suc n) a b o p same =
    let first : get_or a o 0 ≡ get_or b p 0 =
      ap (λ i. get_or a i 0) (omega arith)
      ∙ same 0 (omega arith)
      ∙ ap (λ i. get_or b i 0) (omega arith) in
    ap₂ (λ x xs. x ∷ xs) first
      (bytes_at_shifted n a b (o + 1) (p + 1) (λ j lt.
        ap (λ i. get_or a i 0) (omega arith)
        ∙ same (suc j) (omega arith)
        ∙ ap (λ i. get_or b i 0) (omega arith)))

-- Numbers of the same bytes.
pub number_at-same :
    (a b : List ℕ) (o p n : ℕ)
    → ((j : ℕ) → j < n → get_or a (o + j) 0 ≡ get_or b (p + j) 0)
    → number_at a o n ≡ number_at b p n
number_at-same a b o p n same =
    number_at_bytes a o n
    ∙ ap le_value (bytes_at_shifted n a b o p same)
    ∙ sym (number_at_bytes b p n)

pub number_at-put_apart :
    (bs : List ℕ) (at : ℕ) (s : List ℕ) (o n : ℕ)
    → (o + n ≤ at) ⊎ (at + length bs ≤ o)
    → number_at (put bs at s) o n ≡ number_at s o n
number_at-put_apart bs at s o n apart =
    number_at-same (put bs at s) s o o n (λ j lt. get_or-put_apart bs at s (o + j) (ground arith))

pub number_at-put :
    (v at n : ℕ) (s : List ℕ)
    → v < 256 ^ n
    → at + n ≤ length s
    → number_at (put (le_bytes n v) at s) at n ≡ v
number_at-put v at n s fits room =
    number_at_bytes (put (le_bytes n v) at s) at n
    ∙ ap (λ k. le_value (bytes_at k at (put (le_bytes n v) at s))) (sym (length-le_bytes n v))
    ∙ ap le_value (bytes_at-put (le_bytes n v) at s (omega (arith, length-le_bytes n v)))
    ∙ le_value-le_bytes n v fits

-- A number in bytes that were moved.
pub number_at-put_moved :
    (len src at o n : ℕ) (from s : List ℕ)
    → at ≤ o
    → o + n ≤ at + len
    → at + len ≤ length s
    → number_at (put (bytes_at len src from) at s) o n ≡ number_at from (src + (o - at)) n
number_at-put_moved len src at o n from s low high room =
    number_at-same (put (bytes_at len src from) at s) from o (src + (o - at)) n (λ j lt.
      let size = length-bytes_at len src from in
      let e : o + j ≡ at + (o - at + j) = omega arith in
      ap (λ i. get_or (put (bytes_at len src from) at s) i 0) e
      ∙ get_or-put_inside (bytes_at len src from) at s (o - at + j) (omega (arith, size))
          (omega (arith, size))
      ∙ get_or-bytes_at len src from (o - at + j) (omega arith)
      ∙ ap (λ i. get_or from i 0) (omega arith))
