-- ===== src/Prelude/Slices.antt =====
-- Parts of lists.
use Prim.Native.Nat.{ℕ, zero, suc, ◌+◌, ◌-◌, ◌≤◌}
use mathlib.Core.Path.{◌≡◌, refl, ap}
use mathlib.Core.List.{List, [], ◌∷◌, ◌++◌}
use native.Mathlib.Omega.{arith}
use obmafs.Prelude.Lists.{take, drop, length, replicate}

pub take-append {ℓ} : {A : Type ℓ} (n : ℕ) (xs ys : List A) → length xs ≡ n → take n (xs ++ ys) ≡ xs
take-append zero [] ys h = refl
take-append zero (x ∷ xs) ys h = absurd (omega arith)
take-append (suc n) [] ys h = absurd (omega arith)
take-append (suc n) (x ∷ xs) ys h = ap (λ zs. x ∷ zs) (take-append n xs ys (omega arith))

pub drop-append {ℓ} : {A : Type ℓ} (n : ℕ) (xs ys : List A) → length xs ≡ n → drop n (xs ++ ys) ≡ ys
drop-append zero [] ys h = refl
drop-append zero (x ∷ xs) ys h = absurd (omega arith)
drop-append (suc n) [] ys h = absurd (omega arith)
drop-append (suc n) (x ∷ xs) ys h = drop-append n xs ys (omega arith)

pub take-beyond {ℓ} : {A : Type ℓ} (n : ℕ) (xs : List A) → length xs ≤ n → take n xs ≡ xs
take-beyond zero [] h = refl
take-beyond zero (x ∷ xs) h = absurd (omega arith)
take-beyond (suc n) [] h = refl
take-beyond (suc n) (x ∷ xs) h = ap (λ zs. x ∷ zs) (take-beyond n xs (omega arith))

pub take-drop {ℓ} :
    {A : Type ℓ} (n k : ℕ) (xs : List A) → take n xs ++ take k (drop n xs) ≡ take (n + k) xs
take-drop zero k xs = ap (λ m. take m xs) (omega arith)
take-drop (suc n) zero [] = let e : suc n + 0 ≡ suc (n + 0) = omega arith in rw e
take-drop (suc n) (suc k) [] = let e : suc n + suc k ≡ suc (n + suc k) = omega arith in rw e
take-drop (suc n) k (x ∷ xs) =
    let e : suc n + k ≡ suc (n + k) = omega arith in rw e (ap (λ zs. x ∷ zs) (take-drop n k xs))

pub length-take {ℓ} : {A : Type ℓ} (n : ℕ) (xs : List A) → n ≤ length xs → length (take n xs) ≡ n
length-take zero xs h = refl
length-take (suc n) [] h = absurd (omega arith)
length-take (suc n) (x ∷ xs) h = ap suc (length-take n xs (omega arith))

pub length-drop {ℓ} : {A : Type ℓ} (n : ℕ) (xs : List A) → length (drop n xs) ≡ length xs - n
length-drop zero xs = omega arith
length-drop (suc n) [] = omega arith
length-drop (suc n) (x ∷ xs) = omega (arith, length-drop n xs)

pub drop-append_more {ℓ} :
    {A : Type ℓ} (n k : ℕ) (xs ys : List A) → length xs ≡ n → drop (n + k) (xs ++ ys) ≡ drop k ys
drop-append_more zero k [] ys h = ap (λ m. drop m ys) (omega arith)
drop-append_more zero k (x ∷ xs) ys h = absurd (omega arith)
drop-append_more (suc n) k [] ys h = absurd (omega arith)
drop-append_more (suc n) k (x ∷ xs) ys h =
    let e : suc n + k ≡ suc (n + k) = omega arith in rw e (drop-append_more n k xs ys (omega arith))

pub drop-replicate {ℓ} :
    {A : Type ℓ} (n k : ℕ) (a : A) → drop k (replicate n a) ≡ replicate (n - k) a
drop-replicate n zero a = ap (λ m. replicate m a) (omega arith)
drop-replicate zero (suc k) a = let e : zero - suc k ≡ zero = omega arith in rw e
drop-replicate (suc n) (suc k) a =
    let e : suc n - suc k ≡ n - k = omega arith in rw e (drop-replicate n k a)

pub take-append-drop {ℓ} : {A : Type ℓ} (n : ℕ) (xs : List A) → take n xs ++ drop n xs ≡ xs
take-append-drop zero xs = refl
take-append-drop (suc n) [] = refl
take-append-drop (suc n) (x ∷ xs) = ap (λ zs. x ∷ zs) (take-append-drop n xs)

pub drop-beyond {ℓ} : {A : Type ℓ} (n : ℕ) (xs : List A) → length xs ≤ n → drop n xs ≡ []
drop-beyond zero [] h = refl
drop-beyond zero (x ∷ xs) h = absurd (omega arith)
drop-beyond (suc n) [] h = refl
drop-beyond (suc n) (x ∷ xs) h = drop-beyond n xs (omega arith)
