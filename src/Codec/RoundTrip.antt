-- ===== src/Codec/RoundTrip.antt =====
-- Reading back what was written gives the fields.
use obmafs.Prelude.{
  ℕ, zero, suc, ◌+◌, ◌/◌, ◌%◌, ◌^◌, ◌<◌, ◌≡◌, refl, List, [], ◌∷◌, ◌++◌, take, drop, length,
  length-append, arith, ap,
}
use native.Mathlib.Nat.{pow-suc}
use mathlib.Core.List.{append_assoc}
use obmafs.Codec.{le_bytes, le_value, pack, unpack}

pub length-le_bytes : (n x : ℕ) → length (le_bytes n x) ≡ n
unfolding le_bytes
length-le_bytes zero x = refl
length-le_bytes (suc n) x = ap suc (length-le_bytes n (x / 256))

pub le_value-le_bytes : (n x : ℕ) → x < 256 ^ n → le_value (le_bytes n x) ≡ x
unfolding le_value le_bytes
le_value-le_bytes zero x h = omega arith
le_value-le_bytes (suc n) x h =
    omega (arith, pow-suc 256 n, le_value-le_bytes n (x / 256) (omega (arith, pow-suc 256 n)))

pub take-le_bytes : (n x : ℕ) (rest : List ℕ) → take n (le_bytes n x ++ rest) ≡ le_bytes n x
unfolding le_bytes
take-le_bytes zero x rest = refl
take-le_bytes (suc n) x rest = ap (λ bs. x % 256 ∷ bs) (take-le_bytes n (x / 256) rest)

pub drop-le_bytes : (n x : ℕ) (rest : List ℕ) → drop n (le_bytes n x ++ rest) ≡ rest
unfolding le_bytes
drop-le_bytes zero x rest = refl
drop-le_bytes (suc n) x rest = drop-le_bytes n (x / 256) rest

-- Each value fits its field, and there is one for each.
abbrev pub Fits : List ℕ → List ℕ → Type 0
Fits [] [] = Unit {0}
Fits [] (v ∷ vs) = ⊥
Fits (w ∷ ws) [] = ⊥
Fits (w ∷ ws) (v ∷ vs) = (v < 256 ^ w) × Fits ws vs

pub unpack-pack : (ws vs rest : List ℕ) → Fits ws vs → unpack ws (pack ws vs ++ rest) ≡ vs
unfolding pack unpack
unpack-pack [] [] rest h = refl
unpack-pack [] (v ∷ vs) rest h = absurd h
unpack-pack (w ∷ ws) [] rest h = absurd h
unpack-pack (w ∷ ws) (v ∷ vs) rest (fits, h) =
    rw (append_assoc, take-le_bytes, drop-le_bytes, le_value-le_bytes w v fits)
      (ap (λ us. v ∷ us) (unpack-pack ws vs rest h))

abbrev pub total : List ℕ → ℕ
total [] = 0
total (w ∷ ws) = w + total ws

pub length-pack : (ws vs : List ℕ) → Fits ws vs → length (pack ws vs) ≡ total ws
unfolding pack
length-pack [] [] h = refl
length-pack [] (v ∷ vs) h = absurd h
length-pack (w ∷ ws) [] h = absurd h
length-pack (w ∷ ws) (v ∷ vs) (fits, h) =
    omega
      (arith, length-append (le_bytes w v) (pack ws vs), length-le_bytes w v, length-pack ws vs h)
