-- ===== src/Lfg/Inverse.antt =====
-- Running the generator back undoes running it forward (src/lib/nintendo.c).
use obmafs.Prelude.{
  ℕ, zero, suc, ◌+◌, ◌-◌, ◌≡◌, ◌≢◌, refl, ◌∙◌, ap, List, [], ◌∷◌, get_or, set, length, bit_xor,
  get_or-set_self, get_or-set_ne, arith, dec_lt, set_beyond,
}
use obmafs.Prelude.Fields.{xor_twice}
use obmafs.Lfg.{lfg_k, xor_at, partner, up_loop, down_loop, lfg_forward, lfg_backward, times}

set-set : (xs : List ℕ) (i v w : ℕ) → set (set xs i v) i w ≡ set xs i w
set-set [] i v w = refl
set-set (x ∷ xs) zero v w = refl
set-set (x ∷ xs) (suc i) v w = ap (λ ys. x ∷ ys) (set-set xs i v w)

set_same : (xs : List ℕ) (i v : ℕ) → v ≡ get_or xs i 0 → set xs i v ≡ xs
set_same [] i v e = refl
set_same (x ∷ xs) zero v e = ap (λ y. y ∷ xs) e
set_same (x ∷ xs) (suc i) v e = ap (λ ys. x ∷ ys) (set_same xs i v e)

xor_at-xor_at : (i j : ℕ) (buf : List ℕ) → i ≢ j → xor_at i j (xor_at i j buf) ≡ buf
unfolding xor_at
xor_at-xor_at i j buf ne =
    let a = get_or buf i 0 in
    let b = get_or buf j 0 in
    let once = set buf i (bit_xor a b) in
    elim (dec_lt i (length buf)) [
      | yes inside ↦
          rw
            (get_or-set_self buf i (bit_xor a b) 0 inside, get_or-set_ne buf i j (bit_xor a b) 0 ne)
            (set-set buf i (bit_xor a b) (bit_xor (bit_xor a b) b)
              ∙ set_same buf i (bit_xor (bit_xor a b) b) (xor_twice a b))
      | no beyond ↦ let out = set_beyond buf i (bit_xor a b) (omega arith) in rw (out, out) refl
    ]

partner-ne : (i : ℕ) → i ≢ partner i
unfolding partner
partner-ne i = ground arith

-- The last step of the loop.
up_loop_last :
    (rounds i : ℕ) (buf : List ℕ)
    → up_loop (suc rounds) i buf ≡ xor_at (i + rounds) (partner (i + rounds)) (up_loop rounds i buf)
unfolding up_loop
up_loop_last zero i buf = let e : i + 0 ≡ i = omega arith in rw e refl
up_loop_last (suc rounds) i buf =
    let e : i + 1 + rounds ≡ i + suc rounds = omega arith in
    up_loop_last rounds (i + 1) (xor_at i (partner i) buf)
    ∙ ap (λ k. xor_at k (partner k) (up_loop rounds (i + 1) (xor_at i (partner i) buf))) e

down_loop-up_loop :
    (rounds i : ℕ) (buf : List ℕ) → down_loop rounds (i + rounds) (up_loop rounds i buf) ≡ buf
unfolding down_loop up_loop
down_loop-up_loop zero i buf = refl
down_loop-up_loop (suc rounds) i buf =
    let k = i + rounds in
    let e : i + suc rounds - 1 ≡ k = omega arith in
    let u = up_loop rounds i buf in
    rw e (
      ap (λ b. down_loop rounds k (xor_at k (partner k) b)) (up_loop_last rounds i buf)
      ∙ ap (down_loop rounds k) (xor_at-xor_at k (partner k) u (partner-ne k))
      ∙ down_loop-up_loop rounds i buf)

-- `lfg_backward` over the whole buffer undoes `lfg_forward`.
pub lfg_backward-lfg_forward : (buf : List ℕ) → lfg_backward 0 lfg_k (lfg_forward buf) ≡ buf
unfolding lfg_backward lfg_forward
lfg_backward-lfg_forward buf =
    ap (down_loop 32 32) (down_loop-up_loop 489 32 (up_loop 32 0 buf)) ∙ down_loop-up_loop 32 0 buf

times_last : (n : ℕ) (f : List ℕ → List ℕ) (buf : List ℕ) → times n f (f buf) ≡ f (times n f buf)
unfolding times
times_last zero f buf = refl
times_last (suc n) f buf = times_last n f (f buf)

-- `lfg_backward` over the whole buffer, as many times as `lfg_forward` was run, gives the buffer
-- back.
pub times-lfg_backward-times-lfg_forward :
    (n : ℕ) (buf : List ℕ) → times n (λ b. lfg_backward 0 lfg_k b) (times n lfg_forward buf) ≡ buf
unfolding times
times-lfg_backward-times-lfg_forward zero buf = refl
times-lfg_backward-times-lfg_forward (suc n) buf =
    ap (λ b. times n (λ c. lfg_backward 0 lfg_k c) (lfg_backward 0 lfg_k b))
      (times_last n lfg_forward buf)
    ∙ ap (times n (λ c. lfg_backward 0 lfg_k c))
        (lfg_backward-lfg_forward (times n lfg_forward buf))
    ∙ times-lfg_backward-times-lfg_forward n buf
