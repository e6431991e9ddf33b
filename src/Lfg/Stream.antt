-- ===== src/Lfg/Stream.antt =====
-- The bytes that the generator gives, one after the other (src/lib/nintendo.c).
use obmafs.Prelude.{
  ℕ, zero, suc, ◌+◌, ◌-◌, ◌/◌, ◌%◌, ◌≤◌, ◌<◌, ◌≡◌, refl, ◌∙◌, ap, ap₂, sym, List, [], ◌∷◌, ◌++◌,
  true, ltb, ◌==◌, take, min, arith, Bool-cases, inl, inr, ℕ_discrete, eq→==, ne→==, ==_iff, lt→ltb,
}
use obmafs.Lfg.{
  Lfg, lfg_bytes, byte_of, bytes_from, moved, get_loop, get_bytes, lfg_forward, times,
  count_matches,
}

-- The stream, a byte at a time.
pub emit : ℕ → Lfg → List ℕ × Lfg
emit zero ctx = ([], ctx)
emit (suc n) ctx =
    let (bs, ctx') = emit n (moved ctx.buffer (ctx.position_bytes + 1)) in
    (byte_of ctx.buffer ctx.position_bytes ∷ bs, ctx')

pub moved-lt :
    (buf : List ℕ) (pos : ℕ) → pos ≤ lfg_bytes → (moved buf pos).position_bytes < lfg_bytes
unfolding moved
moved-lt buf pos h = ground arith

moved_inside :
    (buf : List ℕ) (pos : ℕ)
    → pos < lfg_bytes
    → moved buf pos ≡ record { buffer = buf; position_bytes = pos }
unfolding moved
moved_inside buf pos h = rw (ne→== pos lfg_bytes (λ e. omega arith)) refl

moved_end :
    (buf : List ℕ) (pos : ℕ)
    → pos ≡ lfg_bytes
    → moved buf pos ≡ record { buffer = lfg_forward buf; position_bytes = 0 }
unfolding moved
moved_end buf pos h = rw (eq→== pos lfg_bytes h) refl

-- The bytes up to the end of the buffer are a chunk of it.
emit_chunk :
    (k rest : ℕ) (buf : List ℕ) (pos : ℕ)
    → pos + suc k ≤ lfg_bytes
    → let after : List ℕ × Lfg = emit rest (moved buf (pos + suc k)) in
      emit (suc k + rest) (record { buffer = buf; position_bytes = pos })
      ≡ (bytes_from (suc k) pos buf ++ after.0, after.1)
unfolding emit bytes_from
emit_chunk zero rest buf pos fits = let e : 1 + rest ≡ suc rest = omega arith in rw e refl
emit_chunk (suc k) rest buf pos fits =
    let e : suc (suc k) + rest ≡ suc (suc k + rest) = omega arith in
    let next : pos + 1 + suc k ≡ pos + suc (suc k) = omega arith in
    rw e (
      rw (moved_inside buf (pos + 1) (omega arith), sym next)
        (ap (λ r. (byte_of buf pos ∷ r.0, r.1)) (emit_chunk k rest buf (pos + 1) (omega arith))))

-- A round with the chunk `c`.
abbrev taken : Lfg → (rounds count c : ℕ) → List ℕ × Lfg
taken ctx rounds count c =
    let r = get_loop rounds (count - c) (moved ctx.buffer (ctx.position_bytes + c)) in
    (bytes_from c ctx.position_bytes ctx.buffer ++ r.0, r.1)

get_loop-emit :
    (rounds count : ℕ) (ctx : Lfg)
    → count ≤ rounds
    → ctx.position_bytes < lfg_bytes
    → get_loop rounds count ctx ≡ emit count ctx
unfolding get_loop emit
get_loop-emit zero count ctx few inside = let e : count ≡ 0 = omega arith in rw e refl
get_loop-emit (suc rounds) zero ctx few inside = refl
get_loop-emit (suc rounds) (suc n) ctx few inside =
    let pos = ctx.position_bytes in
    let chunk = min (suc n) (lfg_bytes - pos) in
    let k = chunk - 1 in
    let whole : chunk ≡ suc k = omega arith in
    let count : suc n ≡ suc k + (suc n - suc k) = omega arith in
    let ctx' = moved ctx.buffer (pos + suc k) in
    let rest =
      get_loop-emit rounds (suc n - suc k) ctx' (omega arith)
        (moved-lt ctx.buffer (pos + suc k) (omega arith)) in
    let more : ltb 0 (suc n) ≡ true = lt→ltb 0 (suc n) (omega arith) in
    rw (more, get_loop)
      (ap (λ c. taken ctx rounds (suc n) c) whole
        ∙ ap (λ r. (bytes_from (suc k) pos ctx.buffer ++ r.0, r.1)) rest
        ∙ sym (emit_chunk k (suc n - suc k) ctx.buffer pos (omega arith))
        ∙ ap (λ c. emit c ctx) (sym count))

-- `ngc_lfg_get_bytes` gives the next bytes of the stream, whatever the number.
pub get_bytes-emit :
    (ctx : Lfg) (count : ℕ) → ctx.position_bytes < lfg_bytes → get_bytes ctx count ≡ emit count ctx
unfolding get_bytes
get_bytes-emit ctx count inside = get_loop-emit count count ctx (omega arith) inside

-- Where the generator is after bytes.
emit_after :
    (n : ℕ) (buf : List ℕ) (pos : ℕ)
    → pos < lfg_bytes
    → (emit n (record { buffer = buf; position_bytes = pos })).1 ≡ record {
      buffer = times ((pos + n) / lfg_bytes) lfg_forward buf;
      position_bytes = (pos + n) % lfg_bytes;
    }
unfolding emit times
emit_after zero buf pos inside =
    let q : (pos + 0) / lfg_bytes ≡ 0 = omega arith in
    let r : (pos + 0) % lfg_bytes ≡ pos = omega arith in rw (q, r) refl
emit_after (suc n) buf pos inside = elim (ℕ_discrete (pos + 1) lfg_bytes) [
  | yes last ↦
      let q : (pos + suc n) / lfg_bytes ≡ suc ((0 + n) / lfg_bytes) = omega arith in
      let r : (pos + suc n) % lfg_bytes ≡ (0 + n) % lfg_bytes = omega arith in
      rw (q, r, moved_end buf (pos + 1) last) (emit_after n (lfg_forward buf) 0 (omega arith))
  | no more ↦
      let e : pos + suc n ≡ pos + 1 + n = omega arith in
      rw (e, moved_inside buf (pos + 1) (omega arith)) (emit_after n buf (pos + 1) (omega arith))
]

pub emit_after_start :
    (n : ℕ) (buf : List ℕ)
    → (emit n (record { buffer = buf; position_bytes = 0 })).1
      ≡ record { buffer = times (n / lfg_bytes) lfg_forward buf; position_bytes = n % lfg_bytes }
emit_after_start n buf =
    let e : 0 + n ≡ n = omega arith in
    emit_after n buf 0 (omega arith)
    ∙ ap
        (λ k. record {
          buffer = times (k / lfg_bytes) lfg_forward buf;
          position_bytes = k % lfg_bytes;
        })
        e

pub emit_inside :
    (n : ℕ) (ctx : Lfg) → ctx.position_bytes < lfg_bytes → (emit n ctx).1.position_bytes < lfg_bytes
unfolding emit
emit_inside zero ctx inside = inside
emit_inside (suc n) ctx inside =
    emit_inside n (moved ctx.buffer (ctx.position_bytes + 1))
      (moved-lt ctx.buffer (ctx.position_bytes + 1) (omega arith))

pub emit_none : (ctx : Lfg) → (emit 0 ctx).0 ≡ []
unfolding emit
emit_none ctx = refl

-- The bytes that match are bytes of the stream.
pub count_matches-emit :
    (xs : List ℕ) (ctx : Lfg) → take (count_matches xs ctx) xs ≡ (emit (count_matches xs ctx) ctx).0
unfolding count_matches emit
count_matches-emit [] ctx = refl
count_matches-emit (x ∷ xs) ctx = elim (Bool-cases (x == byte_of ctx.buffer ctx.position_bytes)) [
  | inr other ↦ rw (other, count_matches) refl
  | inl same ↦
      rw (same, count_matches)
        (ap₂ (λ y ys. y ∷ ys) ((==_iff x (byte_of ctx.buffer ctx.position_bytes)).0 same)
          (count_matches-emit xs (moved ctx.buffer (ctx.position_bytes + 1))))
]
