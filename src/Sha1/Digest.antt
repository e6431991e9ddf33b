-- ===== src/Sha1/Digest.antt =====
-- What `sha1_final` and `sha1_hash` (src/lib/sha1.c) compute: the padding of the standard, block by
-- block, for a message in any pieces.
use obmafs.Prelude.{
  ℕ, zero, suc, ◌+◌, ◌-◌, ◌*◌, ◌%◌, ◌≤◌, ◌≡◌, refl, ◌∙◌, sym, ap, subst, List, [], ◌∷◌, ◌++◌, ◌==◌,
  length, length-append, replicate, length-replicate, u64, arith, Bool-cases, inl, inr,
}
use mathlib.Core.List.{append_assoc, append-nil}
use obmafs.Sha1.{
  Sha1Ctx, initial, sha1_init, sha1_update, pad_loop, put_be32, put_be64, put_state, sha1_final,
  sha1_hash,
}
use obmafs.Sha1.Blocks.{
  joined, chain, AllBlocks, length-joined, joined-injective, joined_cons, joined_none,
}
use obmafs.Sha1.Update.{IsHashing, nil_of_length, sha1_update-IsHashing, sha1_init-IsHashing}

-- How many zero bytes bring a length to 56 above a multiple of 64.
abbrev pub gap : ℕ → ℕ
gap n = (120 - n % 64) % 64

-- The message with the byte 0x80, zeros, and its length in bits.
abbrev pub padded : List ℕ → List ℕ
padded m = ((m ++ (0x80 ∷ [])) ++ replicate (gap (length m + 1)) 0) ++ put_be64 (u64 (length m * 8))

-- The bytes are the SHA-1 digest of the message.
abbrev pub IsDigest : List ℕ → List ℕ → Type 0
IsDigest m out =
    (bs : List (List ℕ)) × AllBlocks bs
    × (joined bs ≡ padded m)
    × (out ≡ put_state (chain initial bs))

pad_loop-IsHashing :
    (rounds : ℕ) (ctx : Sha1Ctx) (m : List ℕ)
    → gap (length m) ≤ rounds
    → IsHashing ctx m
    → IsHashing (pad_loop rounds ctx) (m ++ replicate (gap (length m)) 0)
unfolding pad_loop
pad_loop-IsHashing zero ctx m few h =
    let done : gap (length m) ≡ 0 = omega arith in
    rw done (subst (IsHashing ctx) (sym (append-nil m)) h)
pad_loop-IsHashing (suc rounds) ctx m few h = elim (Bool-cases (ctx.count % 64 == 56)) [
  | inl full ↦
      let count = h.1 in
      let done : gap (length m) ≡ 0 = ground (arith, count) in
      rw (full, done, pad_loop) (subst (IsHashing ctx) (sym (append-nil m)) h)
  | inr more ↦
      let count = h.1 in
      let next = length-append m (0 ∷ []) in
      let longer : gap (length m) ≡ suc (gap (length (m ++ (0 ∷ [])))) =
        ground (arith, count, next) in
      let rest =
        pad_loop-IsHashing rounds (sha1_update ctx (0 ∷ [])) (m ++ (0 ∷ [])) (omega (arith, longer))
          (sha1_update-IsHashing ctx m (0 ∷ []) h) in
      rw (more, longer, pad_loop)
        (subst (IsHashing (pad_loop rounds (sha1_update ctx (0 ∷ []))))
          (append_assoc m (0 ∷ []) (replicate (gap (length (m ++ (0 ∷ [])))) 0)) rest)
]

length-put_be64 : (v : ℕ) → length (put_be64 v) ≡ 8
unfolding put_be64 put_be32
length-put_be64 v = refl

pub sha1_final-IsDigest :
    (ctx : Sha1Ctx) (m : List ℕ) → IsHashing ctx m → IsDigest m (sha1_final ctx)
unfolding sha1_final
sha1_final-IsDigest ctx m h =
    let m₁ = m ++ (0x80 ∷ []) in
    let h₁ = sha1_update-IsHashing ctx m (0x80 ∷ []) h in
    let len₁ : length m₁ ≡ length m + 1 = omega (arith, length-append m (0x80 ∷ [])) in
    let m₂ = m₁ ++ replicate (gap (length m₁)) 0 in
    let h₂ = pad_loop-IsHashing 64 (sha1_update ctx (0x80 ∷ [])) m₁ (omega arith) h₁ in
    let bits = u64 (ctx.count * 8) in
    let same_bits : bits ≡ u64 (length m * 8) = omega (arith, h.1) in
    let h₃ =
      sha1_update-IsHashing (pad_loop 64 (sha1_update ctx (0x80 ∷ []))) m₂ (put_be64 bits) h₂ in
    let held = h₃.0 in
    let b = held.blocks in
    let empty = nil_of_length held.rest (
      omega (
        arith,
        held.short,
        ap length held.parts,
        length-append (joined b) held.rest,
        length-joined b held.full,
        length-append m₂ (put_be64 bits),
        length-append m₁ (replicate (gap (length m₁)) 0),
        length-replicate {A = ℕ} (gap (length m₁)) 0,
        length-put_be64 bits,
      )) in
    let whole =
      ap (λ n. (m₁ ++ replicate (gap n) 0) ++ put_be64 bits) len₁
      ∙ ap (λ k. (m₁ ++ replicate (gap (length m + 1)) 0) ++ put_be64 k) same_bits in
    (
      b,
      held.full,
      sym (append-nil (joined b)) ∙ ap (λ r. joined b ++ r) (sym empty) ∙ held.parts ∙ whole,
      ap put_state held.state,
    )

IsDigest-unique : (m a b : List ℕ) → IsDigest m a → IsDigest m b → a ≡ b
IsDigest-unique m a b (xs, full_a, parts_a, out_a) (ys, full_b, parts_b, out_b) =
    out_a
    ∙ ap (λ bs. put_state (chain initial bs))
        (joined-injective xs ys full_a full_b (parts_a ∙ sym parts_b))
    ∙ sym out_b

-- `sha1_hash` gives the digest: the state after the blocks of 64 bytes of the message, the byte 0x80,
-- the least number of zeros that leaves room for 8 bytes in the last block, and the length in bits.
pub sha1_hash-IsDigest :
    (fresh : Sha1Ctx) (m : List ℕ) → length fresh.buffer ≡ 64 → IsDigest m (sha1_hash fresh m)
unfolding sha1_hash
sha1_hash-IsDigest fresh m room =
    sha1_final-IsDigest (sha1_update (sha1_init fresh) m) m
      (sha1_update-IsHashing (sha1_init fresh) [] m (sha1_init-IsHashing fresh room))

-- One call of `sha1_update` for each piece.
pub updates : Sha1Ctx → List (List ℕ) → Sha1Ctx
updates ctx [] = ctx
updates ctx (p ∷ ps) = updates (sha1_update ctx p) ps

updates-IsHashing :
    (ctx : Sha1Ctx) (m : List ℕ) (ps : List (List ℕ))
    → IsHashing ctx m
    → IsHashing (updates ctx ps) (m ++ joined ps)
unfolding updates
updates-IsHashing ctx m [] h =
    subst (IsHashing ctx) (sym (append-nil m) ∙ ap (λ r. m ++ r) (sym joined_none)) h
updates-IsHashing ctx m (p ∷ ps) h =
    subst (IsHashing (updates (sha1_update ctx p) ps))
      (append_assoc m p (joined ps) ∙ ap (λ r. m ++ r) (sym (joined_cons p ps)))
      (updates-IsHashing (sha1_update ctx p) (m ++ p) ps (sha1_update-IsHashing ctx m p h))

-- The digest does not depend on how the message is cut into pieces, nor on what the contexts held.
pub sha1_final-updates :
    (ctx fresh : Sha1Ctx) (ps : List (List ℕ))
    → length ctx.buffer ≡ 64
    → length fresh.buffer ≡ 64
    → sha1_final (updates (sha1_init ctx) ps) ≡ sha1_hash fresh (joined ps)
sha1_final-updates ctx fresh ps room room' =
    IsDigest-unique (joined ps) (sha1_final (updates (sha1_init ctx) ps))
      (sha1_hash fresh (joined ps))
      (sha1_final-IsDigest (updates (sha1_init ctx) ps) (joined ps)
        (updates-IsHashing (sha1_init ctx) [] ps (sha1_init-IsHashing ctx room)))
      (sha1_hash-IsDigest fresh (joined ps) room')
