-- ===== src/CdEcc/WriteCheck.antt =====
-- The codes that were written are the ones that the check expects (src/lib/ecc_cd.c).
pub mod Same
use obmafs.Prelude.{
  ℕ, zero, suc, ◌+◌, ◌-◌, ◌*◌, ◌<◌, ◌≤◌, ◌^◌, ◌≡◌, ◌⊎◌, refl, ◌∙◌, ap, sym, subst, Option, none,
  some, true, List, get_or, set, length, length-set, get_or-set_self, get_or-set_ne, bit_xor, arith,
  eq→==, ℕ_discrete, dec_lt, inl, inr, lt→ltb, le→ltb,
}
use obmafs.CdEcc.{
  Tables, Pass, size_of, address_of, byte_at, start_of, next_idx, lookup, minor_loop, final, code,
  ecc_check_loop, ecc_check, ecc_write_loop, ecc_write,
}

-- The bytes that a pass reads lie before the codes that it writes.
pub record IsApart (p : Pass) (sector : List ℕ) : Type 0 where
  pub starts : (major : ℕ) → major < p.major_count → start_of p major < size_of p
  pub inc : p.minor_inc ≤ size_of p
  pub small : size_of p + p.minor_inc < 2 ^ 32
  pub read : size_of p + p.data_offset ≤ p.ecc_offset + 4
  pub address : 4 + p.address_offset ≤ p.ecc_offset
  pub room : p.ecc_offset + 2 * p.major_count ≤ length sector

module _ (t : Tables) (p : Pass) {sector₀ : List ℕ} (h : IsApart p sector₀) where
  -- Two sectors that a pass cannot tell apart.
  pub Alike : List ℕ → List ℕ → Type 0
  Alike a b = (i : ℕ) → i < p.ecc_offset → get_or a i 0 ≡ get_or b i 0

  address_of-Alike :
      (a b : List ℕ) (idx : ℕ)
      → Alike a b
      → idx < 4
      → get_or (address_of p.address a) (idx + p.address_offset) 0
        ≡ get_or (address_of p.address b) (idx + p.address_offset) 0
  unfolding address_of Alike
  address_of-Alike a b idx same inside = at p.address
    where
      at :
          (o : Option (List ℕ))
          → get_or (address_of o a) (idx + p.address_offset) 0
            ≡ get_or (address_of o b) (idx + p.address_offset) 0
      at none = same (idx + p.address_offset) (ground (arith, h.address))
      at (some x) = refl

  byte_at-Alike :
      (a b : List ℕ) (idx : ℕ) → Alike a b → idx < size_of p → byte_at p a idx ≡ byte_at p b idx
  unfolding byte_at Alike
  byte_at-Alike a b idx same inside = elim (dec_lt idx 4) [
    | yes lt ↦ rw (lt→ltb idx 4 lt) (address_of-Alike a b idx same lt)
    | no ge ↦
        rw (le→ltb idx 4 (omega arith)) (same (idx + p.data_offset - 4) (ground (arith, h.read)))
  ]

  next_idx-lt : (idx : ℕ) → idx < size_of p → next_idx p idx < size_of p
  unfolding next_idx
  next_idx-lt idx inside = ground (arith, h.inc, h.small)

  minor_loop-Alike :
      (a b : List ℕ) (rounds idx x y : ℕ)
      → Alike a b
      → idx < size_of p
      → minor_loop t p a rounds idx x y ≡ minor_loop t p b rounds idx x y
  unfolding minor_loop
  minor_loop-Alike a b zero idx x y same inside = refl
  minor_loop-Alike a b (suc rounds) idx x y same inside =
      let e = byte_at-Alike a b idx same inside in
      rw e (
        minor_loop-Alike a b rounds (next_idx p idx) (lookup t.ecc_f (bit_xor x (byte_at p b idx)))
          (bit_xor y (byte_at p b idx)) same (next_idx-lt idx inside))

  pub code-Alike :
      (a b : List ℕ) (major : ℕ)
      → Alike a b
      → major < p.major_count
      → code t p a major ≡ code t p b major
  unfolding code
  code-Alike a b major same inside =
      ap (final t p)
        (minor_loop-Alike a b p.minor_count (start_of p major) 0 0 same (h.starts major inside))

  -- `ecc[major + ecc_offset] = ecc_a; ecc[major + major_count + ecc_offset] = ecc_a ^ ecc_b;`
  abbrev stored : List ℕ → (major : ℕ) → ℕ × ℕ → List ℕ
  stored s major ab =
      set (set s (major + p.ecc_offset) ab.0) (major + p.major_count + p.ecc_offset) ab.1

  -- The positions that the loop leaves alone from `major` on.
  Kept : (i major : ℕ) → Type 0
  Kept i major =
      (i < p.ecc_offset + major)
      ⊎ ((p.ecc_offset + p.major_count ≤ i) × (i < p.ecc_offset + p.major_count + major))

  ecc_write_loop-Kept :
      (s : List ℕ) (rounds major i : ℕ)
      → rounds + major ≤ p.major_count
      → Kept i major
      → get_or (ecc_write_loop t p rounds major s) i 0 ≡ get_or s i 0
  unfolding ecc_write_loop Kept
  ecc_write_loop-Kept s zero major i le kept = refl
  ecc_write_loop-Kept s (suc rounds) major i le kept =
      let ab = code t p s major in
      ecc_write_loop-Kept (stored s major ab) rounds (major + 1) i (omega arith) (ground arith)
      ∙ get_or-set_ne (set s (major + p.ecc_offset) ab.0) (major + p.major_count + p.ecc_offset) i
          ab.1 0 (ground arith)
      ∙ get_or-set_ne s (major + p.ecc_offset) i ab.0 0 (ground arith)

  -- The sector holds the codes of `major`.
  HasCodes : List ℕ → (s : List ℕ) (major : ℕ) → Type 0
  HasCodes r s major =
      (get_or r (major + p.ecc_offset) 0 ≡ (code t p s major).0)
      × (get_or r (major + p.major_count + p.ecc_offset) 0 ≡ (code t p s major).1)

  stored-HasCodes :
      (s : List ℕ) (major : ℕ)
      → length s ≡ length sector₀
      → major < p.major_count
      → HasCodes (stored s major (code t p s major)) s major
  unfolding HasCodes
  stored-HasCodes s major len lt =
      let ab = code t p s major in
      let inner = set s (major + p.ecc_offset) ab.0 in
      let len' = length-set s (major + p.ecc_offset) ab.0 in
      (
        get_or-set_ne inner (major + p.major_count + p.ecc_offset) (major + p.ecc_offset) ab.1 0
              (omega arith)
            ∙ get_or-set_self s (major + p.ecc_offset) ab.0 0 (omega (arith, h.room)),
        get_or-set_self inner (major + p.major_count + p.ecc_offset) ab.1 0
            (omega (arith, h.room, len')),
      )

  stored-Alike : (s : List ℕ) (major : ℕ) (ab : ℕ × ℕ) → Alike (stored s major ab) s
  unfolding Alike
  stored-Alike s major ab i lt =
      get_or-set_ne (set s (major + p.ecc_offset) ab.0) (major + p.major_count + p.ecc_offset) i
        ab.1 0 (omega arith)
      ∙ get_or-set_ne s (major + p.ecc_offset) i ab.0 0 (omega arith)

  pub ecc_write_loop-Alike :
      (s : List ℕ) (rounds major : ℕ)
      → rounds + major ≤ p.major_count
      → Alike (ecc_write_loop t p rounds major s) s
  unfolding Alike Kept
  ecc_write_loop-Alike s rounds major le i lt =
      ecc_write_loop-Kept s rounds major i le (inl (omega arith))

  ecc_write_loop-HasCodes :
      (s : List ℕ) (rounds major k : ℕ)
      → length s ≡ length sector₀
      → rounds + major ≤ p.major_count
      → major ≤ k
      → k < rounds + major
      → HasCodes (ecc_write_loop t p rounds major s) s k
  unfolding ecc_write_loop Kept HasCodes
  ecc_write_loop-HasCodes s zero major k len le from to = absurd (omega arith)
  ecc_write_loop-HasCodes s (suc rounds) major k len le from to =
      let ab = code t p s major in
      let s' = stored s major ab in
      let len' =
        length-set (set s (major + p.ecc_offset) ab.0) (major + p.major_count + p.ecc_offset) ab.1
        ∙ length-set s (major + p.ecc_offset) ab.0
        ∙ len in
      elim (ℕ_discrete major k) [
        | yes e ↦
            let now = stored-HasCodes s major len (omega arith) in
            let kept_a =
              ecc_write_loop-Kept s' rounds (major + 1) (major + p.ecc_offset) (omega arith)
                (inl (omega arith)) in
            let kept_b =
              ecc_write_loop-Kept s' rounds (major + 1) (major + p.major_count + p.ecc_offset)
                (omega arith) (inr (omega arith, omega arith)) in
            subst (λ k'. HasCodes (ecc_write_loop t p rounds (major + 1) s') s k') e
              (kept_a ∙ now.0, kept_b ∙ now.1)
        | no ne ↦
            let later =
              ecc_write_loop-HasCodes s' rounds (major + 1) k len' (omega arith) (omega arith)
                (omega arith) in
            let same = code-Alike s' s k (stored-Alike s major ab) (omega arith) in
            (later.0 ∙ ap (λ q. q.0) same, later.1 ∙ ap (λ q. q.1) same)
      ]

  ecc_check_loop-HasCodes :
      (r : List ℕ) (rounds major : ℕ)
      → ((k : ℕ) → major ≤ k → k < rounds + major → HasCodes r r k)
      → ecc_check_loop t p r rounds major ≡ true
  unfolding ecc_check_loop HasCodes
  ecc_check_loop-HasCodes r zero major has = refl
  ecc_check_loop-HasCodes r (suc rounds) major has =
      let now = has major (omega arith) (omega arith) in
      let ab = code t p r major in
      let rest =
        ecc_check_loop-HasCodes r rounds (major + 1)
          (λ k from to. has k (omega arith) (omega arith)) in
      rw
        (
          eq→== (get_or r (major + p.ecc_offset) 0) ab.0 now.0,
          eq→== (get_or r (major + p.major_count + p.ecc_offset) 0) ab.1 now.1,
          rest,
        )
        refl

-- A sector whose codes were written passes the check, where what the pass reads lies before the
-- codes, the codes are within the sector, and the 32-bit indices do not wrap.
pub ecc_check-ecc_write :
    (t : Tables) (p : Pass) (sector : List ℕ)
    → IsApart p sector
    → ecc_check t p (ecc_write t p sector) ≡ true
unfolding ecc_check ecc_write HasCodes
ecc_check-ecc_write t p sector h =
    let r = ecc_write t p sector in
    ecc_check_loop-HasCodes t p h r p.major_count 0 (λ k from to.
      let has =
        ecc_write_loop-HasCodes t p h sector p.major_count 0 k refl (omega arith) (omega arith)
          (omega arith) in
      let same = sym (
        code-Alike t p h r sector k
          (ecc_write_loop-Alike t p h sector p.major_count 0 (omega arith)) (omega arith)) in
      (has.0 ∙ ap (λ q. q.0) same, has.1 ∙ ap (λ q. q.1) same))
