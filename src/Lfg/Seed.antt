-- ===== src/Lfg/Seed.antt =====
-- What `ngc_lfg_get_seed` promises (src/lib/nintendo.c): padding that it recognises can be dropped,
-- since `ngc_lfg_set_seed` and `ngc_lfg_get_bytes` make it again.
use obmafs.Prelude.{
  ℕ, zero, suc, ◌+◌, ◌-◌, ◌*◌, ◌/◌, ◌%◌, ◌^◌, ◌≤◌, ◌<◌, ◌≡◌, refl, ◌∙◌, ap, sym, List, ◌++◌, not,
  ltb, ◌==◌, take, drop, length, length-append, length-take, length-drop, u64, arith, Bool-cases,
  inl, inr,
}
use obmafs.Lfg.{
  Lfg, lfg_k, lfg_bytes, lfg_forward, lfg_backward, times, set_seed, get_bytes, reinitialize,
  words_from, looks_shifted, count_matches, seed_of_words, get_seed,
}
use obmafs.Lfg.Stream.{
  emit, get_bytes-emit, emit_after_start, emit_none, emit_inside, count_matches-emit,
}
use obmafs.Lfg.Recovery.{length-lfg_backward, length-times, set_seed-reinitialize}

-- The first bytes, as many as were found, come out of the generator from `data_offset` on.
abbrev Reproduced : Lfg → (data_offset : ℕ) → List ℕ → ℕ × List ℕ → Type 0
Reproduced ctx data_offset bytes (count, seed) =
    (emit count (emit data_offset (set_seed ctx seed)).1).0 ≡ take count bytes

none_found :
    (ctx : Lfg) (data_offset : ℕ) (bytes seed : List ℕ) → Reproduced ctx data_offset bytes (0, seed)
none_found ctx data_offset bytes seed = emit_none (emit data_offset (set_seed ctx seed)).1

module _ (ctx : Lfg) (bytes : List ℕ) (data_offset : ℕ) (room : length ctx.buffer ≡ lfg_k) where
  -- The buffer before the last step back.
  abbrev placed : List ℕ → (offset : ℕ) → List ℕ
  placed words offset =
      times (offset / lfg_k) (λ b. lfg_backward 0 lfg_k b)
        (lfg_backward 0 (offset % lfg_k)
          (drop (lfg_k - offset % lfg_k) words ++ take (lfg_k - offset % lfg_k) words))

  length-placed :
      (words : List ℕ) (offset : ℕ) → length words ≡ lfg_k → length (placed words offset) ≡ lfg_k
  length-placed words offset len =
      let mod_k = offset % lfg_k in
      let first = lfg_k - mod_k in
      let filled = drop first words ++ take first words in
      length-times (offset / lfg_k) (λ b. lfg_backward 0 lfg_k b) (lfg_backward 0 mod_k filled)
        (λ b. length-lfg_backward 0 lfg_k b)
      ∙ length-lfg_backward 0 mod_k filled
      ∙ omega (
        arith,
        len,
        length-append (drop first words) (take first words),
        length-drop first words,
        length-take first words (omega (arith, len)),
      )

  seed_of_words-Reproduced :
      (words : List ℕ) (offset : ℕ)
      → length words ≡ lfg_k
      → offset / lfg_k ≡ data_offset / lfg_bytes
      → Reproduced ctx data_offset bytes (seed_of_words words offset data_offset bytes)
  unfolding seed_of_words
  seed_of_words-Reproduced words offset len cycles =
      let there = placed words offset in
      let found = reinitialize there in
      elim (Bool-cases found.0.0) [
        | inr refused ↦ rw refused (none_found ctx data_offset bytes found.1)
        | inl ok ↦
            let at : Lfg = record {
              buffer = times (offset / lfg_k) lfg_forward found.0.1;
              position_bytes = data_offset % lfg_bytes;
            } in
            let start = set_seed-reinitialize ctx there room (length-placed words offset len) ok in
            let after : (emit data_offset (set_seed ctx found.1)).1 ≡ at =
              ap (λ c. (emit data_offset c).1) start
              ∙ emit_after_start data_offset found.0.1
              ∙ ap
                  (λ n. record {
                    buffer = times n lfg_forward found.0.1;
                    position_bytes = data_offset % lfg_bytes;
                  })
                  (sym cycles) in
            rw ok (
              ap (λ c. (emit (count_matches bytes at) c).0) after
              ∙ sym (count_matches-emit bytes at))
      ]

length-words_from : (n i : ℕ) (xs : List ℕ) → length (words_from n i xs) ≡ n
unfolding words_from
length-words_from zero i xs = refl
length-words_from (suc n) i xs = ap suc (length-words_from n (i + 1) xs)

get_seed-Reproduced :
    (ctx : Lfg) (address : ℕ) (bytes : List ℕ) (data_offset : ℕ) (seed_in : List ℕ)
    → length ctx.buffer ≡ lfg_k
    → data_offset % lfg_bytes ≤ 2080
    → data_offset + 3 < 2 ^ 64
    → Reproduced ctx data_offset bytes (get_seed address bytes data_offset seed_in)
unfolding get_seed
get_seed-Reproduced ctx address bytes data_offset seed_in room aligned small =
    let skip = u64 (u64 (data_offset + 3) / 4 * 4 + (2 ^ 64 - data_offset)) in
    let below : u64 (data_offset + 3) ≡ data_offset + 3 = omega arith in
    let words = words_from lfg_k 0 (drop skip bytes) in
    let nothing = none_found ctx data_offset bytes seed_in in
    elim (Bool-cases (not (u64 (address + (2 ^ 64 - data_offset)) % 4 == 0))) [
      | inl e ↦ rw e nothing
      | inr e ↦ elim (Bool-cases (ltb (length bytes) skip)) [
        | inl f ↦ rw (e, f) nothing
        | inr f ↦ elim (Bool-cases (ltb ((length bytes - skip) / 4) lfg_k)) [
          | inl g ↦ rw (e, f, g) nothing
          | inr g ↦ elim (Bool-cases (looks_shifted words)) [
            | inr h ↦ rw (e, f, g, h) nothing
            | inl h ↦
                rw (e, f, g, h)
                  (seed_of_words-Reproduced ctx bytes data_offset room words
                    (u64 (data_offset + skip) / 4) (length-words_from lfg_k 0 (drop skip bytes))
                    (omega (arith, below)))
          ]
        ]
      ]
    ]

set_seed_start : (ctx : Lfg) (seed : List ℕ) → (set_seed ctx seed).position_bytes < lfg_bytes
unfolding set_seed
set_seed_start ctx seed = omega arith

-- The bytes that `ngc_lfg_get_seed` counts are the ones that `ngc_lfg_get_bytes` gives after
-- `ngc_lfg_set_seed` with the seed it found, once it gave `data_offset` bytes; the offset is at most
-- 2080 above a multiple of the 2084 bytes of the buffer, as every multiple of 4 is, and below
-- 2 ^ 64 by more than 3.
pub get_bytes-get_seed :
    (ctx : Lfg) (address : ℕ) (bytes : List ℕ) (data_offset : ℕ) (seed_in : List ℕ)
    → length ctx.buffer ≡ lfg_k
    → data_offset % lfg_bytes ≤ 2080
    → data_offset + 3 < 2 ^ 64
    → let found = get_seed address bytes data_offset seed_in in
      (get_bytes (get_bytes (set_seed ctx found.1) data_offset).1 found.0).0 ≡ take found.0 bytes
get_bytes-get_seed ctx address bytes data_offset seed_in room aligned small =
    let found = get_seed address bytes data_offset seed_in in
    let start = set_seed ctx found.1 in
    let inside = set_seed_start ctx found.1 in
    let skipped = get_bytes-emit start data_offset inside in
    ap (λ r. (get_bytes r.1 found.0).0) skipped
    ∙ ap (λ r. r.0)
        (get_bytes-emit (emit data_offset start).1 found.0 (emit_inside data_offset start inside))
    ∙ get_seed-Reproduced ctx address bytes data_offset seed_in room aligned small
