-- ===== src/Lfg/Recovery.antt =====
-- The seed that `ngc_lfg_get_seed` finds (src/lib/nintendo.c) makes the buffer that it found it from.
use obmafs.Prelude.{
  ℕ, zero, suc, ◌+◌, ◌-◌, ◌*◌, ◌^◌, ◌≤◌, ◌<◌, ◌≡◌, refl, ◌∙◌, ap, ap₂, sym, List, [], ◌∷◌, true,
  false, Bool, ◌==◌, get_or, set, take, map, length, length-set, get_or-set_self, get_or-set_ne,
  get_or_beyond, bit_and, bit_or, bit_xor, u32, min, max, arith, Bool-cases, inl, inr, dec_lt,
  ℕ_discrete,
}
use obmafs.Prelude.Bits.{bit_and-le, bit_and-le_mask, bit_or-lt}
use obmafs.Lfg.{
  Lfg, lfg_k, lfg_j, seed_size, swap32, partner, xor_at, down_loop, lfg_backward, times, calculated,
  shown, extend_loop, mixed, lfg_initialize, swap_loop, set_seed, restored, restore_loop, rewound,
  reinitialize,
}
use obmafs.Lfg.Swap.{swap32-swap32}

same_words :
    (xs ys : List ℕ)
    → length xs ≡ length ys
    → ((i : ℕ) → i < length xs → get_or xs i 0 ≡ get_or ys i 0)
    → xs ≡ ys
same_words [] [] len same = refl
same_words [] (y ∷ ys) len same = absurd (omega arith)
same_words (x ∷ xs) [] len same = absurd (omega arith)
same_words (x ∷ xs) (y ∷ ys) len same =
    ap₂ ◌∷◌ (same 0 (omega arith))
      (same_words xs ys (omega arith) (λ i lt. same (suc i) (omega arith)))

-- The loop that checks the words it finds leaves the buffer that the other loop makes from the words
-- before `i`.
extend_loop-same :
    (rounds i : ℕ) (a b : List ℕ)
    → seed_size ≤ i
    → i + rounds ≡ length a
    → length a ≡ length b
    → ((k : ℕ) → k < i → get_or a k 0 ≡ get_or b k 0)
    → (extend_loop true rounds i a).0 ≡ true
    → (extend_loop true rounds i a).1 ≡ (extend_loop false rounds i b).1
unfolding extend_loop calculated
extend_loop-same zero i a b big end len same whole =
    same_words a b len (λ k lt. same k (omega arith))
extend_loop-same (suc rounds) i a b big end len same whole =
    let c = calculated a i in
    let d = calculated b i in
    let equal : c ≡ d =
      rw (same (i - 17) (omega arith), same (i - 16) (omega arith), same (i - 1) (omega arith))
        refl in
    let a' = set a i c in
    let b' = set b i d in
    let len_a = length-set a i c in
    let len_b = length-set b i d in
    elim (Bool-cases (bit_and c 0xFFFCFFFF == shown (get_or a i 0))) [
      | inr bad ↦ let no_way : false ≡ true = rw (bad, extend_loop) at whole in absurd (cc)
      | inl good ↦
          rw (good, extend_loop)
            (extend_loop-same rounds (i + 1) a' b' (omega arith) (omega (arith, len_a))
              (omega (arith, len_a, len_b))
              (λ k lt. elim (ℕ_discrete k i) [
                | yes this ↦ rw this (
                    get_or-set_self a i c 0 (omega arith)
                    ∙ equal
                    ∙ sym (get_or-set_self b i d 0 (omega arith)))
                | no other ↦
                    get_or-set_ne a i k c 0 (λ e. other (sym e))
                    ∙ same k (omega arith)
                    ∙ sym (get_or-set_ne b i k d 0 (λ e. other (sym e)))
              ])
              (rw (good, extend_loop) at whole))
    ]

-- Words below 2 ^ 32 up to `n`.
abbrev Small : ℕ → List ℕ → Type 0
Small n buf = (k : ℕ) → k < n → get_or buf k 0 < 2 ^ 32

restored-lt : (buf : List ℕ) (i : ℕ) → restored buf i < 2 ^ 32
unfolding restored
restored-lt buf i =
    let x = get_or buf i 0 in
    let a = bit_and x 0xFF00FFFF in
    let b = bit_and (u32 (x * 2 ^ 2)) 0x00FC0000 in
    let y = u32 (bit_xor (get_or buf (i + 16) 0) (get_or buf (i + 15) 0) * 2 ^ 9) in
    bit_or-lt 32 (bit_or a b) (bit_and y 0x00030000)
      (bit_or-lt 32 a b (omega (arith, bit_and-le_mask x 0xFF00FFFF))
        (omega (arith, bit_and-le (u32 (x * 2 ^ 2)) 0x00FC0000)))
      (omega (arith, bit_and-le y 0x00030000))

restore_loop-Small :
    (rounds i : ℕ) (buf : List ℕ) → Small i buf → Small (i + rounds) (restore_loop rounds i buf)
unfolding restore_loop
restore_loop-Small zero i buf small k lt = small k (omega arith)
restore_loop-Small (suc rounds) i buf small k lt =
    let v = restored buf i in
    restore_loop-Small rounds (i + 1) (set buf i v)
      (λ j below. elim (ℕ_discrete i j) [
        | yes this ↦ elim (dec_lt i (length buf)) [
          | yes inside ↦ omega (
            arith,
            restored-lt buf i,
            ap (λ n. get_or (set buf i v) n 0) this,
            get_or-set_self buf i v 0 inside,
          )
          | no beyond ↦ omega (
            arith,
            length-set buf i v,
            get_or_beyond (set buf i v) j 0 (omega (arith, length-set buf i v)),
          )
        ]
        | no other ↦ omega (arith, get_or-set_ne buf i j v 0 other, small j (omega arith))
      ])
      k (omega arith)

length-restore_loop :
    (rounds i : ℕ) (buf : List ℕ) → length (restore_loop rounds i buf) ≡ length buf
unfolding restore_loop
length-restore_loop zero i buf = refl
length-restore_loop (suc rounds) i buf =
    length-restore_loop rounds (i + 1) (set buf i (restored buf i))
    ∙ length-set buf i (restored buf i)

length-swap_loop :
    (rounds i : ℕ) (from to : List ℕ) → length (swap_loop rounds i from to) ≡ length to
unfolding swap_loop
length-swap_loop zero i from to = refl
length-swap_loop (suc rounds) i from to =
    length-swap_loop rounds (i + 1) from (set to i (swap32 (get_or from i 0)))
    ∙ length-set to i (swap32 (get_or from i 0))

swap_loop_kept :
    (rounds i k : ℕ) (from to : List ℕ)
    → k < i
    → get_or (swap_loop rounds i from to) k 0 ≡ get_or to k 0
unfolding swap_loop
swap_loop_kept zero i k from to lt = refl
swap_loop_kept (suc rounds) i k from to lt =
    let v = swap32 (get_or from i 0) in
    swap_loop_kept rounds (i + 1) k from (set to i v) (omega arith)
    ∙ get_or-set_ne to i k v 0 (λ e. omega arith)

swap_loop_word :
    (rounds i k : ℕ) (from to : List ℕ)
    → i ≤ k
    → k < i + rounds
    → k < length to
    → get_or (swap_loop rounds i from to) k 0 ≡ swap32 (get_or from k 0)
unfolding swap_loop
swap_loop_word zero i k from to low high room = absurd (omega arith)
swap_loop_word (suc rounds) i k from to low high room =
    let v = swap32 (get_or from i 0) in
    elim (ℕ_discrete i k) [
      | yes this ↦
          swap_loop_kept rounds (i + 1) k from (set to i v) (omega arith)
          ∙ ap (λ n. get_or (set to i v) n 0) (sym this)
          ∙ get_or-set_self to i v 0 (omega arith)
          ∙ ap (λ n. swap32 (get_or from n 0)) this
      | no other ↦
          swap_loop_word rounds (i + 1) k from (set to i v) (omega arith) (omega arith)
            (omega (arith, length-set to i v))
    ]

get_or-map-take :
    (f : ℕ → ℕ) (n k : ℕ) (xs : List ℕ)
    → k < n
    → k < length xs
    → get_or (map f (take n xs)) k 0 ≡ f (get_or xs k 0)
get_or-map-take f zero k xs lt room = absurd (omega arith)
get_or-map-take f (suc n) k [] lt room = absurd (omega arith)
get_or-map-take f (suc n) zero (x ∷ xs) lt room = refl
get_or-map-take f (suc n) (suc k) (x ∷ xs) lt room =
    get_or-map-take f n k xs (omega arith) (omega arith)

length-map : (f : ℕ → ℕ) (xs : List ℕ) → length (map f xs) ≡ length xs
length-map f [] = refl
length-map f (x ∷ xs) = ap suc (length-map f xs)

length-down_loop : (rounds i : ℕ) (buf : List ℕ) → length (down_loop rounds i buf) ≡ length buf
unfolding down_loop xor_at
length-down_loop zero i buf = refl
length-down_loop (suc rounds) i buf =
    length-down_loop rounds (i - 1) (xor_at (i - 1) (partner (i - 1)) buf)
    ∙ length-set buf (i - 1) (bit_xor (get_or buf (i - 1) 0) (get_or buf (partner (i - 1)) 0))

pub length-lfg_backward :
    (start end : ℕ) (buf : List ℕ) → length (lfg_backward start end buf) ≡ length buf
unfolding lfg_backward
length-lfg_backward start end buf =
    let upper = min end lfg_k in
    let upper2 = min end lfg_j in
    let high = down_loop (upper - max lfg_j start) upper buf in
    length-down_loop (upper2 - start) upper2 high
    ∙ length-down_loop (upper - max lfg_j start) upper buf

pub length-times :
    (n : ℕ) (f : List ℕ → List ℕ) (buf : List ℕ)
    → ((b : List ℕ) → length (f b) ≡ length b)
    → length (times n f buf) ≡ length buf
unfolding times
length-times zero f buf same = refl
length-times (suc n) f buf same = length-times n f (f buf) same ∙ same buf

length-rewound : (buf : List ℕ) → length (rewound buf) ≡ length buf
unfolding rewound
length-rewound buf =
    let back = times 4 (λ b. lfg_backward 0 lfg_k b) buf in
    length-restore_loop seed_size 0 (map swap32 back)
    ∙ length-map swap32 back
    ∙ length-times 4 (λ b. lfg_backward 0 lfg_k b) buf (λ b. length-lfg_backward 0 lfg_k b)

extend_loop_unchecked : (rounds i : ℕ) (buf : List ℕ) → (extend_loop false rounds i buf).0 ≡ true
unfolding extend_loop
extend_loop_unchecked zero i buf = refl
extend_loop_unchecked (suc rounds) i buf =
    extend_loop_unchecked rounds (i + 1) (set buf i (calculated buf i))

initialize_whole :
    (check : Bool) (buf : List ℕ)
    → (lfg_initialize check buf).0 ≡ true
    → (extend_loop check (lfg_k - seed_size) seed_size buf).0 ≡ true
unfolding lfg_initialize
initialize_whole check buf h =
    elim (Bool-cases ((extend_loop check (lfg_k - seed_size) seed_size buf).0)) [
      | inl whole ↦ whole
      | inr broken ↦ let no_way : false ≡ true = rw broken at h in absurd (cc)
    ]

initialize_mixed :
    (check : Bool) (buf : List ℕ)
    → (extend_loop check (lfg_k - seed_size) seed_size buf).0 ≡ true
    → (lfg_initialize check buf).1 ≡ mixed (extend_loop check (lfg_k - seed_size) seed_size buf).1
unfolding lfg_initialize
initialize_mixed check buf whole = rw whole refl

Small-rewound : (buf : List ℕ) → Small seed_size (rewound buf)
unfolding rewound
Small-rewound buf =
    restore_loop-Small seed_size 0 (map swap32 (times 4 (λ b. lfg_backward 0 lfg_k b) buf))
      (λ k lt. absurd (omega arith))

-- Where `lfg_reinitialize` succeeds, its seed makes the buffer that it leaves.
pub set_seed-reinitialize :
    (ctx : Lfg) (buf : List ℕ)
    → length ctx.buffer ≡ lfg_k
    → length buf ≡ lfg_k
    → (reinitialize buf).0.0 ≡ true
    → set_seed ctx (reinitialize buf).1
      ≡ record { buffer = (reinitialize buf).0.1; position_bytes = 0 }
unfolding set_seed reinitialize
set_seed-reinitialize ctx buf room len ok =
    let b = rewound buf in
    let seed = map swap32 (take seed_size b) in
    let a = swap_loop seed_size 0 seed ctx.buffer in
    let len_b = length-rewound buf in
    let len_a = length-swap_loop seed_size 0 seed ctx.buffer in
    let whole = initialize_whole true b ok in
    let small = Small-rewound buf in
    let equal =
      extend_loop-same (lfg_k - seed_size) seed_size b a (omega arith) (omega (arith, len_b, len))
        (omega (arith, len_a, len_b, len, room))
        (λ k lt. sym (
          swap_loop_word seed_size 0 k seed ctx.buffer (omega arith) (omega arith) (omega arith)
          ∙ ap swap32 (get_or-map-take swap32 seed_size k b lt (omega (arith, len_b, len)))
          ∙ swap32-swap32 (get_or b k 0) (small k lt)))
        whole in
    ap (λ c. record { buffer = c; position_bytes = 0 })
      (initialize_mixed false a (extend_loop_unchecked (lfg_k - seed_size) seed_size a)
        ∙ ap mixed (sym equal)
        ∙ sym (initialize_mixed true b whole))
