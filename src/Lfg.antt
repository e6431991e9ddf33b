-- ===== src/Lfg.antt =====
-- The generator of the padding of GameCube and Wii discs, a lagged Fibonacci generator of 521 words
-- with the lag 32 (src/lib/nintendo.c), and the recovery of its seed from the padding.
pub mod Inverse
pub mod Recovery
pub mod Seed
pub mod Stream
pub mod Swap
use obmafs.Prelude.{
  ℕ, zero, suc, ◌+◌, ◌-◌, ◌*◌, ◌/◌, ◌%◌, ◌^◌, Bool, true, false, List, [], ◌∷◌, ◌++◌, bit_and,
  bit_or, bit_xor, ltb, ◌==◌, not, if◌then◌else◌, get_or, set, take, drop, length, map, min, max,
  u32, u64,
}

-- NGC_LFG_K, NGC_LFG_J and NGC_LFG_SEED_SIZE, and the bytes of the buffer.
abbrev pub lfg_k : ℕ
lfg_k = 521

abbrev pub lfg_j : ℕ
lfg_j = 32

abbrev pub seed_size : ℕ
seed_size = 17

abbrev pub lfg_bytes : ℕ
lfg_bytes = 2084

pub record Lfg : Type 0 where
  pub buffer : List ℕ
  pub position_bytes : ℕ

pub swap32 : ℕ → ℕ
swap32 x =
    bit_or
      (bit_or (bit_or (bit_and (x / 2 ^ 24) 0xFF) (bit_and (x / 2 ^ 8) 0xFF00))
        (bit_and (u32 (x * 2 ^ 8)) 0xFF0000))
      (bit_and (u32 (x * 2 ^ 24)) 0xFF000000)

-- `buffer[i] ^= buffer[j]`
pub xor_at : (i j : ℕ) → List ℕ → List ℕ
xor_at i j buf = set buf i (bit_xor (get_or buf i 0) (get_or buf j 0))

-- Where the word that is added to word `i` is.
pub partner : ℕ → ℕ
partner i = if ltb i lfg_j then i + lfg_k - lfg_j else i - lfg_j

-- A loop from `i` up, and one from `i` down, over `rounds` words.
pub up_loop : (rounds i : ℕ) → List ℕ → List ℕ
up_loop zero i buf = buf
up_loop (suc rounds) i buf = up_loop rounds (i + 1) (xor_at i (partner i) buf)

pub down_loop : (rounds i : ℕ) → List ℕ → List ℕ
down_loop zero i buf = buf
down_loop (suc rounds) i buf = down_loop rounds (i - 1) (xor_at (i - 1) (partner (i - 1)) buf)

pub lfg_forward : List ℕ → List ℕ
lfg_forward buf = up_loop (lfg_k - lfg_j) lfg_j (up_loop lfg_j 0 buf)

pub lfg_backward : (start_word end_word : ℕ) → List ℕ → List ℕ
lfg_backward start_word end_word buf =
    let loop_end = max lfg_j start_word in
    let upper = min end_word lfg_k in
    let upper2 = min end_word lfg_j in
    down_loop (upper2 - start_word) upper2 (down_loop (upper - loop_end) upper buf)

pub times : ℕ → (List ℕ → List ℕ) → List ℕ → List ℕ
times zero f buf = buf
times (suc n) f buf = times n f (f buf)

pub calculated : List ℕ → ℕ → ℕ
calculated buf i =
    bit_xor (bit_xor (u32 (get_or buf (i - 17) 0 * 2 ^ 23)) (get_or buf (i - 16) 0 / 2 ^ 9))
      (get_or buf (i - 1) 0)

-- `actual`
pub shown : ℕ → ℕ
shown x = bit_or (bit_and x 0xFF00FFFF) (bit_and (u32 (x * 2 ^ 2)) 0x00FC0000)

-- The first loop of `lfg_initialize`: whether it ends, and the buffer.
pub extend_loop : (check_existing : Bool) → (rounds i : ℕ) → List ℕ → Bool × List ℕ
extend_loop check_existing zero i buf = (true, buf)
extend_loop check_existing (suc rounds) i buf =
    let c = calculated buf i in
    elim (if check_existing then bit_and c 0xFFFCFFFF == shown (get_or buf i 0) else true) [
      | false ↦ (false, buf)
      | true ↦ extend_loop check_existing rounds (i + 1) (set buf i c)
    ]

-- A word after the shift by 18 in place of 16, its bytes swapped.
pub quirk : ℕ → ℕ
quirk x = swap32 (bit_or (bit_and x 0xFF00FFFF) (bit_and (x / 2 ^ 2) 0x00FF0000))

-- What `lfg_initialize` does once all words are there.
pub mixed : List ℕ → List ℕ
mixed buf = times 4 lfg_forward (map quirk buf)

pub lfg_initialize : (check_existing : Bool) → List ℕ → Bool × List ℕ
lfg_initialize check_existing buf =
    let (whole, buf') = extend_loop check_existing (lfg_k - seed_size) seed_size buf in
    if whole then (true, mixed buf') else (false, buf')

-- `for(i = 0; i < n; i++) to[i] = swap32(from[i])`, from `i` on.
pub swap_loop : (rounds i : ℕ) → (from to : List ℕ) → List ℕ
swap_loop zero i from to = to
swap_loop (suc rounds) i from to =
    swap_loop rounds (i + 1) from (set to i (swap32 (get_or from i 0)))

-- `ngc_lfg_set_seed`
pub set_seed : Lfg → List ℕ → Lfg
set_seed ctx seed = record {
  buffer = (lfg_initialize false (swap_loop seed_size 0 seed ctx.buffer)).1;
  position_bytes = 0;
}

-- Byte `n` of the buffer in memory, the low byte of a word first.
pub byte_of : List ℕ → ℕ → ℕ
byte_of buf n = get_or buf (n / 4) 0 / 2 ^ (8 * (n % 4)) % 256

pub bytes_from : (n at : ℕ) → List ℕ → List ℕ
bytes_from zero at buf = []
bytes_from (suc n) at buf = byte_of buf at ∷ bytes_from n (at + 1) buf

-- The position was moved; at the end of the buffer the next words are made.
pub moved : List ℕ → ℕ → Lfg
moved buf pos =
    if pos == lfg_bytes
    then record { buffer = lfg_forward buf; position_bytes = 0 }
    else record { buffer = buf; position_bytes = pos }

-- `ngc_lfg_get_bytes`. A round takes a byte at least, so that `count` rounds are enough.
pub get_loop : (rounds count : ℕ) → Lfg → List ℕ × Lfg
get_loop zero count ctx = ([], ctx)
get_loop (suc rounds) count ctx =
    let chunk = min count (lfg_bytes - ctx.position_bytes) in
    elim (ltb 0 count) [
      | false ↦ ([], ctx)
      | true ↦
          let (rest, ctx') =
            get_loop rounds (count - chunk) (moved ctx.buffer (ctx.position_bytes + chunk)) in
          (bytes_from chunk ctx.position_bytes ctx.buffer ++ rest, ctx')
    ]

pub get_bytes : Lfg → (count : ℕ) → List ℕ × Lfg
get_bytes ctx count = get_loop count count ctx

-- `buffer[i]` with the bits that the shift lost, for the words of the seed.
pub restored : List ℕ → ℕ → ℕ
restored buf i =
    let x = get_or buf i 0 in
    bit_or (bit_or (bit_and x 0xFF00FFFF) (bit_and (u32 (x * 2 ^ 2)) 0x00FC0000))
      (bit_and (u32 (bit_xor (get_or buf (i + 16) 0) (get_or buf (i + 15) 0) * 2 ^ 9)) 0x00030000)

pub restore_loop : (rounds i : ℕ) → List ℕ → List ℕ
restore_loop zero i buf = buf
restore_loop (suc rounds) i buf = restore_loop rounds (i + 1) (set buf i (restored buf i))

-- The buffer that `lfg_reinitialize` gives `lfg_initialize`.
pub rewound : List ℕ → List ℕ
rewound buf = restore_loop seed_size 0 (map swap32 (times 4 (λ b. lfg_backward 0 lfg_k b) buf))

-- `lfg_reinitialize`: its answer, the buffer and `seed_out`.
pub reinitialize : List ℕ → (Bool × List ℕ) × List ℕ
reinitialize buf = let b = rewound buf in (lfg_initialize true b, map swap32 (take seed_size b))

-- A word of the data, the low byte first.
pub word_at : List ℕ → (at : ℕ) → ℕ
word_at xs at =
    get_or xs at 0
    + 2 ^ 8 * get_or xs (at + 1) 0
    + 2 ^ 16 * get_or xs (at + 2) 0
    + 2 ^ 24 * get_or xs (at + 3) 0

-- `u32_data[i]`, for `n` of them.
pub words_from : (n i : ℕ) → List ℕ → List ℕ
words_from zero i xs = []
words_from (suc n) i xs = word_at xs (4 * i) ∷ words_from n (i + 1) xs

-- The check of the top bits of the first `rounds` words.
pub looks_shifted : List ℕ → Bool
looks_shifted [] = true
looks_shifted (w ∷ ws) =
    let x = swap32 w in
    elim (bit_and x 0x00C00000 == bit_and (x / 2 ^ 2) 0x00C00000) [
      | false ↦ false
      | true ↦ looks_shifted ws
    ]

-- `while(p < end)`: how many bytes of the data are the generator's.
pub count_matches : List ℕ → Lfg → ℕ
count_matches [] ctx = 0
count_matches (x ∷ xs) ctx = elim (x == byte_of ctx.buffer ctx.position_bytes) [
  | false ↦ 0
  | true ↦ suc (count_matches xs (moved ctx.buffer (ctx.position_bytes + 1)))
]

-- `ngc_lfg_get_seed` from the point where the buffer is filled.
pub seed_of_words : List ℕ → (size_in_words data_offset : ℕ) → List ℕ → ℕ × List ℕ
seed_of_words words offset data_offset bytes =
    let mod_k = offset % lfg_k in
    let div_k = offset / lfg_k in
    let first_part = lfg_k - mod_k in
    let filled = drop first_part words ++ take first_part words in
    let there = times div_k (λ b. lfg_backward 0 lfg_k b) (lfg_backward 0 mod_k filled) in
    let ((ok, buf), seed) = reinitialize there in
    if ok
    then (
      count_matches bytes (record {
        buffer = times div_k lfg_forward buf;
        position_bytes = data_offset % lfg_bytes;
      }),
      seed,
    )
    else (0, seed)

-- `ngc_lfg_get_seed` of the bytes at an address. `seed_in` is what `seed_out` held.
pub get_seed : (address : ℕ) → List ℕ → (data_offset : ℕ) → (seed_in : List ℕ) → ℕ × List ℕ
get_seed address bytes data_offset seed_in =
    let skip = u64 (u64 (data_offset + 3) / 4 * 4 + (2 ^ 64 - data_offset)) in
    let words = words_from lfg_k 0 (drop skip bytes) in
    if not (u64 (address + (2 ^ 64 - data_offset)) % 4 == 0)
    then (0, seed_in)
    else if ltb (length bytes) skip
    then (0, seed_in)
    else if ltb ((length bytes - skip) / 4) lfg_k
    then (0, seed_in)
    else if looks_shifted words
    then seed_of_words words (u64 (data_offset + skip) / 4) data_offset bytes
    else (0, seed_in)
