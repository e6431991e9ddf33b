-- ===== src/Bitmap/Search.antt =====
-- `obmafs3_bitmap_find_free` of src/lib/bitmap.c: the search for a run of free blocks, which
-- reads the bitmap in words of 64 bits.
pub mod Loop
pub mod Pass
pub mod FindFree
pub mod Reference
pub mod Word
use obmafs.Prelude.{
  ℕ, zero, suc, ◌+◌, ◌-◌, ◌*◌, ◌/◌, ◌%◌, ◌^◌, Option, none, some, List, bit_and, bit_or, ltb, leb,
  ◌==◌, ◌||◌, not, if◌then◌else◌, get_or, u64, not64,
}
use obmafs.Context.{Ctx, total_blocks, Result, ok, err, Error, inval, nospc}

-- A byte of memory at an offset from the bitmap. The last word may reach behind the bytes that
-- were allocated: `beyond` is whatever memory holds there.
abbrev pub memory : List ℕ → (ℕ → ℕ) → ℕ → ℕ
memory bytes beyond i = get_or bytes i (beyond i)

-- A little-endian load of `n` bytes.
unfoldable pub load_le : (ℕ → ℕ) → ℕ → ℕ → ℕ
load_le m zero i = 0
load_le m (suc n) i = m i + 256 * load_le m n (i + 1)

-- `words[idx]`
unfoldable pub load_word : (ℕ → ℕ) → ℕ → ℕ
load_word m idx = load_le m 8 (idx * 8)

-- `__builtin_ctzll`: the number of zero bits below the lowest bit set, of `n` bits.
unfoldable pub ctz : ℕ → ℕ → ℕ
ctz zero x = 0
ctz (suc n) x = if x % 2 == 1 then 0 else ctz n (x / 2) + 1

-- The bits below the position are made to look allocated, and those from `scan_end` on.
unfoldable pub mask_word : ℕ → ℕ → ℕ → ℕ → ℕ
mask_word word bit_in_word word_end scan_end =
    let low = if bit_in_word == 0 then word else bit_or word (2 ^ bit_in_word - 1) in
    if ltb scan_end word_end then bit_or low (not64 (2 ^ (64 - (word_end - scan_end)) - 1)) else low

-- `run_start` and `run_len`
pub record Run : Type 0 where
  pub start : ℕ
  pub len : ℕ

-- A loop has found a run, or goes on with the run so far.
pub data Outcome : Type 0 where
  found : ℕ → Outcome
  scanning : Run → Outcome

-- A run that was found ends the search.
unfoldable pub go_on : Outcome → (Run → Outcome) → Outcome
go_on (found s) next = found s
go_on (scanning r) next = next r

unfoldable pub extend_run : Run → ℕ → Run
extend_run r abs_bit =
    if (r.len == 0) || not (abs_bit == u64 (r.start + r.len))
    then record { start = abs_bit; len = 1 }
    else record r { len = u64 (r.len + 1) }

module _ (count scan_end : ℕ) where
  -- `while(free_mask)`. A mask has at most 64 bits, so 64 rounds are enough.
  unfoldable pub word_loop : ℕ → ℕ → ℕ → Run → Outcome
  word_loop word_idx zero free_mask r = scanning r
  word_loop word_idx (suc rounds) free_mask r =
      let abs_bit = u64 (word_idx * 64 + ctz 64 free_mask) in
      let r' = extend_run r abs_bit in
      let rest = word_loop word_idx rounds (bit_and free_mask (free_mask - 1)) r' in
      if free_mask == 0
      then scanning r
      else if leb scan_end abs_bit
      then scanning r
      else if leb count r'.len
      then found r'.start
      else rest

  -- The body of `while(bit < scan_end)`, up to the step to the next word.
  unfoldable pub scan_word : (ℕ → ℕ) → ℕ → Run → Outcome
  scan_word m bit r =
      let word_idx = bit / 64 in
      let word = mask_word (load_word m word_idx) (bit % 64) (u64 ((word_idx + 1) * 64)) scan_end in
      if word == 2 ^ 64 - 1
      then scanning (record r { len = 0 })
      else word_loop word_idx 64 (not64 word) r

  -- `while(bit < scan_end)`, with the rounds left.
  unfoldable pub pass_loop : (ℕ → ℕ) → ℕ → ℕ → Run → Outcome
  pass_loop m zero bit r = scanning r
  pass_loop m (suc rounds) bit r =
      let rest =
        go_on (scan_word m bit r) (λ r'. pass_loop m rounds (u64 ((bit / 64 + 1) * 64)) r') in
      if ltb bit scan_end then rest else scanning r

-- One pass of `for(p = 0; p < passes; p++)`. Each round but the first starts a word.
unfoldable pub scan_pass : (ℕ → ℕ) → ℕ → ℕ → ℕ → Outcome
scan_pass m count scan_start scan_end =
    if leb scan_end scan_start
    then scanning (record { start = 0; len = 0 })
    else pass_loop count scan_end m (scan_end / 64 + 1) scan_start (record { start = 0; len = 0 })

-- The hint, clamped to the volume.
abbrev pub hint_of : Ctx → ℕ
hint_of ctx = if leb (total_blocks ctx) ctx.next_free_lba then 0 else ctx.next_free_lba

unfoldable pub after_pass : Outcome → Result ℕ → Result ℕ
after_pass (found s) next = ok s
after_pass (scanning r) next = next

unfoldable pub find_free_in : Ctx → ℕ → (ℕ → ℕ) → Result ℕ
find_free_in ctx count m =
    let hint = hint_of ctx in
    if total_blocks ctx == 0
    then err nospc
    else after_pass (scan_pass m count hint (total_blocks ctx))
        (if ltb 0 hint then after_pass (scan_pass m count 0 hint) (err nospc) else err nospc)

unfoldable pub find_free_with : Ctx → ℕ → (ℕ → ℕ) → Option (List ℕ) → Result ℕ
find_free_with ctx count beyond none = err inval
find_free_with ctx count beyond (some bytes) = find_free_in ctx count (memory bytes beyond)

unfoldable pub find_free : Ctx → (ℕ → ℕ) → ℕ → Result ℕ
find_free ctx beyond count = find_free_with ctx count beyond ctx.bitmap
