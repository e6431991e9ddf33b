-- ===== src/Bitmap/Bytes.antt =====
-- The bytes of the bitmap as ranges are set and cleared (src/lib/bitmap.c): they stay bytes, as
-- many, and nothing else of the context changes.
use obmafs.Prelude.{
  ℕ, zero, suc, ◌+◌, ◌/◌, ◌%◌, ◌^◌, ◌<◌, ◌≡◌, ap, List, bit_and, bit_or, get_or, set, length,
  get_or-set_self, get_or-set_ne, set_beyond, lt→ltb, le→ltb, u8, u64, not32, arith, dec_lt,
  ℕ_discrete, some,
}
use obmafs.Context.{Ctx}
use obmafs.Bitmap.{set_bit, clear_bit, bit_loop, update_bitmap, bitmap_set, bitmap_clear}
use obmafs.Bitmap.Marking.{length-bit_loop, length-set_bit, length-clear_bit}

-- The bytes stay bytes.
small-set :
    (bytes : List ℕ) (k v : ℕ)
    → ((i : ℕ) → get_or bytes i 0 < 256)
    → (i : ℕ) → get_or (set bytes k (u8 v)) i 0 < 256
small-set bytes k v h i = elim (dec_lt k (length bytes)) [
  | yes inside ↦ elim (ℕ_discrete k i) [
    | yes same ↦ rw (← same, get_or-set_self bytes k (u8 v) 0 inside) (omega arith)
    | no other ↦ rw (get_or-set_ne bytes k i (u8 v) 0 other) (h i)
  ]
  | no outside ↦ rw (set_beyond bytes k (u8 v) (omega arith)) (h i)
]

small-bit_loop :
    (step : List ℕ → ℕ → List ℕ)
    → ((bytes : List ℕ) (b : ℕ)
        → ((i : ℕ) → get_or bytes i 0 < 256)
        → (i : ℕ) → get_or (step bytes b) i 0 < 256)
    → (n b : ℕ) (bytes : List ℕ) → ((i : ℕ) → get_or bytes i 0 < 256)
    → (i : ℕ) → get_or (bit_loop step n b bytes) i 0 < 256
unfolding bit_loop
small-bit_loop step keep zero b bytes h = h
small-bit_loop step keep (suc n) b bytes h =
    small-bit_loop step keep n (u64 (b + 1)) (step bytes b) (keep bytes b h)

pub small-set_loop :
    (size n b : ℕ) (bytes : List ℕ)
    → ((i : ℕ) → get_or bytes i 0 < 256)
    → (i : ℕ) → get_or (bit_loop (set_bit size) n b bytes) i 0 < 256
unfolding set_bit
small-set_loop size = small-bit_loop (set_bit size) λ bytes b h i. elim (dec_lt (b / 8) size) [
  | no out ↦ rw (le→ltb (b / 8) size (omega arith)) (h i)
  | yes inside ↦
      rw (lt→ltb (b / 8) size inside)
        (small-set bytes (b / 8) (bit_or (get_or bytes (b / 8) 0) (2 ^ (b % 8))) h i)
]

pub small-clear_loop :
    (size n b : ℕ) (bytes : List ℕ)
    → ((i : ℕ) → get_or bytes i 0 < 256)
    → (i : ℕ) → get_or (bit_loop (clear_bit size) n b bytes) i 0 < 256
unfolding clear_bit
small-clear_loop size = small-bit_loop (clear_bit size) λ bytes b h i. elim (dec_lt (b / 8) size) [
  | no out ↦ rw (le→ltb (b / 8) size (omega arith)) (h i)
  | yes inside ↦
      rw (lt→ltb (b / 8) size inside)
        (small-set bytes (b / 8) (bit_and (get_or bytes (b / 8) 0) (not32 (2 ^ (b % 8)))) h i)
]

pub length-set_loop :
    (size n b : ℕ) (bytes : List ℕ) → length (bit_loop (set_bit size) n b bytes) ≡ length bytes
length-set_loop size = length-bit_loop size (set_bit size) (length-set_bit size)

pub length-clear_loop :
    (size n b : ℕ) (bytes : List ℕ) → length (bit_loop (clear_bit size) n b bytes) ≡ length bytes
length-clear_loop size = length-bit_loop size (clear_bit size) (length-clear_bit size)

-- Only the bytes of the context change.
pub bitmap_set-bytes :
    (ctx : Ctx) (bytes : List ℕ) (lba count : ℕ)
    → ctx.bitmap ≡ some bytes
    → bitmap_set ctx lba count
      ≡ record ctx { bitmap = some (bit_loop (set_bit ctx.bitmap_size) count lba bytes) }
unfolding bitmap_set
bitmap_set-bytes ctx bytes lba count h =
    ap (λ b. update_bitmap ctx b (bit_loop (set_bit ctx.bitmap_size) count lba)) h

pub bitmap_clear-bytes :
    (ctx : Ctx) (bytes : List ℕ) (lba count : ℕ)
    → ctx.bitmap ≡ some bytes
    → bitmap_clear ctx lba count
      ≡ record ctx { bitmap = some (bit_loop (clear_bit ctx.bitmap_size) count lba bytes) }
unfolding bitmap_clear
bitmap_clear-bytes ctx bytes lba count h =
    ap (λ b. update_bitmap ctx b (bit_loop (clear_bit ctx.bitmap_size) count lba)) h
