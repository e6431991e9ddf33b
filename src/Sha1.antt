-- ===== src/Sha1.antt =====
-- SHA-1 of src/lib/sha1.c, which the code of Wii discs uses: a state of five words, a buffer of one
-- block, and a count of the bytes so far.
pub mod Blocks
pub mod Update
pub mod Digest
mod Tests
use obmafs.Prelude.{
  ℕ, zero, suc, ◌+◌, ◌-◌, ◌*◌, ◌/◌, ◌%◌, ◌^◌, Bool, true, false, List, [], ◌∷◌, ◌++◌, bit_and,
  bit_or, bit_xor, ltb, leb, ◌==◌, if◌then◌else◌, get_or, take, drop, length, u8, u32, u64, not32,
}

-- `rotl32`, for `n` from 1 to 31.
pub rotl32 : ℕ → ℕ → ℕ
rotl32 x n = bit_or (u32 (x * 2 ^ n)) (x / 2 ^ (32 - n))

pub be32 : List ℕ → (at : ℕ) → ℕ
be32 p at =
    bit_or
      (bit_or (bit_or (u32 (get_or p at 0 * 2 ^ 24)) (u32 (get_or p (at + 1) 0 * 2 ^ 16)))
        (u32 (get_or p (at + 2) 0 * 2 ^ 8)))
      (get_or p (at + 3) 0)

pub put_be32 : ℕ → List ℕ
put_be32 v = u8 (v / 2 ^ 24) ∷ u8 (v / 2 ^ 16) ∷ u8 (v / 2 ^ 8) ∷ u8 v ∷ []

pub put_be64 : ℕ → List ℕ
put_be64 v = put_be32 (u32 (v / 2 ^ 32)) ++ put_be32 (u32 v)

-- `state[5]`, and the variables `a` to `e`.
pub record State : Type 0 where
  pub a : ℕ
  pub b : ℕ
  pub c : ℕ
  pub d : ℕ
  pub e : ℕ

-- `for(int i = 0; i < 16; i++) w[i] = be32(block + i * 4)`, from `i` on.
pub load_words : (rounds i : ℕ) → List ℕ → List ℕ
load_words zero i block = []
load_words (suc rounds) i block = be32 block (i * 4) ∷ load_words rounds (i + 1) block

-- `for(int i = 16; i < 80; i++)`, where `w` has the words before `i`.
pub expand_words : (rounds i : ℕ) → List ℕ → List ℕ
expand_words zero i w = w
expand_words (suc rounds) i w =
    let x =
      bit_xor (bit_xor (bit_xor (get_or w (i - 3) 0) (get_or w (i - 8) 0)) (get_or w (i - 14) 0))
        (get_or w (i - 16) 0) in
    expand_words rounds (i + 1) (w ++ rotl32 x 1 ∷ [])

-- `f` and `k` of a round.
pub mixed : ℕ → State → ℕ × ℕ
mixed i s =
    if ltb i 20
    then (bit_or (bit_and s.b s.c) (bit_and (not32 s.b) s.d), 0x5A827999)
    else if ltb i 40
    then (bit_xor (bit_xor s.b s.c) s.d, 0x6ED9EBA1)
    else if ltb i 60
    then (bit_or (bit_or (bit_and s.b s.c) (bit_and s.b s.d)) (bit_and s.c s.d), 0x8F1BBCDC)
    else (bit_xor (bit_xor s.b s.c) s.d, 0xCA62C1D6)

pub round : (i w : ℕ) → State → State
round i w s =
    let (f, k) = mixed i s in
    record {
      a = u32 (rotl32 s.a 5 + f + s.e + k + w);
      b = s.a;
      c = rotl32 s.b 30;
      d = s.c;
      e = s.d;
    }

-- `for(int i = 0; i < 80; i++)`, over the words from `i` on.
pub round_loop : (i : ℕ) → List ℕ → State → State
round_loop i [] s = s
round_loop i (w ∷ ws) s = round_loop (i + 1) ws (round i w s)

pub transform : State → List ℕ → State
transform s block =
    let v = round_loop 0 (expand_words 64 16 (load_words 16 0 block)) s in
    record {
      a = u32 (s.a + v.a);
      b = u32 (s.b + v.b);
      c = u32 (s.c + v.c);
      d = u32 (s.d + v.d);
      e = u32 (s.e + v.e);
    }

pub record Sha1Ctx : Type 0 where
  pub state : State
  pub count : ℕ
  pub buffer : List ℕ

pub initial : State
initial = record { a = 0x67452301; b = 0xEFCDAB89; c = 0x98BADCFE; d = 0x10325476; e = 0xC3D2E1F0 }

-- The buffer is left as it was.
pub sha1_init : Sha1Ctx → Sha1Ctx
sha1_init ctx = record { state = initial; count = 0; buffer = ctx.buffer }

-- `memcpy(buffer + idx, p, length p)`
pub copy_in : List ℕ → (idx : ℕ) → List ℕ → List ℕ
copy_in buffer idx p = take idx buffer ++ (p ++ drop (idx + length p) buffer)

-- `if(len) memcpy(ctx->buffer, p, len)`
pub keep_rest : Sha1Ctx → List ℕ → Sha1Ctx
keep_rest ctx [] = ctx
keep_rest ctx (x ∷ p) = record ctx { buffer = copy_in ctx.buffer 0 (x ∷ p) }

-- `while(len >= 64)`, then the rest. Each round takes 64 bytes, so that as many rounds as there are
-- bytes are enough.
pub block_loop : (rounds : ℕ) → Sha1Ctx → List ℕ → Sha1Ctx
block_loop zero ctx p = keep_rest ctx p
block_loop (suc rounds) ctx p = elim (leb 64 (length p)) [
  | true ↦ block_loop rounds (record ctx { state = transform ctx.state (take 64 p) }) (drop 64 p)
  | false ↦ keep_rest ctx p
]

-- `sha1_update` with the count brought up to date, from `idx` on.
pub fill_buffer : (idx : ℕ) → Sha1Ctx → List ℕ → Sha1Ctx
fill_buffer idx ctx p =
    let fill = 64 - idx in
    let full = copy_in ctx.buffer idx (take fill p) in
    if ltb 0 idx
    then if ltb (length p) fill
      then record ctx { buffer = copy_in ctx.buffer idx p }
      else block_loop (length p) (record ctx { buffer = full; state = transform ctx.state full })
          (drop fill p)
    else block_loop (length p) ctx p

-- `count & 63` is the remainder by 64.
pub sha1_update : Sha1Ctx → List ℕ → Sha1Ctx
sha1_update ctx p =
    fill_buffer (ctx.count % 64) (record ctx { count = u64 (ctx.count + length p) }) p

-- `while((ctx->count & 63) != 56) sha1_update(ctx, &pad, 1)`. At most 63 bytes are added.
pub pad_loop : (rounds : ℕ) → Sha1Ctx → Sha1Ctx
pad_loop zero ctx = ctx
pad_loop (suc rounds) ctx = elim (ctx.count % 64 == 56) [
  | true ↦ ctx
  | false ↦ pad_loop rounds (sha1_update ctx (0 ∷ []))
]

pub put_state : State → List ℕ
put_state s = put_be32 s.a ++ (put_be32 s.b ++ (put_be32 s.c ++ (put_be32 s.d ++ put_be32 s.e)))

-- The digest.
pub sha1_final : Sha1Ctx → List ℕ
sha1_final ctx =
    let bits = u64 (ctx.count * 8) in
    put_state (sha1_update (pad_loop 64 (sha1_update ctx (0x80 ∷ []))) (put_be64 bits)).state

-- `fresh` is the context on the stack, with any content.
pub sha1_hash : Sha1Ctx → List ℕ → List ℕ
sha1_hash fresh p = sha1_final (sha1_update (sha1_init fresh) p)
