-- ===== src/Sha1/Update.antt =====
-- `sha1_update` (src/lib/sha1.c) takes a message in any pieces.
use obmafs.Prelude.{
  ℕ, zero, suc, ◌+◌, ◌-◌, ◌*◌, ◌%◌, ◌<◌, ◌≤◌, ◌≡◌, refl, ◌∙◌, sym, ap, subst, List, [], ◌∷◌, ◌++◌,
  ltb, leb, take, drop, length, length-append, length-take, length-drop, take-append,
  take-append-drop, drop-beyond, u64, arith, Bool-cases, inl, inr, dec_lt, lt→ltb, le→ltb, le→leb,
  lt→leb,
}
use mathlib.Core.List.{append_assoc, append-nil}
use obmafs.Sha1.{
  Sha1Ctx, initial, sha1_init, transform, copy_in, keep_rest, block_loop, fill_buffer, sha1_update,
}
use obmafs.Sha1.Blocks.{
  joined, chain, AllBlocks, joined_nil, chain_nil, joined_one, chain_one, AllBlocks-append,
  length-joined,
}

-- The state and the buffer stand for the message `m`: its blocks are in the state, the rest is in
-- the buffer.
pub record Absorbed (ctx : Sha1Ctx) (m : List ℕ) : Type 0 where
  pub blocks : List (List ℕ)
  pub rest : List ℕ
  pub full : AllBlocks blocks
  pub short : length rest < 64
  pub parts : joined blocks ++ rest ≡ m
  pub state : ctx.state ≡ chain initial blocks
  pub kept : take (length rest) ctx.buffer ≡ rest
  pub room : length ctx.buffer ≡ 64

-- With the count.
abbrev pub IsHashing : Sha1Ctx → List ℕ → Type 0
IsHashing ctx m = Absorbed ctx m × (ctx.count ≡ u64 (length m))

module _ (buffer : List ℕ) (rest : List ℕ) (room : length buffer ≡ 64) where
  length-copy_in : (idx : ℕ) (p : List ℕ) → idx + length p ≤ 64 → length (copy_in buffer idx p) ≡ 64
  unfolding copy_in
  length-copy_in idx p fits = omega (
    arith,
    room,
    length-append (take idx buffer) (p ++ drop (idx + length p) buffer),
    length-append p (drop (idx + length p) buffer),
    length-take idx buffer (omega (arith, room)),
    length-drop (idx + length p) buffer,
  )

  take-copy_in :
      (p : List ℕ)
      → take (length rest) buffer ≡ rest
      → take (length (rest ++ p)) (copy_in buffer (length rest) p) ≡ rest ++ p
  unfolding copy_in
  take-copy_in p kept =
      rw (kept, sym (append_assoc rest p (drop (length rest + length p) buffer)))
        (take-append (length (rest ++ p)) (rest ++ p) (drop (length rest + length p) buffer) refl)

  copy_in_full :
      (p : List ℕ)
      → take (length rest) buffer ≡ rest
      → length rest + length p ≡ 64
      → copy_in buffer (length rest) p ≡ rest ++ p
  unfolding copy_in
  copy_in_full p kept full =
      rw (kept, drop-beyond (length rest + length p) buffer (omega (arith, room, full)), append-nil)
        refl

keep_rest-Absorbed :
    (ctx : Sha1Ctx) (blocks : List (List ℕ)) (p : List ℕ)
    → AllBlocks blocks
    → length p < 64
    → ctx.state ≡ chain initial blocks
    → length ctx.buffer ≡ 64
    → Absorbed (keep_rest ctx p) (joined blocks ++ p)
unfolding keep_rest
keep_rest-Absorbed ctx blocks [] full short state room = record {
  blocks = blocks;
  rest = [];
  full = full;
  short = short;
  parts = refl;
  state = state;
  kept = refl;
  room = room;
}
keep_rest-Absorbed ctx blocks (x ∷ p) full short state room = record {
  blocks = blocks;
  rest = x ∷ p;
  full = full;
  short = short;
  parts = refl;
  state = state;
  kept = take-copy_in ctx.buffer [] room (x ∷ p) refl;
  room = length-copy_in ctx.buffer [] room 0 (x ∷ p) (omega arith);
}

block_loop-Absorbed :
    (rounds : ℕ) (ctx : Sha1Ctx) (blocks : List (List ℕ)) (p : List ℕ)
    → AllBlocks blocks
    → length p < 64 * rounds + 64
    → ctx.state ≡ chain initial blocks
    → length ctx.buffer ≡ 64
    → Absorbed (block_loop rounds ctx p) (joined blocks ++ p)
unfolding block_loop
block_loop-Absorbed zero ctx blocks p full few state room =
    keep_rest-Absorbed ctx blocks p full (omega arith) state room
block_loop-Absorbed (suc rounds) ctx blocks p full few state room = elim (dec_lt (length p) 64) [
  | yes short ↦
      rw (lt→leb 64 (length p) short, block_loop)
        (keep_rest-Absorbed ctx blocks p full short state room)
  | no long ↦
      let b = take 64 p in
      let len = length-take 64 p (omega arith) in
      let ctx' = record ctx { state = transform ctx.state b } in
      let parts =
        ap (λ r. r ++ drop 64 p) (joined_one blocks b)
        ∙ append_assoc (joined blocks) b (drop 64 p)
        ∙ ap (λ r. joined blocks ++ r) (take-append-drop 64 p) in
      rw (le→leb 64 (length p) (omega arith), block_loop)
        (subst (Absorbed (block_loop rounds ctx' (drop 64 p))) (parts) (
          block_loop-Absorbed rounds ctx' (blocks ++ b ∷ []) (drop 64 p)
            (AllBlocks-append blocks (b ∷ []) full (len, tt)) (omega (arith, length-drop 64 p))
            (ap (λ s. transform s b) state ∙ sym (chain_one initial blocks b)) room))
]

-- The code finds the length of the rest in the count.
rest_idx :
    (ctx : Sha1Ctx) (m : List ℕ) (h : Absorbed ctx m)
    → ctx.count ≡ u64 (length m)
    → ctx.count % 64 ≡ length h.rest
rest_idx ctx m h count = omega (
  arith,
  count,
  ap length h.parts,
  length-append (joined h.blocks) h.rest,
  length-joined h.blocks h.full,
  h.short,
)

pub nil_of_length : (xs : List ℕ) → length xs < 1 → xs ≡ []
nil_of_length [] h = refl
nil_of_length (x ∷ xs) h = absurd (omega arith)

fill_buffer-Absorbed :
    (ctx : Sha1Ctx) (m p : List ℕ) (h : Absorbed ctx m)
    → Absorbed (fill_buffer (length h.rest) ctx p) (m ++ p)
unfolding fill_buffer
fill_buffer-Absorbed ctx m p h =
    let n = length h.rest in
    let longer : joined h.blocks ++ (h.rest ++ p) ≡ m ++ p =
      sym (append_assoc (joined h.blocks) h.rest p) ∙ ap (λ r. r ++ p) h.parts in
    elim (dec_lt 0 n) [
      | no none_left ↦
          let parts =
            ap (λ r. joined h.blocks ++ (r ++ p)) (sym (nil_of_length h.rest (omega arith)))
            ∙ longer in
          rw (le→ltb 0 n (omega arith)) (
            subst (Absorbed (block_loop (length p) ctx p)) (parts)
              (block_loop-Absorbed (length p) ctx h.blocks p h.full (omega arith) h.state h.room))
      | yes left ↦ elim (dec_lt (length p) (64 - n)) [
        | yes short ↦
            rw (lt→ltb 0 n left, lt→ltb (length p) (64 - n) short)
              (record {
                blocks = h.blocks;
                rest = h.rest ++ p;
                full = h.full;
                short = omega (arith, length-append h.rest p);
                parts = longer;
                state = h.state;
                kept = take-copy_in ctx.buffer h.rest h.room p h.kept;
                room = length-copy_in ctx.buffer h.rest h.room n p (omega arith);
              })
        | no long ↦
            let first = take (64 - n) p in
            let b = copy_in ctx.buffer n first in
            let ctx' = record ctx { buffer = b; state = transform ctx.state b } in
            let len = length-take (64 - n) p (omega arith) in
            let short = h.short in
            let whole =
              copy_in_full ctx.buffer h.rest h.room first h.kept (omega (arith, len, short)) in
            let room =
              length-copy_in ctx.buffer h.rest h.room n first (omega (arith, len, short)) in
            let parts =
              ap (λ r. r ++ drop (64 - n) p) (joined_one h.blocks b)
              ∙ append_assoc (joined h.blocks) b (drop (64 - n) p)
              ∙ ap (λ r. joined h.blocks ++ (r ++ drop (64 - n) p)) whole
              ∙ ap (λ r. joined h.blocks ++ r) (append_assoc h.rest first (drop (64 - n) p))
              ∙ ap (λ r. joined h.blocks ++ (h.rest ++ r)) (take-append-drop (64 - n) p)
              ∙ longer in
            rw (lt→ltb 0 n left, le→ltb (length p) (64 - n) (omega arith))
              (subst (Absorbed (block_loop (length p) ctx' (drop (64 - n) p))) (parts) (
                block_loop-Absorbed (length p) ctx' (h.blocks ++ b ∷ []) (drop (64 - n) p)
                  (AllBlocks-append h.blocks (b ∷ []) h.full (room, tt))
                  (omega (arith, length-drop (64 - n) p))
                  (ap (λ s. transform s b) h.state ∙ sym (chain_one initial h.blocks b)) room))
      ]
    ]

keep_rest_count : (ctx : Sha1Ctx) (p : List ℕ) → (keep_rest ctx p).count ≡ ctx.count
unfolding keep_rest
keep_rest_count ctx [] = refl
keep_rest_count ctx (x ∷ p) = refl

block_loop_count :
    (rounds : ℕ) (ctx : Sha1Ctx) (p : List ℕ) → (block_loop rounds ctx p).count ≡ ctx.count
unfolding block_loop
block_loop_count zero ctx p = keep_rest_count ctx p
block_loop_count (suc rounds) ctx p =
    let ctx' = record ctx { state = transform ctx.state (take 64 p) } in
    elim (Bool-cases (leb 64 (length p))) [
      | inl more ↦ rw (more, block_loop) (block_loop_count rounds ctx' (drop 64 p))
      | inr over ↦ rw (over, block_loop) (keep_rest_count ctx p)
    ]

fill_buffer_count :
    (idx : ℕ) (ctx : Sha1Ctx) (p : List ℕ) → (fill_buffer idx ctx p).count ≡ ctx.count
unfolding fill_buffer
fill_buffer_count idx ctx p =
    let b = copy_in ctx.buffer idx (take (64 - idx) p) in
    let ctx' = record ctx { buffer = b; state = transform ctx.state b } in
    elim (Bool-cases (ltb 0 idx)) [
      | inr fresh ↦ rw fresh (block_loop_count (length p) ctx p)
      | inl started ↦ elim (Bool-cases (ltb (length p) (64 - idx))) [
        | inl short ↦ rw (started, short) refl
        | inr long ↦ rw (started, long) (block_loop_count (length p) ctx' (drop (64 - idx) p))
      ]
    ]

-- A context that stands for `m` stands for `m` and then `p` after `sha1_update`.
pub sha1_update-IsHashing :
    (ctx : Sha1Ctx) (m p : List ℕ) → IsHashing ctx m → IsHashing (sha1_update ctx p) (m ++ p)
unfolding sha1_update
sha1_update-IsHashing ctx m p (h, count) =
    let ctx' = record ctx { count = u64 (ctx.count + length p) } in
    let h' : Absorbed ctx' m = record {
      blocks = h.blocks;
      rest = h.rest;
      full = h.full;
      short = h.short;
      parts = h.parts;
      state = h.state;
      kept = h.kept;
      room = h.room;
    } in
    (
      subst (λ i. Absorbed (fill_buffer i ctx' p) (m ++ p)) (sym (rest_idx ctx m h count))
          (fill_buffer-Absorbed ctx' m p h'),
      fill_buffer_count (ctx.count % 64) ctx' p ∙ omega (arith, count, length-append m p),
    )

pub sha1_init-IsHashing : (ctx : Sha1Ctx) → length ctx.buffer ≡ 64 → IsHashing (sha1_init ctx) []
unfolding sha1_init
sha1_init-IsHashing ctx room = (
  record {
    blocks = [];
    rest = [];
    full = tt;
    short = omega arith;
    parts = joined_nil;
    state = chain_nil;
    kept = refl;
    room = room;
  },
  refl,
)
