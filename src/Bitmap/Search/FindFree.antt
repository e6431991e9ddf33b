-- ===== src/Bitmap/Search/FindFree.antt =====
-- What `obmafs3_bitmap_find_free` (src/lib/bitmap.c) answers.
use obmafs.Prelude.{
  ℕ, zero, suc, ◌+◌, ◌-◌, ◌*◌, ◌/◌, ◌%◌, ◌^◌, ◌≤◌, ◌<◌, ◌≡◌, ◌≢◌, ◌⊎◌, ◌↔◌, refl, Bool, true, false,
  some, List, ltb, ◌==◌, if◌then◌else◌, arith, inl, inr, ap, subst, ◌∙◌, length, get_or,
  get_or_default, get_or_beyond, dec_lt, ℕ_discrete,
}
use obmafs.Prelude.Bits.{bit}
use obmafs.Context.{Ctx, total_blocks, Result, ok, err, nospc}
use obmafs.Bitmap.{bitmap_is_set}
use obmafs.Bitmap.Marking.{bitmap_is_set-bytes, bytes_is_set-bit}
use obmafs.Bitmap.Search.{
  Outcome, found, scanning, memory, scan_pass, hint_of, after_pass, find_free_in, find_free_with,
  find_free,
}
use obmafs.Bitmap.Search.Reference.{Scan, hit, miss, first_run, SomeUsed, IsFirstRun, first_run_lem}
use obmafs.Bitmap.Search.Pass.{SameAnswer, scan_pass-SameAnswer}

-- The bitmap is loaded, its bytes are bytes, and it covers the volume.
pub record IsLoaded (ctx : Ctx) (bytes : List ℕ) : Type 0 where
  pub loaded : ctx.bitmap ≡ some bytes
  pub in_memory : ctx.bitmap_size ≤ length bytes
  pub small : (i : ℕ) → get_or bytes i 0 < 256
  pub covers : total_blocks ctx ≤ 8 * ctx.bitmap_size
  pub bound : total_blocks ctx < 2 ^ 63

abbrev pub is_free : Ctx → ℕ → Bool
is_free ctx b = bitmap_is_set ctx b == 0

-- The search one block at a time: from the hint to the end of the volume, then up to the hint.
pub answer : Scan → Result ℕ → Result ℕ
answer (hit s) next = ok s
answer (miss len) next = next

pub reference : Ctx → ℕ → Result ℕ
reference ctx count =
    let hint = hint_of ctx in
    let total = total_blocks ctx in
    answer (first_run (is_free ctx) count (total - hint) hint 0)
      (answer (first_run (is_free ctx) count hint 0 0) (err nospc))

SameAnswer-answer :
    (o : Outcome) (fr : Scan) (x y : Result ℕ)
    → SameAnswer o fr
    → x ≡ y
    → after_pass o x ≡ answer fr y
unfolding after_pass answer
SameAnswer-answer (found s) (hit t) x y h e = rw h
SameAnswer-answer (found s) (miss len) x y h e = absurd h
SameAnswer-answer (scanning r) (hit t) x y h e = absurd h
SameAnswer-answer (scanning r) (miss len) x y h e = e

module _ {ctx : Ctx} {bytes : List ℕ} (h : IsLoaded ctx bytes) (beyond : ℕ → ℕ)
    (beyond_small : (i : ℕ) → beyond i < 256) where
  memory-small : (i : ℕ) → memory bytes beyond i < 256
  memory-small i = elim (dec_lt i (length bytes)) [
    | yes inside ↦ rw (get_or_default bytes i (beyond i) 0 inside) (h.small i)
    | no outside ↦ rw (get_or_beyond bytes i (beyond i) (omega arith)) (beyond_small i)
  ]

  memory-is_free :
      (b : ℕ)
      → b < total_blocks ctx
      → is_free ctx b ≡ (bit (memory bytes beyond (b / 8)) (b % 8) == 0)
  memory-is_free b inside =
      let covered : b / 8 < ctx.bitmap_size = omega (arith, h.covers) in
      rw (
        bitmap_is_set-bytes ctx bytes b h.loaded,
        bytes_is_set-bit ctx.bitmap_size bytes b covered,
        get_or_default bytes (b / 8) (beyond (b / 8)) 0 (omega (arith, h.in_memory)),
      )

  pass-answer :
      (count lo hi : ℕ) (x y : Result ℕ)
      → lo ≤ hi
      → hi ≤ total_blocks ctx
      → x ≡ y
      → after_pass (scan_pass (memory bytes beyond) count lo hi) x
        ≡ answer (first_run (is_free ctx) count (hi - lo) lo 0) y
  pass-answer count lo hi x y order inside e =
      SameAnswer-answer (scan_pass (memory bytes beyond) count lo hi)
        (first_run (is_free ctx) count (hi - lo) lo 0) x y
        (scan_pass-SameAnswer (memory bytes beyond) memory-small (is_free ctx) count hi
          (omega (arith, h.bound)) (λ b below. memory-is_free b (omega arith)) lo order)
        e

  second_pass :
      (count hint : ℕ)
      → hint ≤ total_blocks ctx
      → (if ltb 0 hint
          then after_pass (scan_pass (memory bytes beyond) count 0 hint) (err nospc)
          else err nospc)
        ≡ answer (first_run (is_free ctx) count hint 0 0) (err nospc)
  unfolding first_run answer
  second_pass count zero inside = refl
  second_pass count (suc hint) inside =
      let all : suc hint - 0 ≡ suc hint = omega arith in
      let positive : ltb 0 (suc hint) ≡ true = ground arith in
      rw positive (
        subst
          (λ n.
            after_pass (scan_pass (memory bytes beyond) count 0 (suc hint)) (err nospc)
            ≡ answer (first_run (is_free ctx) count n 0 0) (err nospc))
          all (pass-answer count 0 (suc hint) (err nospc) (err nospc) (omega arith) inside refl))

  hint_of-le : hint_of ctx ≤ total_blocks ctx
  hint_of-le = ground arith

  find_free_in-reference :
      (count : ℕ) → find_free_in ctx count (memory bytes beyond) ≡ reference ctx count
  unfolding find_free_in reference first_run answer
  find_free_in-reference count = elim (ℕ_discrete (total_blocks ctx) 0) [
    | yes empty ↦
        let start : hint_of ctx ≡ 0 = omega (arith, hint_of-le) in
        let none : total_blocks ctx - 0 ≡ 0 = omega arith in
        let test : (total_blocks ctx == 0) ≡ true = ground arith in rw (test, start, none)
    | no blocks ↦
        let test : (total_blocks ctx == 0) ≡ false = ground arith in
        rw test (
          pass-answer count (hint_of ctx) (total_blocks ctx)
            (if ltb 0 (hint_of ctx)
              then after_pass (scan_pass (memory bytes beyond) count 0 (hint_of ctx)) (err nospc)
              else err nospc)
            (answer (first_run (is_free ctx) count (hint_of ctx) 0 0) (err nospc)) hint_of-le
            (omega arith) (second_pass count (hint_of ctx) hint_of-le))
  ]

  -- The search by words gives the answer of the search one block at a time, whatever memory holds
  -- behind the bitmap.
  pub find_free-reference : (count : ℕ) → find_free ctx beyond count ≡ reference ctx count
  unfolding find_free find_free_with
  find_free-reference count =
      ap (find_free_with ctx count beyond) h.loaded ∙ find_free_in-reference count

-- A run that the search may give: inside the volume, all of it free, and not across the hint.
pub record IsFound (ctx : Ctx) (count s : ℕ) : Type 0 where
  pub inside : s + count ≤ total_blocks ctx
  pub all_free : (b : ℕ) → s ≤ b → b < s + count → bitmap_is_set ctx b ≡ 0
  pub side : (hint_of ctx ≤ s) ⊎ (s + count ≤ hint_of ctx)

-- No `count` blocks in a row are free on either side of the hint.
abbrev pub NoRun : Ctx → ℕ → Type 0
NoRun ctx count =
    (t : ℕ)
    → t + count ≤ total_blocks ctx
    → (hint_of ctx ≤ t) ⊎ (t + count ≤ hint_of ctx)
    → (b : ℕ) × (t ≤ b) × (b < t + count) × (bitmap_is_set ctx b ≢ 0)

abbrev pub Answers : Ctx → ℕ → Result ℕ → Type 0
Answers ctx count (ok s) = IsFound ctx count s
Answers ctx count (err e) = (e ≡ nospc) × NoRun ctx count

reference-Answers :
    (ctx : Ctx) (count : ℕ)
    → hint_of ctx ≤ total_blocks ctx
    → (first second : Scan) → IsFirstRun (is_free ctx) count (hint_of ctx) (total_blocks ctx) first
    → IsFirstRun (is_free ctx) count 0 (hint_of ctx) second
    → Answers ctx count (answer first (answer second (err nospc)))
unfolding answer
reference-Answers ctx count order (hit s) second (above, below, free, before) q = record {
  inside = below;
  all_free = λ b a c. ground (arith, free b a c);
  side = inl above;
}
reference-Answers ctx count order (miss len) (hit s) p (above, below, free, before) = record {
  inside = omega arith;
  all_free = λ b a c. ground (arith, free b a c);
  side = inr below;
}
reference-Answers ctx count order (miss len) (miss k) p q = (
  refl,
  λ t inside side. elim side [
    | inl after ↦ used (p t after inside)
    | inr ahead ↦ used (q t (omega arith) ahead)
  ],
)
  where
    used :
        {t : ℕ}
        → SomeUsed (is_free ctx) t count
        → (b : ℕ) × (t ≤ b) × (b < t + count) × (bitmap_is_set ctx b ≢ 0)
    used (b, x, y, z) = (b, x, y, ground arith)

-- `obmafs3_bitmap_find_free` gives `count` blocks in a row that are all free, inside the volume
-- and on one side of the hint; it gives OBMAFS3_ERR_NOSPC, and no other error, only if neither
-- side of the hint has such a run.
pub find_free_lem :
    {ctx : Ctx} {bytes : List ℕ} (beyond : ℕ → ℕ) (count : ℕ)
    → IsLoaded ctx bytes
    → ((i : ℕ) → beyond i < 256)
    → 0 < count
    → Answers ctx count (find_free ctx beyond count)
unfolding reference
find_free_lem {ctx} beyond count h beyond_small positive =
    rw (find_free-reference h beyond beyond_small count) (
      reference-Answers ctx count (hint_of-le h beyond beyond_small)
        (first_run (is_free ctx) count (total_blocks ctx - hint_of ctx) (hint_of ctx) 0)
        (first_run (is_free ctx) count (hint_of ctx) 0 0)
        (first_run_lem (is_free ctx) count (total_blocks ctx - hint_of ctx) (hint_of ctx)
          (total_blocks ctx) positive (omega (arith, hint_of-le h beyond beyond_small)))
        (first_run_lem (is_free ctx) count (hint_of ctx) 0 (hint_of ctx) positive (omega arith)))

-- Where the only free blocks are `a` blocks before the hint and `b` from the hint on, each fewer
-- than `count` but together enough, the search gives OBMAFS3_ERR_NOSPC although the run of
-- `count` free blocks from `hint - a` exists.
pub find_free_across_hint :
    {ctx : Ctx} {bytes : List ℕ} (beyond : ℕ → ℕ) (count a b : ℕ)
    → IsLoaded ctx bytes
    → ((i : ℕ) → beyond i < 256)
    → a < count
    → b < count
    → count ≤ a + b
    → a ≤ hint_of ctx
    → hint_of ctx + b ≤ total_blocks ctx
    → ((j : ℕ)
        → j < total_blocks ctx
        → (bitmap_is_set ctx j ≡ 0) ↔ (hint_of ctx ≤ j + a) × (j < hint_of ctx + b))
    → (find_free ctx beyond count ≡ err nospc)
      × (hint_of ctx - a + count ≤ total_blocks ctx)
      × ((j : ℕ) → hint_of ctx - a ≤ j → j < hint_of ctx - a + count → bitmap_is_set ctx j ≡ 0)
find_free_across_hint {ctx} beyond count a b h beyond_small lt_a lt_b enough start inside only = (
  refused (find_free ctx beyond count) (find_free_lem beyond count h beyond_small (omega arith)),
  omega arith,
  λ j x y. (only j (omega arith)).1 (omega arith, omega arith),
)
  where
    refused : (r : Result ℕ) → Answers ctx count r → r ≡ err nospc
    refused (err e) p = ap err p.0
    refused (ok s) p = elim p.side [
      | inl after ↦ absurd (
          omega (
            arith,
            (only (s + count - 1) (omega (arith, p.inside))).0
                (p.all_free (s + count - 1) (omega arith) (omega arith)),
          ))
      | inr before ↦ absurd (
          omega (
            arith,
            (only s (omega (arith, p.inside))).0 (p.all_free s (omega arith) (omega arith)),
          ))
    ]
