-- ===== src/Tests/Allocation.antt =====
-- Runs of the bitmap and of the block allocator (src/lib/bitmap.c, src/lib/btree.c).
use obmafs.Prelude.{
  false, sym, ℕ, ◌+◌, ◌<◌, ◌≤◌, ◌≡◌, refl, Bool, true, some, none, List, [], ◌∷◌, arith, ltb, leb,
  get_or, if◌then◌else◌, ◌==◌, not, ℕ_discrete, ◌&&◌, ◌↔◌, zero, suc, ap,
}
use obmafs.Context.{Ctx, ok, err, nospc, total_blocks}
use obmafs.Bitmap.{bitmap_set, bitmap_clear, bitmap_is_set, is_set_of, bytes_is_set}
use obmafs.Bitmap.Marking.{is_set-bitmap_set, is_set-bitmap_clear}
use obmafs.Bitmap.Search.{
  find_free, find_free_with, find_free_in, after_pass, scan_pass, pass_loop, scan_word, word_loop,
  extend_run, mask_word, ctz, load_word, load_le, go_on,
}
use obmafs.Bitmap.Search.FindFree.{
  IsLoaded, reference, find_free-reference, Answers, find_free_lem, find_free_across_hint,
}
use obmafs.Alloc.{alloc_blocks, take_run, free_blocks}
use obmafs.Alloc.Safety.{AllocSpec, alloc_blocks-AllocSpec, Released, free_blocks-Released}
use obmafs.Alloc.History.{
  World, world, update, span, Reach, here, next, take, give_back, start, IsSound, Reach-IsSound,
}
use obmafs.Tests.{sb, bytes, ctx, beyond, beyond_small, ctx-IsLoaded, ctx-IsValid}

is_set-bitmap_set_example : bitmap_is_set (bitmap_set ctx 20 3) 22 ≡ 1
is_set-bitmap_set_example = is_set-bitmap_set ctx bytes 20 3 22 (refl, omega arith) (omega arith)

is_set-bitmap_clear_example : bitmap_is_set (bitmap_clear ctx 3 2) 4 ≡ 0
is_set-bitmap_clear_example = is_set-bitmap_clear ctx bytes 3 2 4 (refl, omega arith) (omega arith)

find_free-reference_example : find_free ctx beyond 5 ≡ reference ctx 5
find_free-reference_example = find_free-reference ctx-IsLoaded beyond beyond_small 5

find_free_lem_example : Answers ctx 5 (find_free ctx beyond 5)
find_free_lem_example = find_free_lem beyond 5 ctx-IsLoaded beyond_small (omega arith)

-- The search computes.
find_free-test : find_free ctx beyond 5 ≡ ok 13
unfolding find_free find_free_with find_free_in after_pass scan_pass pass_loop scan_word word_loop
    extend_run mask_word ctz load_word load_le go_on
find_free-test = refl

alloc_blocks-test : (alloc_blocks beyond ctx 5).1 ≡ ok 13
unfolding find_free find_free_with find_free_in after_pass scan_pass pass_loop scan_word word_loop
    extend_run mask_word ctz load_word load_le go_on alloc_blocks take_run
alloc_blocks-test = refl

alloc_blocks-AllocSpec_example : AllocSpec ctx 5 (alloc_blocks beyond ctx 5)
alloc_blocks-AllocSpec_example =
    alloc_blocks-AllocSpec beyond 5 ctx-IsValid beyond_small (omega arith)

free_blocks-Released_example : Released ctx 4 3 (free_blocks ctx 4 3).0
free_blocks-Released_example = free_blocks-Released 4 3 ctx-IsValid (omega arith)

-- A caller takes five blocks and gives them back.
abbrev taken_world : World
taken_world = world (alloc_blocks beyond ctx 5).0 (update (λ k. none) 0 (some (span 13 5)))

abbrev returned_world : World
returned_world =
    world (free_blocks (alloc_blocks beyond ctx 5).0 13 5).0 (update taken_world.live 0 none)

returned_world-Reach : Reach (start ctx) returned_world
returned_world-Reach =
    next
      (next here (
        take (start ctx) beyond 5 0 beyond_small (omega arith) refl
          (ap (λ r. ((alloc_blocks beyond ctx 5).0, r)) alloc_blocks-test)))
      (give_back taken_world 0 refl)

Reach-IsSound_example : IsSound ctx returned_world
Reach-IsSound_example = Reach-IsSound ctx-IsValid returned_world-Reach

-- A volume whose free blocks are 14 to 17, with the hint at 16.
abbrev split_bytes : List ℕ
split_bytes = 255 ∷ 63 ∷ 252 ∷ 255 ∷ 255 ∷ []

abbrev split_ctx : Ctx
split_ctx = record { sb = sb; bitmap = some split_bytes; bitmap_size = 5; next_free_lba = 16 }

split_bytes_small : (i : ℕ) → get_or split_bytes i 0 < 256
split_bytes_small zero = omega arith
split_bytes_small (suc zero) = omega arith
split_bytes_small (suc (suc zero)) = omega arith
split_bytes_small (suc (suc (suc zero))) = omega arith
split_bytes_small (suc (suc (suc (suc zero)))) = omega arith
split_bytes_small (suc (suc (suc (suc (suc i))))) = omega arith

split_ctx-IsLoaded : IsLoaded split_ctx split_bytes
split_ctx-IsLoaded = record {
  loaded = refl;
  in_memory = omega arith;
  small = split_bytes_small;
  covers = omega arith;
  bound = omega arith;
}

-- A test of the blocks `i` to `i + n - 1`, and what it says of one of them.
abbrev each : (n i : ℕ) → (ℕ → Bool) → Bool
each zero i test = true
each (suc n) i test = if test i then each n (i + 1) test else false

each-at : (n i j : ℕ) (test : ℕ → Bool) → each n i test ≡ true → i ≤ j → j < i + n → test j ≡ true
each-at zero i j test h lo hi = absurd (omega arith)
each-at (suc n) i j test h lo hi = elim (ℕ_discrete i j) [
  | yes same ↦ rw (sym same) (ground arith)
  | no other ↦ each-at n (i + 1) j test (ground arith) (omega arith) (omega arith)
]

abbrev split_free : ℕ → Bool
split_free j = leb 16 (j + 2) && ltb j 18

abbrev split_test : ℕ → Bool
split_test j = if bitmap_is_set split_ctx j == 0 then split_free j else not (split_free j)

split_ctx-test : each 40 0 split_test ≡ true
unfolding bitmap_is_set is_set_of bytes_is_set
split_ctx-test = refl

split_ctx-free : (j : ℕ) → j < 40 → (bitmap_is_set split_ctx j ≡ 0) ↔ (16 ≤ j + 2) × (j < 18)
split_ctx-free j lt =
    let test = each-at 40 0 j split_test split_ctx-test (omega arith) lt in
    (ground arith, ground arith)

find_free_across_hint_example :
    (find_free split_ctx beyond 3 ≡ err nospc)
    × (14 + 3 ≤ total_blocks split_ctx)
    × ((j : ℕ) → 14 ≤ j → j < 14 + 3 → bitmap_is_set split_ctx j ≡ 0)
find_free_across_hint_example =
    find_free_across_hint beyond 3 2 2 split_ctx-IsLoaded beyond_small (omega arith) (omega arith)
      (omega arith) (omega arith) (omega arith) split_ctx-free
