-- ===== src/Alloc/Safety.antt =====
-- What one allocation or release does to the volume.
use obmafs.Prelude.{
  ℕ, ◌+◌, ◌≤◌, ◌<◌, ◌≡◌, ◌⊎◌, inl, inr, refl, List, ltb, leb, if◌then◌else◌, ◌&&◌, u64, arith,
  Bool-cases, ◌∙◌,
}
use obmafs.Context.{Ctx, total_blocks, Result, ok, err, nospc}
use obmafs.Bitmap.{bitmap_set, bitmap_clear, bitmap_is_set, bit_loop, set_bit, clear_bit}
use obmafs.Bitmap.Marking.{is_set-bitmap_set, is_set-bitmap_clear}
use obmafs.Bitmap.Bytes.{
  small-set_loop, small-clear_loop, bitmap_set-bytes, bitmap_clear-bytes, length-set_loop,
  length-clear_loop,
}
use obmafs.Bitmap.Search.{find_free}
use obmafs.Bitmap.Search.FindFree.{IsLoaded, NoRun, Answers, find_free_lem}
use obmafs.Alloc.{raise_hint, take_run, alloc_blocks, free_blocks}

-- The context with its bitmap bytes, whatever they are.
abbrev pub IsValid : Ctx → Type 0
IsValid ctx = (bytes : List ℕ) × IsLoaded ctx bytes

-- Block `j` is one of the `count` blocks from `s`.
abbrev pub InRun : (s count j : ℕ) → Type 0
InRun s count j = (s ≤ j) × (j < s + count)

IsValid-bitmap_set : {ctx : Ctx} (lba count : ℕ) → IsValid ctx → IsValid (bitmap_set ctx lba count)
IsValid-bitmap_set {ctx} lba count (bytes, h) = rw (bitmap_set-bytes ctx bytes lba count h.loaded) (
  bit_loop (set_bit ctx.bitmap_size) count lba bytes,
  record {
    loaded = refl;
    in_memory = omega (arith, h.in_memory, length-set_loop ctx.bitmap_size count lba bytes);
    small = small-set_loop ctx.bitmap_size count lba bytes h.small;
    covers = h.covers;
    bound = h.bound;
  },
)

IsValid-bitmap_clear :
    {ctx : Ctx} (lba count : ℕ) → IsValid ctx → IsValid (bitmap_clear ctx lba count)
IsValid-bitmap_clear {ctx} lba count (bytes, h) =
    rw (bitmap_clear-bytes ctx bytes lba count h.loaded) (
      bit_loop (clear_bit ctx.bitmap_size) count lba bytes,
      record {
        loaded = refl;
        in_memory = omega (arith, h.in_memory, length-clear_loop ctx.bitmap_size count lba bytes);
        small = small-clear_loop ctx.bitmap_size count lba bytes h.small;
        covers = h.covers;
        bound = h.bound;
      },
    )

-- What a successful allocation of the `count` blocks from `s` did.
pub record Allocated (ctx : Ctx) (count s : ℕ) (ctx' : Ctx) : Type 0 where
  pub inside : s + count ≤ total_blocks ctx
  pub was_free : (j : ℕ) → s ≤ j → j < s + count → bitmap_is_set ctx j ≡ 0
  pub now_used : (j : ℕ) → s ≤ j → j < s + count → bitmap_is_set ctx' j ≡ 1
  pub same : (j : ℕ) → (j < s) ⊎ (s + count ≤ j) → bitmap_is_set ctx' j ≡ bitmap_is_set ctx j
  pub sb : ctx'.sb ≡ ctx.sb
  pub valid : IsValid ctx'

abbrev pub AllocSpec : Ctx → ℕ → Ctx × Result ℕ → Type 0
AllocSpec ctx count (ctx', ok s) = Allocated ctx count s ctx'
AllocSpec ctx count (ctx', err e) = (e ≡ nospc) × (ctx' ≡ ctx) × NoRun ctx count

is_set-raise_hint :
    (ctx : Ctx) (end j : ℕ) → bitmap_is_set (raise_hint ctx end) j ≡ bitmap_is_set ctx j
unfolding raise_hint bitmap_is_set
is_set-raise_hint ctx end j = elim (Bool-cases (ltb ctx.next_free_lba end)) [
  | inl later ↦ rw later
  | inr kept ↦ rw kept
]

sb-raise_hint : (ctx : Ctx) (end : ℕ) → (raise_hint ctx end).sb ≡ ctx.sb
unfolding raise_hint
sb-raise_hint ctx end = ground arith

IsValid-raise_hint : {ctx : Ctx} (end : ℕ) → IsValid ctx → IsValid (raise_hint ctx end)
unfolding raise_hint
IsValid-raise_hint {ctx} end v = elim (Bool-cases (ltb ctx.next_free_lba end)) [
  | inr kept ↦ rw kept v
  | inl later ↦ rw later (
    v.0,
    record {
      loaded = v.1.loaded;
      in_memory = v.1.in_memory;
      small = v.1.small;
      covers = v.1.covers;
      bound = v.1.bound;
    },
  )
]

sb-bitmap_set : {ctx : Ctx} (lba count : ℕ) → IsValid ctx → (bitmap_set ctx lba count).sb ≡ ctx.sb
sb-bitmap_set {ctx} lba count (bytes, h) = rw (bitmap_set-bytes ctx bytes lba count h.loaded)

-- A valid bitmap covers each block of the volume.
is_set-set_inside :
    {ctx : Ctx} (s count j : ℕ)
    → IsValid ctx
    → s + count ≤ total_blocks ctx
    → bitmap_is_set (bitmap_set ctx s count) j
      ≡ (if leb s j && ltb j (s + count) then 1 else bitmap_is_set ctx j)
is_set-set_inside {ctx} s count j (bytes, h) inside = ground (
  arith,
  is_set-bitmap_set ctx bytes s count j (h.loaded, h.in_memory) (omega (arith, h.bound)),
  h.covers,
)

take_run-AllocSpec :
    {ctx : Ctx} (count : ℕ)
    → IsValid ctx
    → (r : Result ℕ) → Answers ctx count r
    → AllocSpec ctx count (take_run ctx count r)
unfolding take_run
take_run-AllocSpec count v (err e) a = (a.0, refl, a.1)
take_run-AllocSpec {ctx} count v (ok s) a = record {
  inside = a.inside;
  was_free = a.all_free;
  now_used = λ j x y. rw is_set-raise_hint (ground (arith, is_set-set_inside s count j v a.inside));
  same = λ j out. rw is_set-raise_hint (ground (arith, is_set-set_inside s count j v a.inside));
  sb = sb-raise_hint (bitmap_set ctx s count) (u64 (s + count)) ∙ sb-bitmap_set s count v;
  valid = IsValid-raise_hint (u64 (s + count)) (IsValid-bitmap_set s count v);
}

-- `obmafs3_alloc_blocks` hands out `count` blocks inside the volume that were all free, marks
-- these and no others, and keeps the bitmap valid; the only error is OBMAFS3_ERR_NOSPC, where no
-- run is free on either side of the hint, and it changes nothing.
pub alloc_blocks-AllocSpec :
    {ctx : Ctx} (beyond : ℕ → ℕ) (count : ℕ)
    → IsValid ctx
    → ((i : ℕ) → beyond i < 256)
    → 0 < count
    → AllocSpec ctx count (alloc_blocks beyond ctx count)
unfolding alloc_blocks
alloc_blocks-AllocSpec {ctx} beyond count v small positive =
    take_run-AllocSpec count v (find_free ctx beyond count)
      (find_free_lem beyond count v.1 small positive)

-- What a release of the `count` blocks from `lba` does.
pub record Released (ctx : Ctx) (lba count : ℕ) (ctx' : Ctx) : Type 0 where
  pub now_free : (j : ℕ) → lba ≤ j → j < lba + count → bitmap_is_set ctx' j ≡ 0
  pub same : (j : ℕ) → (j < lba) ⊎ (lba + count ≤ j) → bitmap_is_set ctx' j ≡ bitmap_is_set ctx j
  pub sb : ctx'.sb ≡ ctx.sb
  pub valid : IsValid ctx'

-- `obmafs3_free_blocks` frees the `count` blocks from `lba` and no others.
pub free_blocks-Released :
    {ctx : Ctx} (lba count : ℕ)
    → IsValid ctx
    → lba + count ≤ total_blocks ctx
    → Released ctx lba count (free_blocks ctx lba count).0
unfolding free_blocks
free_blocks-Released {ctx} lba count v inside =
    let (bytes, h) = v in
    let bits = λ (j : ℕ).
      is_set-bitmap_clear ctx bytes lba count j (h.loaded, h.in_memory) (omega (arith, h.bound)) in
    record {
      now_free = λ j x y. ground (arith, bits j);
      same = λ j out. ground (arith, bits j);
      sb = rw (bitmap_clear-bytes ctx bytes lba count h.loaded);
      valid = IsValid-bitmap_clear lba count v;
    }
