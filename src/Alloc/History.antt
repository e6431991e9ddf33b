-- ===== src/Alloc/History.antt =====
-- Any sequence of calls of the allocator (src/lib/btree.c, src/lib/bitmap.c), from any threads, with
-- the runs that are handed out and not yet given back.
use obmafs.Prelude.{
  ℕ, ◌+◌, ◌/◌, ◌≤◌, ◌<◌, ◌≡◌, ◌≢◌, ◌⊎◌, inl, inr, Option, none, some, if◌then◌else◌, ◌==◌, arith,
  dec_lt, subst, sym, ap,
}
use obmafs.Context.{Ctx, total_blocks, ok, err, Error}
use obmafs.Bitmap.{bitmap_is_set}
use obmafs.Alloc.{alloc_blocks, free_blocks}
use obmafs.Alloc.Safety.{
  IsValid, Allocated, AllocSpec, alloc_blocks-AllocSpec, Released, free_blocks-Released,
}

pub record Span : Type 0 where
  pub start : ℕ
  pub count : ℕ

abbrev pub span : ℕ → ℕ → Span
span s n = record { start = s; count = n }

-- The volume, and the run that each ticket stands for.
pub record World : Type 0 where
  pub ctx : Ctx
  pub live : ℕ → Option Span

abbrev pub update : (ℕ → Option Span) → ℕ → Option Span → ℕ → Option Span
update f k v j = if k == j then v else f j

abbrev pub world : Ctx → (ℕ → Option Span) → World
world ctx live = record { ctx = ctx; live = live }

-- A caller asks for blocks, and gets a new ticket or an error; or it gives a run back.
pub data Step : World → World → Type 0 where
  take :
      (w : World) (beyond : ℕ → ℕ) (count k : ℕ) {ctx' : Ctx} {s : ℕ}
      → ((i : ℕ) → beyond i < 256)
      → 0 < count
      → w.live k ≡ none
      → alloc_blocks beyond w.ctx count ≡ (ctx', ok s)
      → Step w (world ctx' (update w.live k (some (span s count))))
  refuse :
      (w : World) (beyond : ℕ → ℕ) (count : ℕ) {ctx' : Ctx} {e : Error}
      → ((i : ℕ) → beyond i < 256)
      → 0 < count
      → alloc_blocks beyond w.ctx count ≡ (ctx', err e)
      → Step w (world ctx' w.live)
  give_back :
      (w : World) (k : ℕ) {s count : ℕ}
      → w.live k ≡ some (span s count)
      → Step w (world (free_blocks w.ctx s count).0 (update w.live k none))

pub data Reach (w : World) : World → Type 0 where
  here : Reach w w
  next : {u v : World} → Reach w u → Step u v → Reach w v

-- Every run that is handed out is inside the volume and marked, no block is handed out twice or
-- was in use at the start (`ctx₀`), and a block is marked only if it was at the start or is handed
-- out.
pub record IsSound (ctx₀ : Ctx) (w : World) : Type 0 where
  pub valid : IsValid w.ctx
  pub inside : (k s n : ℕ) → w.live k ≡ some (span s n) → s + n ≤ total_blocks w.ctx
  pub marked :
      (k s n j : ℕ) → w.live k ≡ some (span s n) → s ≤ j → j < s + n → bitmap_is_set w.ctx j ≡ 1
  pub apart :
      (k l s n t m j : ℕ)
      → w.live k ≡ some (span s n)
      → w.live l ≡ some (span t m)
      → s ≤ j
      → j < s + n
      → t ≤ j
      → j < t + m
      → k ≡ l
  pub kept : (j : ℕ) → bitmap_is_set ctx₀ j ≢ 0 → bitmap_is_set w.ctx j ≢ 0
  pub reserved :
      (k s n j : ℕ) → w.live k ≡ some (span s n) → s ≤ j → j < s + n → bitmap_is_set ctx₀ j ≡ 0
  pub accounted :
      (j : ℕ)
      → bitmap_is_set w.ctx j ≢ 0
      → (bitmap_is_set ctx₀ j ≢ 0)
        ⊎ ((k : ℕ) × (s : ℕ) × (n : ℕ) × (w.live k ≡ some (span s n)) × (s ≤ j) × (j < s + n))

module _ (ctx₀ : Ctx) {w : World} (h : IsSound ctx₀ w) where
  take-IsSound :
      {ctx' : Ctx} (count k s : ℕ)
      → w.live k ≡ none
      → Allocated w.ctx count s ctx'
      → IsSound ctx₀ (world ctx' (update w.live k (some (span s count))))
  take-IsSound {ctx'} count k s unused a = record {
    valid = a.valid;
    inside = λ l t m e.
        ground (arith, h.inside l t m, a.inside, ap (λ sb. sb.total_bytes / sb.block_size) a.sb);
    marked = λ l t m j e x y. ground (arith, h.marked l t m j, a.now_used j, a.same j);
    apart = λ l l' t m t' m' j p q x y x' y'.
        ground
          (arith, h.apart l l' t m t' m' j, h.marked l t m j, h.marked l' t' m' j, a.was_free j);
    kept = λ j p. ground (arith, a.same j, a.now_used j, h.kept j p);
    reserved = λ l t m j e x y. ground (arith, h.reserved l t m j, a.was_free j, h.kept j);
    accounted = λ j p. elim (dec_lt j s) [
      | yes below ↦ old (h.accounted j (ground (arith, a.same j)))
      | no from ↦ elim (dec_lt j (s + count)) [
        | yes new ↦ inr (k, s, count, ground arith, omega arith, new)
        | no beyond ↦ old (h.accounted j (ground (arith, a.same j)))
      ]
    ];
  }
    where
      old :
          {j : ℕ}
          → (bitmap_is_set ctx₀ j ≢ 0)
            ⊎ ((l : ℕ) × (t : ℕ) × (m : ℕ) × (w.live l ≡ some (span t m)) × (t ≤ j) × (j < t + m))
          → (bitmap_is_set ctx₀ j ≢ 0)
            ⊎ ((l : ℕ) × (t : ℕ) × (m : ℕ) × (update w.live k (some (span s count)) l
                  ≡ some (span t m))
                × (t ≤ j)
                × (j < t + m))
      old (inl p) = inl p
      old (inr (l, t, m, e, x, y)) = inr (l, t, m, ground arith, x, y)

  give_back-IsSound :
      {ctx' : Ctx} (k s n : ℕ)
      → w.live k ≡ some (span s n)
      → Released w.ctx s n ctx'
      → IsSound ctx₀ (world ctx' (update w.live k none))
  give_back-IsSound {ctx'} k s n held r = record {
    valid = r.valid;
    inside =
        λ l t m e. ground (arith, h.inside l t m, ap (λ sb. sb.total_bytes / sb.block_size) r.sb);
    marked = λ l t m j e x y. ground (arith, h.marked l t m j, h.apart k l s n t m j, r.same j);
    apart = λ l l' t m t' m' j p q x y x' y'. ground (arith, h.apart l l' t m t' m' j);
    kept = λ j p. ground (arith, r.same j, h.reserved k s n j, h.kept j p);
    reserved = λ l t m j e x y. ground (arith, h.reserved l t m j);
    accounted = λ j p. elim (dec_lt j s) [
      | yes below ↦ old (omega arith) (h.accounted j (ground (arith, r.same j)))
      | no from ↦ elim (dec_lt j (s + n)) [
        | yes freed ↦ absurd (ground (arith, r.now_free j))
        | no beyond ↦ old (omega arith) (h.accounted j (ground (arith, r.same j)))
      ]
    ];
  }
    where
      old :
          {j : ℕ}
          → (s ≤ j → j < s + n → ⊥)
          → (bitmap_is_set ctx₀ j ≢ 0)
            ⊎ ((l : ℕ) × (t : ℕ) × (m : ℕ) × (w.live l ≡ some (span t m)) × (t ≤ j) × (j < t + m))
          → (bitmap_is_set ctx₀ j ≢ 0)
            ⊎ ((l : ℕ) × (t : ℕ) × (m : ℕ) × (update w.live k none l ≡ some (span t m))
                × (t ≤ j)
                × (j < t + m))
      old out (inl p) = inl p
      old out (inr (l, t, m, e, x, y)) = inr (l, t, m, ground arith, x, y)

-- Nothing is handed out at the start.
abbrev pub start : Ctx → World
start ctx = world ctx (λ k. none)

start-IsSound : {ctx : Ctx} → IsValid ctx → IsSound ctx (start ctx)
start-IsSound v = record {
  valid = v;
  inside = λ k s n e. cc;
  marked = λ k s n j e x y. cc;
  apart = λ k l s n t m j p q x y x' y'. cc;
  kept = λ j p. p;
  reserved = λ k s n j e x y. cc;
  accounted = λ j p. inl p;
}

Step-IsSound : {ctx₀ : Ctx} {w v : World} → Step w v → IsSound ctx₀ w → IsSound ctx₀ v
Step-IsSound {ctx₀} (take w beyond count k {ctx'} {s} small positive unused e) h =
    take-IsSound ctx₀ h count k s unused
      (subst (AllocSpec w.ctx count) e (alloc_blocks-AllocSpec beyond count h.valid small positive))
Step-IsSound {ctx₀} (refuse w beyond count small positive e) h =
    let failed =
      subst (AllocSpec w.ctx count) e
        (alloc_blocks-AllocSpec beyond count h.valid small positive) in
    subst (λ c. IsSound ctx₀ (world c w.live)) (sym failed.1) h
Step-IsSound {ctx₀} (give_back w k {s} {count} held) h =
    give_back-IsSound ctx₀ h k s count held
      (free_blocks-Released s count h.valid (h.inside k s count held))

-- Whatever the callers do, in any order: each run that is handed out and not given back lies
-- inside the volume and is marked as allocated, no two of them share a block, none contains a
-- block that was in use at the start, such blocks stay in use, and every block in use was so at
-- the start or belongs to a run.
pub Reach-IsSound : {ctx : Ctx} {w : World} → IsValid ctx → Reach (start ctx) w → IsSound ctx w
Reach-IsSound v here = start-IsSound v
Reach-IsSound v (next r st) = Step-IsSound st (Reach-IsSound v r)
