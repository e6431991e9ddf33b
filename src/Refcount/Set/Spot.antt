-- ===== src/Refcount/Set/Spot.antt =====
-- The leaf that `obmafs3_refcount_set` (src/lib/refcount.c) comes to, and the tree after a write to it.
use obmafs.Prelude.{
  ℕ, zero, suc, ◌<◌, ◌≤◌, ◌≡◌, ◌↔◌, refl, subst, Bool, true, false, some, List, ltb, ◌==◌, arith,
}
use obmafs.Context.{Ctx, total_blocks, ok}
use obmafs.Device.{Device}
use obmafs.Refcount.{node_magic, node_field, level_of}
use obmafs.Refcount.Tree.{IsLeaf, Content, Content-same, IsTree, Holds}
use obmafs.Refcount.Node.Records.{Records}
use obmafs.Refcount.Set.{Trail, step_down, step_path, walk_down, descend}
use obmafs.Refcount.Set.Kept.{HasLeaf, SameElse}

module _ (dev : Device) (xxh64 : List ℕ → ℕ) (beyond : ℕ → ℕ) (mem : ℕ → Bool) (ctx : Ctx)
    (d : dev.Disk) where
  -- The leaf for `lba`, reached by both walks, and what follows for the tree when only this leaf
  -- changes.
  pub record IsSpot (height lo hi x lba cur low high : ℕ) (buf : List ℕ) : Type 0 where
    pub read : Content dev ctx d cur buf
    pub leaf : IsLeaf low high buf
    pub around : (low ≤ lba) × (lba < high)
    pub within : (lo ≤ low) × (high ≤ hi)
    pub placed : cur < total_blocks ctx
    pub has : HasLeaf dev ctx d height x cur
    pub walk :
        (rounds : ℕ)
        → height < rounds
        → walk_down dev xxh64 beyond mem rounds ctx d lba x ≡ some (ok (cur, buf))
    pub path :
        (left : ℕ) (trail : Trail)
        → height ≤ left
        → (trail' : Trail) × (descend dev xxh64 beyond mem left ctx d trail lba x
            ≡ ok (trail', (cur, buf)))
    pub own : (k v : ℕ) → low ≤ k → k < high → Holds dev ctx d height x k v ↔ Records buf k v
    pub tree :
        (d' : dev.Disk) (buf' : List ℕ)
        → SameElse dev ctx d d' cur
        → Content dev ctx d' cur buf'
        → IsLeaf low high buf'
        → IsTree dev ctx d' height lo hi x
    pub inner :
        (d' : dev.Disk) (buf' : List ℕ)
        → SameElse dev ctx d d' cur
        → Content dev ctx d' cur buf'
        → IsLeaf low high buf'
        → (k v : ℕ) → low ≤ k
        → k < high
        → Holds dev ctx d' height x k v ↔ Records buf' k v
    pub outer :
        (d' : dev.Disk) (buf' : List ℕ)
        → SameElse dev ctx d d' cur
        → Content dev ctx d' cur buf'
        → IsLeaf low high buf'
        → (k v : ℕ) → ((low ≤ k) × (k < high) → ⊥)
        → Holds dev ctx d' height x k v ↔ Holds dev ctx d height x k v

  abbrev pub Spot : (height lo hi x lba : ℕ) → Type 0
  Spot height lo hi x lba =
      (cur : ℕ) × (low : ℕ) × (high : ℕ) × (buf : List ℕ) × IsSpot height lo hi x lba cur low high
        buf

  leaf-Holds :
      (e : dev.Disk) (x : ℕ) (buf : List ℕ)
      → Content dev ctx e x buf
      → (k v : ℕ) → Holds dev ctx e 0 x k v ↔ Records buf k v
  leaf-Holds e x buf read k v =
      (λ h. subst (λ b. Records b k v) (Content-same dev ctx e x h.1 read) h.2, λ r. (buf, read, r))

  pub leaf-Spot :
      (lo hi x lba : ℕ) (buf : List ℕ)
      → Content dev ctx d x buf
      → IsLeaf lo hi buf
      → x < total_blocks ctx
      → lo ≤ lba
      → lba < hi
      → IsSpot 0 lo hi x lba x lo hi buf
  unfolding walk_down descend step_down step_path
  leaf-Spot lo hi x lba buf read leaf placed low high = record {
    read = read;
    leaf = leaf;
    around = (low, high);
    within = (omega arith, omega arith);
    placed = placed;
    has = refl;
    walk = λ rounds deep. walked rounds deep;
    path = λ left trail deep. (trail, found left trail);
    own = λ k v a b. leaf-Holds d x buf read k v;
    tree = λ d' buf' same read' leaf'. (buf', read', leaf');
    inner = λ d' buf' same read' leaf' k v a b. leaf-Holds d' x buf' read' k v;
    outer = λ d' buf' same read' leaf' k v out. (
      λ h. absurd (out (inside leaf' k v ((leaf-Holds d' x buf' read' k v).0 h))),
      λ h. absurd (out (inside leaf k v ((leaf-Holds d x buf read k v).0 h))),
    );
  }
    where
      magic_of : (node_field buf 0 == node_magic) ≡ true
      magic_of = ground (arith, leaf.magic)

      flat_of : ltb 0 (level_of buf) ≡ false
      flat_of = ground (arith, leaf.level)

      walked :
          (rounds : ℕ)
          → 0 < rounds
          → walk_down dev xxh64 beyond mem rounds ctx d lba x ≡ some (ok (x, buf))
      walked zero deep = absurd (omega arith)
      walked (suc rounds) deep = rw (read, flat_of, step_down)

      found :
          (left : ℕ) (trail : Trail)
          → descend dev xxh64 beyond mem left ctx d trail lba x ≡ ok (trail, (x, buf))
      found zero trail = rw (read, magic_of, flat_of, step_path)
      found (suc left) trail = rw (read, magic_of, flat_of, step_path)

      inside : {b : List ℕ} → IsLeaf lo hi b → (k v : ℕ) → Records b k v → (lo ≤ k) × (k < hi)
      inside l k v (i, i_in, key, val) = let r = l.range i i_in in (omega arith, omega arith)
