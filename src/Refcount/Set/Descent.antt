-- ===== src/Refcount/Set/Descent.antt =====
-- The walks of `obmafs3_refcount_set` (src/lib/refcount.c) down a whole tree come to the one leaf
-- that has the block, and a write to this leaf changes no other part of the tree.
use obmafs.Prelude.{
  ℕ, zero, suc, ◌+◌, ◌<◌, ◌≤◌, ◌≡◌, ◌≢◌, ◌↔◌, refl, ◌∙◌, sym, subst, Bool, true, some, List, ◌∷◌,
  ltb, ◌==◌, arith, ℕ_discrete,
}
use obmafs.Context.{Ctx, ok}
use obmafs.Device.{Device, block_read}
use obmafs.Refcount.{node_magic, node_field, level_of, keys_of, entry_key, entry_child}
use obmafs.Refcount.Search.{index_find_lem}
use obmafs.Refcount.Tree.{
  IsLeaf, IsIndex, child_start, child_end, child_start-le, Content, Content-same, IsTree, Holds,
  Holds-child,
}
use obmafs.Refcount.Node.Records.{Records}
use obmafs.Refcount.Set.{Trail, slot_in, step_down, step_path, walk_down, descend}
use obmafs.Refcount.Set.Kept.{IsPlaced, IsSeparate, SameElse, index-ne, IsTree-kept}
use obmafs.Refcount.Set.Spot.{IsSpot, Spot, leaf-Spot}

module _ (dev : Device) (xxh64 : List ℕ → ℕ) (beyond : ℕ → ℕ) (mem : ℕ → Bool) (ctx : Ctx)
    (d : dev.Disk) where
  -- An index node whose child has the leaf.
  module _ (height lo hi x lba s cur low high : ℕ) (buf leaf : List ℕ)
      (read : Content dev ctx d x buf) (node : IsIndex (IsTree dev ctx d height) lo hi buf)
      (placed : IsPlaced dev ctx d (suc height) x) (separate : IsSeparate dev ctx d (suc height) x)
      (inside : s < keys_of buf)
      (r : IsSpot dev xxh64 beyond mem ctx d height
        (child_start lo buf s)
        (child_end hi buf s)
        (entry_child buf s)
        lba
        cur
        low
        high
        leaf) where
    low_in : child_start lo buf s ≤ low
    low_in = r.within.0

    high_in : high ≤ child_end hi buf s
    high_in = r.within.1

    module _ (d' : dev.Disk) (same : SameElse dev ctx d d' cur) where
      same_node :
          block_read dev ctx d' x ctx.sb.block_size ≡ block_read dev ctx d x ctx.sb.block_size
      same_node =
          same x placed.0
            (index-ne dev ctx d d' cur leaf same r.read r.leaf.level height lo hi x buf read node)

      other_child :
          (i : ℕ)
          → i < keys_of buf
          → i ≢ s
          → IsTree dev ctx d' height (child_start lo buf i) (child_end hi buf i) (entry_child buf i)
            × ((k v : ℕ)
                → Holds dev ctx d' height (entry_child buf i) k v
                  ↔ Holds dev ctx d height (entry_child buf i) k v)
      other_child i i_in other =
          IsTree-kept dev ctx d d' cur leaf same r.read r.leaf.level height (child_start lo buf i)
            (child_end hi buf i) (entry_child buf i) (node.children i i_in)
            (placed.1 buf read i i_in)
            (λ has. (separate buf read).1 i s cur i_in inside other has r.has)

      module _ (leaf' : List ℕ) (read' : Content dev ctx d' cur leaf')
          (is_leaf : IsLeaf low high leaf') where
        node_kept : IsIndex (IsTree dev ctx d' height) lo hi buf
        node_kept = record {
          magic = node.magic;
          level = node.level;
          some_key = node.some_key;
          small = node.small;
          up = node.up;
          range = node.range;
          children = λ i i_in. elim (ℕ_discrete i s) [
            | yes e ↦
                subst
                  (λ j.
                    IsTree dev ctx d' height (child_start lo buf j) (child_end hi buf j)
                      (entry_child buf j))
                  (sym e) (r.tree d' leaf' same read' is_leaf)
            | no other ↦ (other_child i i_in other).0
          ];
        }

        inner_kept :
            (k v : ℕ) → low ≤ k → k < high → Holds dev ctx d' (suc height) x k v ↔ Records leaf' k v
        inner_kept k v above below = (
          λ h. (r.inner d' leaf' same read' is_leaf k v above below).0 (
              Holds-child dev ctx d' height lo hi x s k v buf (same_node ∙ read) node_kept inside
                (omega (arith, low_in)) (omega (arith, high_in)) h),
          λ rec. (
            buf,
            same_node ∙ read,
            (s, inside, (r.inner d' leaf' same read' is_leaf k v above below).1 rec),
          ),
        )

        child_kept :
            (k v : ℕ)
            → ((low ≤ k) × (k < high) → ⊥)
            → (i : ℕ) → i < keys_of buf
            → Holds dev ctx d' height (entry_child buf i) k v
              ↔ Holds dev ctx d height (entry_child buf i) k v
        child_kept k v out i i_in = elim (ℕ_discrete i s) [
          | yes e ↦
              subst
                (λ j.
                  Holds dev ctx d' height (entry_child buf j) k v
                  ↔ Holds dev ctx d height (entry_child buf j) k v)
                (sym e) (r.outer d' leaf' same read' is_leaf k v out)
          | no other ↦ (other_child i i_in other).1 k v
        ]

        outer_kept :
            (k v : ℕ)
            → ((low ≤ k) × (k < high) → ⊥)
            → Holds dev ctx d' (suc height) x k v ↔ Holds dev ctx d (suc height) x k v
        outer_kept k v out = (
          λ h.
              let one : h.0 ≡ buf = Content-same dev ctx d x (sym same_node ∙ h.1) read in
              let i_in : h.2.0 < keys_of buf = subst (λ b. h.2.0 < keys_of b) (one) h.2.1 in
              (
                buf,
                read,
                (
                  h.2.0,
                  i_in,
                  (child_kept k v out h.2.0 i_in).0
                      (subst (λ b. Holds dev ctx d' height (entry_child b h.2.0) k v) (one) h.2.2),
                ),
              ),
          λ h.
              let one : h.0 ≡ buf = Content-same dev ctx d x h.1 read in
              let i_in : h.2.0 < keys_of buf = subst (λ b. h.2.0 < keys_of b) (one) h.2.1 in
              (
                buf,
                same_node ∙ read,
                (
                  h.2.0,
                  i_in,
                  (child_kept k v out h.2.0 i_in).1
                      (subst (λ b. Holds dev ctx d height (entry_child b h.2.0) k v) (one) h.2.2),
                ),
              ),
        )

    module _ (slot : slot_in buf lba ≡ s) where
      magic_of : (node_field buf 0 == node_magic) ≡ true
      magic_of = ground (arith, node.magic)

      index_of : ltb 0 (level_of buf) ≡ true
      index_of = ground (arith, node.level)

      walked :
          (rounds : ℕ)
          → suc height < rounds
          → walk_down dev xxh64 beyond mem rounds ctx d lba x ≡ some (ok (cur, leaf))
      unfolding walk_down step_down
      walked zero deep = absurd (omega arith)
      walked (suc rounds) deep = rw (read, index_of, step_down, slot) (r.walk rounds (omega arith))

      found :
          (left : ℕ) (trail : Trail)
          → suc height ≤ left
          → (trail' : Trail) × (descend dev xxh64 beyond mem left ctx d trail lba x
              ≡ ok (trail', (cur, leaf)))
      unfolding descend step_path
      found zero trail deep = absurd (omega arith)
      found (suc left) trail deep =
          let rest = r.path left ((x, s) ∷ trail) (omega arith) in
          (rest.0, rw (read, magic_of, index_of, step_path, slot) rest.1)

      index-Spot : IsSpot dev xxh64 beyond mem ctx d (suc height) lo hi x lba cur low high leaf
      index-Spot =
          let outer_range = child_start-le dev ctx d lo hi buf node s inside in
          record {
            read = r.read;
            leaf = r.leaf;
            around = r.around;
            within = (omega (arith, low_in, outer_range), omega (arith, high_in, outer_range));
            placed = r.placed;
            has = (buf, read, (s, inside, r.has));
            walk = walked;
            path = found;
            own = λ k v above below. (
              λ h. (r.own k v above below).0 (
                  Holds-child dev ctx d height lo hi x s k v buf read node inside
                    (omega (arith, low_in)) (omega (arith, high_in)) h),
              λ rec. (buf, read, (s, inside, (r.own k v above below).1 rec)),
            );
            tree = λ d' leaf' same read' is_leaf.
                (buf, same_node d' same ∙ read, node_kept d' same leaf' read' is_leaf);
            inner = λ d' leaf' same read' is_leaf. inner_kept d' same leaf' read' is_leaf;
            outer = λ d' leaf' same read' is_leaf. outer_kept d' same leaf' read' is_leaf;
          }

  pub IsTree-Spot :
      (height lo hi x lba : ℕ)
      → IsTree dev ctx d height lo hi x
      → IsPlaced dev ctx d height x
      → IsSeparate dev ctx d height x
      → lo ≤ lba
      → lba < hi
      → Spot dev xxh64 beyond mem ctx d height lo hi x lba
  IsTree-Spot zero lo hi x lba (buf, read, leaf) placed separate low high = (
    x,
    lo,
    hi,
    buf,
    leaf-Spot dev xxh64 beyond mem ctx d lo hi x lba buf read leaf placed low high,
  )
  IsTree-Spot (suc height) lo hi x lba (buf, read, node) placed separate low high =
      let n = keys_of buf in
      let s = slot_in buf lba in
      let child = index_find_lem (entry_key buf) n lba node.up node.some_key node.small in
      let starts : child_start lo buf s ≤ lba = ground (arith, child.starts) in
      let ends : lba < child_end hi buf s = ground (arith, child.ends (s + 1)) in
      let (cur, low', high', leaf, r) =
        IsTree-Spot height (child_start lo buf s) (child_end hi buf s) (entry_child buf s) lba
          (node.children s child.inside) (placed.1 buf read s child.inside)
          ((separate buf read).0 s child.inside) starts ends in
      (
        cur,
        low',
        high',
        leaf,
        index-Spot height lo hi x lba s cur low' high' buf leaf read node placed separate
            child.inside r refl,
      )
