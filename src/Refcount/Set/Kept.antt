-- ===== src/Refcount/Set/Kept.antt =====
-- Trees on the disk (src/lib/refcount.c) whose blocks lie in the volume and are not shared, and the
-- parts of them that a write to one leaf leaves alone.
use obmafs.Prelude.{ℕ, zero, suc, ◌<◌, ◌≡◌, ◌≢◌, ◌↔◌, ◌∙◌, ap, sym, subst, List, arith}
use obmafs.Context.{Ctx, total_blocks}
use obmafs.Device.{Device, block_read}
use obmafs.Refcount.{level_of, keys_of, entry_child}
use obmafs.Refcount.Tree.{IsIndex, child_start, child_end, Content, Content-same, IsTree, Holds}

module _ (dev : Device) (ctx : Ctx) where
  open dev use {Disk}

  module _ (d : Disk) where
    -- Every node is a block of the volume.
    abbrev pub IsPlaced : (height x : ℕ) → Type 0
    IsPlaced zero x = x < total_blocks ctx
    IsPlaced (suc height) x =
        (x < total_blocks ctx)
        × ((buf : List ℕ)
            → Content dev ctx d x buf
            → (i : ℕ) → i < keys_of buf
            → IsPlaced height (entry_child buf i))

    -- The leaf at the block `b` belongs to the tree.
    abbrev pub HasLeaf : (height x b : ℕ) → Type 0
    HasLeaf zero x b = x ≡ b
    HasLeaf (suc height) x b =
        (buf : List ℕ) × Content dev ctx d x buf
        × ((i : ℕ) × (i < keys_of buf) × HasLeaf height (entry_child buf i) b)

    -- No leaf belongs to two children.
    abbrev pub IsSeparate : (height x : ℕ) → Type 0
    IsSeparate zero x = Unit {0}
    IsSeparate (suc height) x =
        (buf : List ℕ)
        → Content dev ctx d x buf
        → ((i : ℕ) → i < keys_of buf → IsSeparate height (entry_child buf i))
          × ((i j b : ℕ)
              → i < keys_of buf
              → j < keys_of buf
              → i ≢ j
              → HasLeaf height (entry_child buf i) b
              → HasLeaf height (entry_child buf j) b
              → ⊥)

  -- `d'` has the blocks of `d`, but for `cur`.
  abbrev pub SameElse : (d d' : Disk) (cur : ℕ) → Type 0
  SameElse d d' cur =
      (y : ℕ)
      → y < total_blocks ctx
      → y ≢ cur
      → block_read dev ctx d' y ctx.sb.block_size ≡ block_read dev ctx d y ctx.sb.block_size

  module _ (d d' : Disk) (cur : ℕ) (leaf : List ℕ) (same : SameElse d d' cur)
      (read : Content dev ctx d cur leaf) (flat : level_of leaf ≡ 0) where
    -- An index node is not the leaf.
    pub index-ne :
        (height lo hi x : ℕ) (buf : List ℕ)
        → Content dev ctx d x buf
        → IsIndex (IsTree dev ctx d height) lo hi buf
        → x ≢ cur
    index-ne height lo hi x buf read_x node e =
        let one : buf ≡ leaf =
          Content-same dev ctx d cur (subst (λ y. Content dev ctx d y buf) (e) read_x) read in
        omega (arith, ap level_of one, node.level, flat)

    -- A tree without the leaf at `cur` stays, with its records.
    pub IsTree-kept :
        (height lo hi x : ℕ)
        → IsTree dev ctx d height lo hi x
        → IsPlaced d height x
        → (HasLeaf d height x cur → ⊥)
        → IsTree dev ctx d' height lo hi x
          × ((k v : ℕ) → Holds dev ctx d' height x k v ↔ Holds dev ctx d height x k v)
    IsTree-kept zero lo hi x (buf, read_x, l) placed away =
        let e = same x placed away in
        ((buf, e ∙ read_x, l), λ k v. (λ h. (h.0, sym e ∙ h.1, h.2), λ h. (h.0, e ∙ h.1, h.2)))
    IsTree-kept (suc height) lo hi x (buf, read_x, node) (placed, children) away =
        let e = same x placed (index-ne height lo hi x buf read_x node) in
        let child = λ (i : ℕ) (i_in : i < keys_of buf).
          IsTree-kept height (child_start lo buf i) (child_end hi buf i) (entry_child buf i)
            (node.children i i_in) (children buf read_x i i_in)
            (λ has. away (buf, read_x, (i, i_in, has))) in
        (
          (
            buf,
            e ∙ read_x,
            record {
              magic = node.magic;
              level = node.level;
              some_key = node.some_key;
              small = node.small;
              up = node.up;
              range = node.range;
              children = λ i i_in. (child i i_in).0;
            },
          ),
          λ k v. (
            λ h.
                let one : h.0 ≡ buf = Content-same dev ctx d x (sym e ∙ h.1) read_x in
                let i_in : h.2.0 < keys_of buf = subst (λ b. h.2.0 < keys_of b) (one) h.2.1 in
                (
                  buf,
                  read_x,
                  (
                    h.2.0,
                    i_in,
                    ((child h.2.0 i_in).1 k v).0 (
                        subst (λ b. Holds dev ctx d' height (entry_child b h.2.0) k v) (one) h.2.2),
                  ),
                ),
            λ h.
                let one : h.0 ≡ buf = Content-same dev ctx d x h.1 read_x in
                let i_in : h.2.0 < keys_of buf = subst (λ b. h.2.0 < keys_of b) (one) h.2.1 in
                (
                  buf,
                  e ∙ read_x,
                  (
                    h.2.0,
                    i_in,
                    ((child h.2.0 i_in).1 k v).1
                        (subst (λ b. Holds dev ctx d height (entry_child b h.2.0) k v) (one) h.2.2),
                  ),
                ),
          ),
        )
