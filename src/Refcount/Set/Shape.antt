-- ===== src/Refcount/Set/Shape.antt =====
-- A write to one leaf of a tree of reference counts (src/lib/refcount.c) leaves its index nodes, and
-- so its blocks, where they were.
use obmafs.Prelude.{ℕ, zero, suc, ◌<◌, ◌≡◌, ◌≢◌, ◌↔◌, ◌∙◌, sym, subst, List}
use obmafs.Context.{Ctx}
use obmafs.Device.{Device, block_read}
use obmafs.Refcount.{level_of, keys_of, entry_child}
use obmafs.Refcount.Tree.{IsIndex, child_start, child_end, Content, Content-same, IsTree}
use obmafs.Refcount.Set.Kept.{IsPlaced, HasLeaf, IsSeparate, SameElse, index-ne}

module _ (dev : Device) (ctx : Ctx) (d d' : dev.Disk) (cur : ℕ) (leaf : List ℕ)
    (same : SameElse dev ctx d d' cur) (read : Content dev ctx d cur leaf)
    (flat : level_of leaf ≡ 0) where
  abbrev pub IsShaped : (height x : ℕ) → Type 0
  IsShaped height x =
      IsPlaced dev ctx d' height x
      × IsSeparate dev ctx d' height x
      × ((b : ℕ) → HasLeaf dev ctx d' height x b ↔ HasLeaf dev ctx d height x b)

  module _ (height lo hi x : ℕ) (buf : List ℕ) (read_x : Content dev ctx d x buf)
      (node : IsIndex (IsTree dev ctx d height) lo hi buf)
      (placed : IsPlaced dev ctx d (suc height) x) (separate : IsSeparate dev ctx d (suc height) x)
      (child : (i : ℕ) → i < keys_of buf → IsShaped height (entry_child buf i)) where
    kept : block_read dev ctx d' x ctx.sb.block_size ≡ block_read dev ctx d x ctx.sb.block_size
    kept =
        same x placed.0
          (index-ne dev ctx d d' cur leaf same read flat height lo hi x buf read_x node)

    only : (b : List ℕ) → Content dev ctx d' x b → b ≡ buf
    only b read' = Content-same dev ctx d x (sym kept ∙ read') read_x

    index-IsPlaced : IsPlaced dev ctx d' (suc height) x
    index-IsPlaced = (
      placed.0,
      λ buf' read' i i_in.
          let one = only buf' read' in
          subst (λ b. IsPlaced dev ctx d' height (entry_child b i)) (sym one)
            (child i (subst (λ b. i < keys_of b) one i_in)).0,
    )

    abbrev Apart : List ℕ → Type 0
    Apart c =
        ((i : ℕ) → i < keys_of c → IsSeparate dev ctx d' height (entry_child c i))
        × ((i j b : ℕ)
            → i < keys_of c
            → j < keys_of c
            → i ≢ j
            → HasLeaf dev ctx d' height (entry_child c i) b
            → HasLeaf dev ctx d' height (entry_child c j) b
            → ⊥)

    index-IsSeparate : IsSeparate dev ctx d' (suc height) x
    index-IsSeparate buf' read' =
        subst (λ c. Apart c) (sym (only buf' read'))
          (
            λ i i_in. (child i i_in).1,
            λ i j b i_in j_in ne a c.
                (separate buf read_x).1 i j b i_in j_in ne (((child i i_in).2 b).0 a)
                  (((child j j_in).2 b).0 c),
          )

    index-HasLeaf :
        (b : ℕ) → HasLeaf dev ctx d' (suc height) x b ↔ HasLeaf dev ctx d (suc height) x b
    index-HasLeaf b = (
      λ h.
          let one = only h.0 h.1 in
          let i_in : h.2.0 < keys_of buf = subst (λ c. h.2.0 < keys_of c) one h.2.1 in
          (
            buf,
            read_x,
            (
              h.2.0,
              i_in,
              ((child h.2.0 i_in).2 b).0
                  (subst (λ c. HasLeaf dev ctx d' height (entry_child c h.2.0) b) one h.2.2),
            ),
          ),
      λ h.
          let one : h.0 ≡ buf = Content-same dev ctx d x h.1 read_x in
          let i_in : h.2.0 < keys_of buf = subst (λ c. h.2.0 < keys_of c) one h.2.1 in
          (
            buf,
            kept ∙ read_x,
            (
              h.2.0,
              i_in,
              ((child h.2.0 i_in).2 b).1
                  (subst (λ c. HasLeaf dev ctx d height (entry_child c h.2.0) b) one h.2.2),
            ),
          ),
    )

  pub IsTree-IsShaped :
      (height lo hi x : ℕ)
      → IsTree dev ctx d height lo hi x
      → IsPlaced dev ctx d height x
      → IsSeparate dev ctx d height x
      → IsShaped height x
  IsTree-IsShaped zero lo hi x t placed separate = (placed, tt, λ b. (λ h. h, λ h. h))
  IsTree-IsShaped (suc height) lo hi x (buf, read_x, node) placed separate =
      let child = λ (i : ℕ) (i_in : i < keys_of buf).
        IsTree-IsShaped height (child_start lo buf i) (child_end hi buf i) (entry_child buf i)
          (node.children i i_in) (placed.1 buf read_x i i_in) ((separate buf read_x).0 i i_in) in
      (
        index-IsPlaced height lo hi x buf read_x node placed separate child,
        index-IsSeparate height lo hi x buf read_x node placed separate child,
        index-HasLeaf height lo hi x buf read_x node placed separate child,
      )
