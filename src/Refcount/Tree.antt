-- ===== src/Refcount/Tree.antt =====
-- What a well-formed tree of reference counts is on the disk (src/lib/refcount.c,
-- src/include/btree.h), and which records it holds.
use obmafs.Prelude.{
  ℕ, zero, suc, ◌+◌, ◌<◌, ◌≤◌, ◌^◌, ◌≡◌, ◌∙◌, ap, sym, subst, List, ltb, ◌==◌, if◌then◌else◌, arith,
  dec_lt, ℕ_discrete,
}
use obmafs.Context.{Ctx, ok}
use obmafs.Device.{Device, block_read}
use obmafs.Refcount.{
  node_magic, node_field, level_of, keys_of, record_lba, record_count, entry_key, entry_child,
}
use obmafs.Refcount.Search.{GoesUp}

-- A leaf with its records in order, all from `lo` up to, not including, `hi`.
pub record IsLeaf (lo hi : ℕ) (buf : List ℕ) : Type 0 where
  pub magic : node_field buf 0 ≡ node_magic
  pub level : level_of buf ≡ 0
  pub up : GoesUp (record_lba buf) (keys_of buf)
  pub range : (i : ℕ) → i < keys_of buf → (lo ≤ record_lba buf i) × (record_lba buf i < hi)

-- The keys of child `i` of an index node start here, and end before the start of the next child.
abbrev pub child_start : (lo : ℕ) → List ℕ → ℕ → ℕ
child_start lo buf i = if i == 0 then lo else entry_key buf i

abbrev pub child_end : (hi : ℕ) → List ℕ → ℕ → ℕ
child_end hi buf i = if ltb (i + 1) (keys_of buf) then entry_key buf (i + 1) else hi

-- An index node; `Child` is what each child is.
pub record IsIndex (Child : (lo hi x : ℕ) → Type 0) (lo hi : ℕ) (buf : List ℕ) : Type 0 where
  pub magic : node_field buf 0 ≡ node_magic
  pub level : 0 < level_of buf
  pub some_key : 0 < keys_of buf
  pub small : keys_of buf < 2 ^ 16
  pub up : GoesUp (entry_key buf) (keys_of buf)
  pub range : (i : ℕ) → 0 < i → i < keys_of buf → (lo ≤ entry_key buf i) × (entry_key buf i ≤ hi)
  pub children :
      (i : ℕ)
      → i < keys_of buf
      → Child (child_start lo buf i) (child_end hi buf i) (entry_child buf i)

module _ (dev : Device) (ctx : Ctx) where
  open dev use {Disk}

  module _ (d : Disk) where
    abbrev pub Content : ℕ → List ℕ → Type 0
    Content x buf = block_read dev ctx d x ctx.sb.block_size ≡ ok buf

    -- A tree of the given height at a block, with its keys from `lo` up to, not including, `hi`.
    abbrev pub IsTree : (height lo hi x : ℕ) → Type 0
    IsTree zero lo hi x = (buf : List ℕ) × Content x buf × IsLeaf lo hi buf
    IsTree (suc height) lo hi x = (buf : List ℕ) × Content x buf × IsIndex (IsTree height) lo hi buf

    -- The tree at `x` holds a record of the count `v` for the block `k`.
    abbrev pub Holds : (height x k v : ℕ) → Type 0
    Holds zero x k v =
        (buf : List ℕ) × Content x buf
        × ((i : ℕ) × (i < keys_of buf) × (record_lba buf i ≡ k) × (record_count buf i ≡ v))
    Holds (suc height) x k v =
        (buf : List ℕ) × Content x buf
        × ((i : ℕ) × (i < keys_of buf) × Holds height (entry_child buf i) k v)

    pub Content-same : (x : ℕ) {a b : List ℕ} → Content x a → Content x b → a ≡ b
    Content-same x p q = cc

    pub child_start-le :
        {Child : (lo hi x : ℕ) → Type 0} (lo hi : ℕ) (buf : List ℕ)
        → IsIndex Child lo hi buf
        → (i : ℕ) → i < keys_of buf
        → (lo ≤ child_start lo buf i) × (child_end hi buf i ≤ hi)
    child_start-le lo hi buf n i inside =
        (ground (arith, n.range i), ground (arith, n.range (i + 1)))

    -- Every record lies in the range.
    pub Holds-range :
        (height lo hi x k v : ℕ) → IsTree height lo hi x → Holds height x k v → (lo ≤ k) × (k < hi)
    Holds-range zero lo hi x k v (buf, read, leaf) (buf', read', (i, inside, key, val)) =
        let same : buf' ≡ buf = Content-same x read' read in
        let bounds = leaf.range i (subst (λ b. i < keys_of b) same inside) in
        let is_key : record_lba buf i ≡ k = ap (λ b. record_lba b i) (sym same) ∙ key in
        subst (λ m. (lo ≤ m) × (m < hi)) is_key bounds
    Holds-range (suc height) lo hi x k v (buf, read, node) (buf', read', (i, inside, h)) =
        let same : buf' ≡ buf = Content-same x read' read in
        let i_in : i < keys_of buf = subst (λ b. i < keys_of b) same inside in
        let bounds =
          Holds-range height (child_start lo buf i) (child_end hi buf i) (entry_child buf i) k v
            (node.children i i_in) (subst (λ b. Holds height (entry_child b i) k v) same h) in
        let outer = child_start-le lo hi buf node i i_in in
        (omega (arith, bounds, outer), omega (arith, bounds, outer))

    -- A record in the range of one child is in that child.
    pub Holds-child :
        (height lo hi x s k v : ℕ) (buf : List ℕ)
        → Content x buf
        → IsIndex (IsTree height) lo hi buf
        → s < keys_of buf
        → child_start lo buf s ≤ k
        → k < child_end hi buf s
        → Holds (suc height) x k v
        → Holds height (entry_child buf s) k v
    Holds-child height lo hi x s k v buf read node s_in low high (buf', read', (i, inside, h)) =
        let same : buf' ≡ buf = Content-same x read' read in
        let i_in : i < keys_of buf = subst (λ b. i < keys_of b) same inside in
        let h' : Holds height (entry_child buf i) k v =
          subst (λ b. Holds height (entry_child b i) k v) same h in
        let bounds =
          Holds-range height (child_start lo buf i) (child_end hi buf i) (entry_child buf i) k v
            (node.children i i_in) h' in
        elim (ℕ_discrete i s) [
          | yes this ↦ subst (λ j. Holds height (entry_child buf j) k v) this h'
          | no other ↦ absurd (elim (dec_lt i s) [
            | yes before ↦ apart i s before s_in bounds.1 low
            | no after ↦ apart s i (omega arith) i_in high bounds.0
          ])
        ]
      where
        apart :
            (a b : ℕ)
            → a < b
            → b < keys_of buf
            → k < child_end hi buf a
            → child_start lo buf b ≤ k
            → ⊥
        apart a b before b_in under over =
            let next : child_end hi buf a ≡ entry_key buf (a + 1) = ground arith in
            let start : child_start lo buf b ≡ entry_key buf b = ground arith in
            elim (ℕ_discrete (a + 1) b) [
              | yes adjacent ↦
                  let key : entry_key buf (a + 1) ≡ entry_key buf b = ap (entry_key buf) adjacent in
                  omega arith
              | no further ↦
                  omega (arith, node.up (a + 1) b (omega arith) b_in, next, start, under, over)
            ]
