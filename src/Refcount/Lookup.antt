-- ===== src/Refcount/Lookup.antt =====
-- What `obmafs3_refcount_get` (src/lib/refcount.c) answers, with and without its cache.
use obmafs.Prelude.{
  ℕ, zero, suc, ◌+◌, ◌-◌, ◌<◌, ◌≤◌, ◌^◌, ◌≡◌, ◌≢◌, ◌⊎◌, inl, inr, refl, ◌∙◌, ap, sym, subst, true,
  false, some, List, ltb, leb, ◌==◌, ◌&&◌, arith, Bool-cases, dec_lt, ne→==, ltb→lt,
}
use obmafs.Context.{Ctx, ok}
use obmafs.Device.{Device}
use obmafs.Refcount.{
  node_magic, node_field, level_of, keys_of, record_lba, entry_key, entry_child, Slot, at,
  insert_at, leaf_find, index_find, count_at, leaf_count, LeafCache, cache_leaf, visit, answer_leaf,
  answered, find_leaf, refcount_get,
}
use obmafs.Refcount.Search.{IsSlot, leaf_find_lem, index_find_lem}
use obmafs.Refcount.Tree.{
  IsLeaf, child_start, child_end, child_start-le, Content, IsTree, Holds, Content-same, Holds-child,
}

module _ (dev : Device) (ctx : Ctx) (d : dev.Disk) where
  -- The leaf whose range has `lba`: it holds the records of the tree in that range.
  record Reached (height lo hi x lba rounds : ℕ) : Type 0 where
    cur : ℕ
    buf : List ℕ
    low : ℕ
    high : ℕ
    walk : find_leaf dev rounds ctx d lba x ≡ some (ok (cur, buf))
    read : Content dev ctx d cur buf
    leaf : IsLeaf low high buf
    within : (lo ≤ low) × (high ≤ hi)
    around : (low ≤ lba) × (lba < high)
    down : (k v : ℕ) → low ≤ k → k < high → Holds dev ctx d height x k v → Holds dev ctx d 0 cur k v
    up : (k v : ℕ) → low ≤ k → k < high → Holds dev ctx d 0 cur k v → Holds dev ctx d height x k v

  find_leaf-Reached :
      (height lo hi x lba rounds : ℕ)
      → height < rounds
      → IsTree dev ctx d height lo hi x
      → lo ≤ lba
      → lba < hi
      → Reached height lo hi x lba rounds
  unfolding find_leaf visit
  find_leaf-Reached height lo hi x lba zero deep t low high = absurd (omega arith)
  find_leaf-Reached zero lo hi x lba (suc rounds) deep (buf, read, leaf) low high =
      let magic : (node_field buf 0 == node_magic) ≡ true = ground (arith, leaf.magic) in
      let flat : ltb 0 (level_of buf) ≡ false = ground (arith, leaf.level) in
      record {
        cur = x;
        buf = buf;
        low = lo;
        high = hi;
        walk = rw (read, magic, flat, visit);
        read = read;
        leaf = leaf;
        within = (omega arith, omega arith);
        around = (low, high);
        down = λ k v a b h. h;
        up = λ k v a b h. h;
      }
  find_leaf-Reached (suc height) lo hi x lba (suc rounds) deep (buf, read, node) low high =
      let magic : (node_field buf 0 == node_magic) ≡ true = ground (arith, node.magic) in
      let index : ltb 0 (level_of buf) ≡ true = ground (arith, node.level) in
      let n = keys_of buf in
      let s = index_find (entry_key buf) lba n 0 n 0 in
      let child = index_find_lem (entry_key buf) n lba node.up node.some_key node.small in
      let starts : child_start lo buf s ≤ lba = ground (arith, child.starts) in
      let ends : lba < child_end hi buf s = ground (arith, child.ends (s + 1)) in
      let r =
        find_leaf-Reached height (child_start lo buf s) (child_end hi buf s) (entry_child buf s) lba
          rounds (omega arith) (node.children s child.inside) starts ends in
      let outer = child_start-le dev ctx d lo hi buf node s child.inside in
      record {
        cur = r.cur;
        buf = r.buf;
        low = r.low;
        high = r.high;
        walk = rw (read, magic, index, visit) r.walk;
        read = r.read;
        leaf = r.leaf;
        within = (omega (arith, r.within, outer), omega (arith, r.within, outer));
        around = r.around;
        down = λ k v a b h. r.down k v a b (
            Holds-child dev ctx d height lo hi x s k v buf read node child.inside
              (omega (arith, r.within)) (omega (arith, r.within)) h);
        up = λ k v a b h. (buf, read, (s, child.inside, r.up k v a b h));
      }

  -- The count is the record's, or 1 if there is no record.
  abbrev pub IsCount : (height root lba r : ℕ) → Type 0
  IsCount height root lba r =
      Holds dev ctx d height root lba r
      ⊎ ((r ≡ 1) × ((v : ℕ) → Holds dev ctx d height root lba v → ⊥))

  leaf_count-IsCount :
      (cur lo hi k : ℕ) (buf : List ℕ)
      → Content dev ctx d cur buf
      → IsLeaf lo hi buf
      → IsCount 0 cur k (leaf_count buf (keys_of buf) k)
  unfolding leaf_count count_at
  leaf_count-IsCount cur lo hi k buf read leaf =
      by_slot (leaf_find (record_lba buf) k (keys_of buf) 0 (keys_of buf))
        (leaf_find_lem (record_lba buf) (keys_of buf) k leaf.up)
    where
      by_slot :
          (s : Slot) → IsSlot (record_lba buf) (keys_of buf) k s → IsCount 0 cur k (count_at buf s)
      by_slot (at i) (inside, key) = inl (buf, read, (i, inside, key, refl))
      by_slot (insert_at p) (inside, below, above) = inr (refl, λ v h. absent v h)
        where
          absent : (v : ℕ) → Holds dev ctx d 0 cur k v → ⊥
          absent v (buf', read', (i, i_in, key, val)) =
              let same : buf' ≡ buf = Content-same dev ctx d cur read' read in
              let in_leaf : i < keys_of buf = subst (λ b. i < keys_of b) same i_in in
              let is_key : record_lba buf i ≡ k = ap (λ b. record_lba b i) (sym same) ∙ key in
              elim (dec_lt i p) [
                | yes before ↦ omega (arith, below i before)
                | no after ↦ omega (arith, above i (omega arith) in_leaf)
              ]

  -- What the cached leaf answers, for the blocks that it is asked for, is what the tree holds.
  abbrev pub IsRight : (height root : ℕ) → LeafCache → Type 0
  IsRight height root c =
      c.valid ≡ true
      → (k : ℕ) → c.least ≤ k
      → k ≤ c.greatest
      → IsCount height root k (leaf_count c.buf c.count k)

  module _ {height lo hi root lba rounds : ℕ} (r : Reached height lo hi root lba rounds) where
    Reached-IsCount :
        (k : ℕ)
        → r.low ≤ k
        → k < r.high
        → IsCount height root k (leaf_count r.buf (keys_of r.buf) k)
    Reached-IsCount k low high =
        elim (leaf_count-IsCount r.cur r.low r.high k r.buf r.read r.leaf) [
          | inl held ↦ inl (r.up k _ low high held)
          | inr free ↦ inr (free.0, λ v h. free.1 v (r.down k v low high h))
        ]

    cache_leaf-IsRight : IsRight height root (cache_leaf r.cur r.buf)
    unfolding cache_leaf
    cache_leaf-IsRight valid k least greatest = elim (Bool-cases (ltb 0 (keys_of r.buf))) [
      | inl keys ↦
          let n = keys_of r.buf in
          let some_key = ltb→lt 0 n keys in
          let first : record_lba r.buf 0 ≤ k = rw keys at least in
          let last : k ≤ record_lba r.buf (n - 1) = rw keys at greatest in
          Reached-IsCount k (omega (arith, r.leaf.range 0 some_key))
            (omega (arith, r.leaf.range (n - 1) (omega arith)))
      | inr empty ↦
          let first : 2 ^ 64 - 1 ≤ k = rw empty at least in
          let last : k ≤ 0 = rw empty at greatest in absurd (omega arith)
    ]

  -- `obmafs3_refcount_get` on a well-formed tree, for a block in its range and with a cache that
  -- is right or not valid, returns after at most one node for each level; it gives the count of
  -- the block's record, or 1 if the tree has none, and leaves a cache that is right.
  pub refcount_get-IsCount :
      (height lo hi root lba rounds : ℕ) (cache : LeafCache)
      → root ≢ 0
      → IsTree dev ctx d height lo hi root
      → lo ≤ lba
      → lba < hi
      → height < rounds
      → IsRight height root cache
      → (n : ℕ) × (cache' : LeafCache) × (refcount_get dev rounds ctx root cache d lba
          ≡ some (ok n, cache'))
        × IsCount height root lba n
        × IsRight height root cache'
  unfolding refcount_get answered answer_leaf
  refcount_get-IsCount height lo hi root lba rounds cache there t low high deep right =
      let tree : (root == 0) ≡ false = ne→== root 0 there in
      let hit = cache.valid && leb cache.least lba && leb lba cache.greatest in
      elim (Bool-cases hit) [
        | inl cached ↦ (
          leaf_count cache.buf cache.count lba,
          cache,
          rw (tree, cached),
          right (ground arith) lba (ground arith) (ground arith),
          right,
        )
        | inr miss ↦
            let r = find_leaf-Reached height lo hi root lba rounds deep t low high in
            (
              leaf_count r.buf (keys_of r.buf) lba,
              cache_leaf r.cur r.buf,
              rw (tree, miss, r.walk),
              Reached-IsCount r lba r.around.0 r.around.1,
              cache_leaf-IsRight r,
            )
      ]
