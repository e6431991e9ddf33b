-- ===== src/Refcount/Set/Counts.antt =====
-- The counts that `obmafs3_refcount_get` reads after `obmafs3_refcount_set`,
-- `obmafs3_refcount_inc` and `obmafs3_refcount_dec` (src/lib/refcount.c).
use obmafs.Prelude.{
  ℕ, ◌+◌, ◌-◌, ◌^◌, ◌<◌, ◌≤◌, ◌≡◌, ◌≢◌, ◌↔◌, inl, inr, refl, ◌∙◌, sym, subst, some, Bool, true,
  false, List, leb, if◌then◌else◌, arith, Bool-cases, u32, ap, ℕ_discrete, dec_lt,
}
use obmafs.Context.{Ctx, ok}
use obmafs.Device.{Device}
use obmafs.Btree.{TreeHeader}
use obmafs.Refcount.{keys_of, record_count, LeafCache, refcount_get}
use obmafs.Refcount.Tree.{IsLeaf, Content, Holds}
use obmafs.Refcount.Lookup.{IsCount, IsRight, refcount_get-IsCount}
use obmafs.Refcount.Node.{leaf_max_keys}
use obmafs.Refcount.Set.{
  Change, refcount_set, ended, forget, refcount_inc, refcount_dec, inc_with, dec_with,
}
use obmafs.Refcount.Set.Kept.{HasLeaf}
use obmafs.Refcount.Node.Records.{Records}
use obmafs.Refcount.Set.Descent.{IsTree-Spot}
use obmafs.Refcount.Set.Written.{Assign, IsStore}
use obmafs.Refcount.Set.Effect.{refcount_set-Assign}

-- The count that a block has after it was set.
abbrev pub count_set : ℕ → ℕ
count_set count = if leb count 1 then 1 else count

Assign-twice :
    {m m' m'' : ℕ → ℕ → Type 0} (lba a b : ℕ)
    → ((k v : ℕ) → m' k v ↔ Assign m lba a k v)
    → ((k v : ℕ) → m'' k v ↔ Assign m' lba b k v)
    → (k v : ℕ) → m'' k v ↔ Assign m lba b k v
Assign-twice lba a b first second k v = (
  λ h. elim ((second k v).0 h) [
    | inl new ↦ inl new
    | inr old ↦ elim ((first k v).0 old.1) [
      | inl gone ↦ absurd (old.0 gone.1)
      | inr kept ↦ inr kept
    ]
  ],
  λ s.
      (second k v).1
        (elim s [ inl new ↦ inl new | inr old ↦ inr (old.0, (first k v).1 (inr old)) ]),
)

module _ (dev : Device) (xxh64 : List ℕ → ℕ) (beyond : ℕ → ℕ) (mem : ℕ → Bool) (ctx : Ctx)
    (wide : 70 ≤ ctx.sb.block_size) (small : ctx.sb.total_bytes < 2 ^ 63) (hdr : TreeHeader)
    (writes : (e : dev.Disk) (offset : ℕ) (bs : List ℕ) → (dev.pwrite e offset bs).0 ≡ true)
    (height lo hi lba rounds : ℕ) (there : hdr.root_node_lba ≢ 0) (low : lo ≤ lba) (high : lba < hi)
    (lba_small : lba < 2 ^ 64) (flat : height ≤ 8) (deep : height < rounds) where
  -- If the block has no record, no leaf is full.
  abbrev pub HasRoom : dev.Disk → Type 0
  HasRoom d =
      ((v : ℕ) → Holds dev ctx d height hdr.root_node_lba lba v → ⊥)
      → (b : ℕ) (buf : List ℕ) → HasLeaf dev ctx d height hdr.root_node_lba b
      → Content dev ctx d b buf
      → keys_of buf < leaf_max_keys ctx

  abbrev pub Counts : (d : dev.Disk) (k n : ℕ) → Type 0
  Counts d k n = IsCount dev ctx d height hdr.root_node_lba k n

  module _ (d d' : dev.Disk) (count : ℕ)
      (assigned : (k v : ℕ)
        → Holds dev ctx d' height hdr.root_node_lba k v
          ↔ Assign (Holds dev ctx d height hdr.root_node_lba) lba count k v) where
    Counts-here : (n : ℕ) → Counts d' lba n → n ≡ count_set count
    Counts-here n (inl h) = elim ((assigned lba n).0 h) [
      | inl new ↦ ground (arith, new)
      | inr old ↦ absurd (old.0 refl)
    ]
    Counts-here n (inr (one, none_held)) = elim (Bool-cases (leb count 1)) [
      | inl few ↦ rw few one
      | inr many ↦
          absurd (none_held count ((assigned lba count).1 (inl (ground arith, refl, refl))))
    ]

    Counts-elsewhere : (k n : ℕ) → k ≢ lba → Counts d' k n → Counts d k n
    Counts-elsewhere k n ne (inl h) = elim ((assigned k n).0 h) [
      | inl new ↦ absurd (ne new.1)
      | inr old ↦ inl old.1
    ]
    Counts-elsewhere k n ne (inr (one, none_held)) =
        inr (one, λ v h. none_held v ((assigned k v).1 (inr (ne, h))))

  Records-unique :
      {from to : ℕ} {buf : List ℕ}
      → IsLeaf from to buf
      → (k v w : ℕ) → Records buf k v
      → Records buf k w
      → v ≡ w
  Records-unique {buf = buf} leaf k v w (i, i_in, key, val) (j, j_in, key', val') =
      elim (ℕ_discrete i j) [
        | yes e ↦ sym val ∙ ap (record_count buf) e ∙ val'
        | no ne ↦ elim (dec_lt i j) [
          | yes lt ↦ omega (arith, leaf.up i j lt j_in)
          | no ge ↦ omega (arith, leaf.up j i (omega arith) i_in)
        ]
      ]

  Counts-unique :
      (d : dev.Disk) (m n : ℕ)
      → IsStore dev ctx d height lo hi hdr.root_node_lba
      → Counts d lba m
      → Counts d lba n
      → m ≡ n
  Counts-unique d m n store (inl a) (inl b) =
      let (cur, low', high', leaf, r) =
        IsTree-Spot dev xxh64 beyond mem ctx d height lo hi hdr.root_node_lba lba store.tree
          store.placed store.separate low high in
      let own = λ (v : ℕ). (r.own lba v r.around.0 r.around.1).0 in
      Records-unique r.leaf lba m n (own m a) (own n b)
  Counts-unique d m n store (inl a) (inr (one, none_held)) = absurd (none_held m a)
  Counts-unique d m n store (inr (one, none_held)) (inl b) = absurd (none_held n b)
  Counts-unique d m n store (inr (one, none_held)) (inr (one', none_held')) = one ∙ sym one'

  -- `obmafs3_refcount_set`, in a tree as it should be of at most 8 levels above the leaves, with a
  -- device that takes every write and no full leaf if the block has no record, succeeds;
  -- `obmafs3_refcount_get`, with the cache that is not valid after it, then gives for the block the
  -- new count (1 for a count of 0), and for any other block of the tree's range the count that it
  -- had before.
  pub refcount_get-refcount_set :
      (d : dev.Disk) (count : ℕ)
      → IsStore dev ctx d height lo hi hdr.root_node_lba
      → count < 2 ^ 32
      → HasRoom d
      → (d' : dev.Disk) × (refcount_set dev xxh64 beyond mem rounds ctx hdr d lba count
          ≡ some (ended dev xxh64 beyond mem (ok tt) ctx hdr d'))
        × ((cache : LeafCache) (k : ℕ)
            → lo ≤ k
            → k < hi
            → (n : ℕ) × (cache' : LeafCache) × (refcount_get dev rounds ctx hdr.root_node_lba
                  (forget cache)
                  d'
                  k
                ≡ some (ok n, cache'))
              × (k ≡ lba → n ≡ count_set count)
              × (k ≢ lba → Counts d k n))
  refcount_get-refcount_set d count store count_small room =
      let (d', done, (store', assigned)) =
        refcount_set-Assign dev xxh64 beyond mem ctx wide small hdr d height lo hi lba count store
          (writes d) rounds there low high lba_small count_small flat deep (λ many. room) in
      (
        d',
        done,
        λ cache k k_low k_high.
            let (n, cache', got, is_count, right) =
              refcount_get-IsCount dev ctx d' height lo hi hdr.root_node_lba k rounds (forget cache)
                there store'.tree k_low k_high deep (λ valid. absurd (cc)) in
            (
              n,
              cache',
              got,
              λ e. Counts-here d d' count assigned n (subst (λ j. Counts d' j n) e is_count),
              λ ne. Counts-elsewhere d d' count assigned k n ne is_count,
            ),
      )

  module _ (d : dev.Disk) (cache cache' : LeafCache) (n : ℕ) (change : Change dev xxh64 beyond mem)
      (small_count : n + 1 < 2 ^ 32) where
    refcount_inc-ok :
        refcount_get dev rounds ctx hdr.root_node_lba cache d lba ≡ some (ok n, cache')
        → refcount_set dev xxh64 beyond mem rounds ctx hdr d lba (n + 1) ≡ some change
        → refcount_inc dev xxh64 beyond mem rounds ctx hdr cache d lba
          ≡ some (change, forget cache')
    unfolding refcount_inc inc_with
    refcount_inc-ok got done =
        let whole : u32 (n + 1) ≡ n + 1 = omega arith in rw (got, whole, done) refl

    refcount_dec-ok :
        refcount_get dev rounds ctx hdr.root_node_lba cache d lba ≡ some (ok (n + 1), cache')
        → 1 ≤ n
        → refcount_set dev xxh64 beyond mem rounds ctx hdr d lba n ≡ some change
        → refcount_dec dev xxh64 beyond mem rounds ctx hdr cache d lba
          ≡ some (change, (forget cache', n))
    unfolding refcount_dec dec_with
    refcount_dec-ok got some_count done =
        let more : leb (n + 1) 1 ≡ false = ground arith in
        let back : n + 1 - 1 ≡ n = omega arith in rw (got, more, back, done) refl

  -- `obmafs3_refcount_inc` and then `obmafs3_refcount_dec`, in a tree as it should be of at most 8
  -- levels above the leaves, with a device that takes every write, no full leaf if the block needs a
  -- record, a cache that is right and a count from 1 up to, not including, 2 ^ 32 - 1, both succeed;
  -- the second gives the count that the block had, and at the end the tree holds for the block the
  -- record of that count, none for 1, and for every other block what it held at the start.
  pub refcount_dec-refcount_inc :
      (d : dev.Disk) (cache : LeafCache) (n : ℕ)
      → IsStore dev ctx d height lo hi hdr.root_node_lba
      → IsRight dev ctx d height hdr.root_node_lba cache
      → Counts d lba n
      → 1 ≤ n
      → n + 1 < 2 ^ 32
      → HasRoom d
      → (d' : dev.Disk) × (cache' : LeafCache) × (d'' : dev.Disk) × (cache'' : LeafCache)
        × (refcount_inc dev xxh64 beyond mem rounds ctx hdr cache d lba
            ≡ some (ended dev xxh64 beyond mem (ok tt) ctx hdr d', cache'))
        × (refcount_dec dev xxh64 beyond mem rounds ctx hdr cache' d' lba
            ≡ some (ended dev xxh64 beyond mem (ok tt) ctx hdr d'', (cache'', n)))
        × ((k v : ℕ)
            → Holds dev ctx d'' height hdr.root_node_lba k v
              ↔ Assign (Holds dev ctx d height hdr.root_node_lba) lba n k v)
  refcount_dec-refcount_inc d cache n store right has some_count small_count room =
      let (m, cache₁, got, is_m, right₁) =
        refcount_get-IsCount dev ctx d height lo hi hdr.root_node_lba lba rounds cache there
          store.tree low high deep right in
      let one : m ≡ n = Counts-unique d m n store is_m has in
      let (d', done, (store', assigned)) =
        refcount_set-Assign dev xxh64 beyond mem ctx wide small hdr d height lo hi lba (n + 1) store
          (writes d) rounds there low high lba_small (omega arith) flat deep (λ many. room) in
      let (m', cache₂, got', is_m', right₂) =
        refcount_get-IsCount dev ctx d' height lo hi hdr.root_node_lba lba rounds (forget cache₁)
          there store'.tree low high deep (λ valid. absurd (cc)) in
      let two : m' ≡ n + 1 = Counts-here d d' (n + 1) assigned m' is_m' ∙ ground arith in
      let (d'', done', (store'', assigned')) =
        refcount_set-Assign dev xxh64 beyond mem ctx wide small hdr d' height lo hi lba n store'
          (writes d') rounds there low high lba_small (omega arith) flat deep
          (λ many none_held.
            absurd
              (none_held (n + 1) ((assigned lba (n + 1)).1 (inl (omega arith, refl, refl))))) in
      (
        d',
        forget cache₁,
        d'',
        forget cache₂,
        refcount_inc-ok d cache cache₁ n (ended dev xxh64 beyond mem (ok tt) ctx hdr d') small_count
            (got ∙ ap (λ j. some (ok j, cache₁)) one) done,
        refcount_dec-ok d' (forget cache₁) cache₂ n (ended dev xxh64 beyond mem (ok tt) ctx hdr d'')
            small_count (got' ∙ ap (λ j. some (ok j, cache₂)) two) some_count done',
        Assign-twice lba (n + 1) n assigned assigned',
      )
