-- ===== src/Btree/Nodes/Growth.antt =====
-- Growing the free list by a clump (src/lib/btree.c): the search for a clump that fits, and the
-- links between its nodes.
use obmafs.Prelude.{
  ℕ, zero, suc, ◌*◌, ◌/◌, ◌<◌, ◌≤◌, ◌^◌, ◌≡◌, ◌⊎◌, inl, inr, ltb, arith, sym, subst, ap, ◌∙◌,
  Bool-cases, refl, dec_lt, Option, none, some,
}
use mathlib.Core.WellFounded.{Acc}
use obmafs.Prelude.Order.{lt_wf}
use native.Mathlib.Nat.{pow-suc, mul-div_cancel, div-mul-le_self}
use obmafs.Context.{Ctx, Result, ok, err, nospc}
use obmafs.Bitmap.Search.FindFree.{NoRun}
use obmafs.Alloc.{alloc_blocks}
use obmafs.Alloc.Safety.{IsValid, Allocated, AllocSpec, alloc_blocks-AllocSpec}
use obmafs.Btree.Nodes.{
  Clump, taken, refused, smaller_clump, single_node, try_next, clump_loop, try_clump,
  smaller_clump-lt,
}

-- A clump of whole nodes, of at most `limit` blocks, was allocated; or not even one node fits, and nothing changed.
abbrev pub ClumpSpec : Ctx → (per_node limit : ℕ) → Clump × Ctx → Type 0
ClumpSpec ctx per_node limit (taken n s, ctx') =
    Allocated ctx n s ctx' × (n ≡ n / per_node * per_node) × (per_node ≤ n) × (n ≤ limit)
ClumpSpec ctx per_node limit (refused e, ctx') = (e ≡ nospc) × (ctx' ≡ ctx) × NoRun ctx per_node

next_try : ℕ → Ctx × Result ℕ → (Ctx → Option (Clump × Ctx)) → Option (Clump × Ctx)
next_try n (ctx, ok s) next = some (taken n s, ctx)
next_try n (ctx, err e) next = next ctx

-- The search with a count of the attempts that are left, where `none` is a search that is not over.
pub counted_tries : (ℕ → ℕ) → (per_node attempts : ℕ) → Ctx → ℕ → Option (Clump × Ctx)
counted_tries beyond per_node zero ctx n = none
counted_tries beyond per_node (suc attempts) ctx n = elim (dec_lt per_node n) [
  | yes more ↦
      next_try n (alloc_blocks beyond ctx n)
        (λ ctx'. counted_tries beyond per_node attempts ctx' (smaller_clump per_node n))
  | no least ↦ some (single_node per_node (alloc_blocks beyond ctx per_node))
]

module _ (beyond : ℕ → ℕ) (small : (i : ℕ) → beyond i < 256) (per_node : ℕ)
    (pos : 0 < per_node) where
  single_node-ClumpSpec :
      (ctx : Ctx) (limit : ℕ) (r : Ctx × Result ℕ)
      → per_node ≤ limit
      → AllocSpec ctx per_node r
      → ClumpSpec ctx per_node limit (single_node per_node r)
  unfolding single_node
  single_node-ClumpSpec ctx limit (ctx', ok s) most a = (a, grind arith, omega arith, most)
  single_node-ClumpSpec ctx limit (ctx', err e) most a = a

  -- A multiple of the blocks of a node.
  pub whole_nodes : (k : ℕ) → k * per_node ≡ k * per_node / per_node * per_node
  whole_nodes k = ap (λ q. q * per_node) (sym (mul-div_cancel k pos))

  smaller_clump-nodes :
      (n : ℕ)
      → per_node < n
      → (smaller_clump per_node n ≡ smaller_clump per_node n / per_node * per_node)
        × (per_node ≤ smaller_clump per_node n)
        × ((smaller_clump per_node n ≤ per_node) ⊎ (smaller_clump per_node n ≤ n / 2))
  unfolding smaller_clump
  smaller_clump-nodes n h =
      let half = n / 2 / per_node * per_node in
      elim (Bool-cases (ltb half per_node)) [
        | inl short ↦
            let one : per_node ≡ 1 * per_node = omega arith in
            rw short (
              one ∙ whole_nodes 1 ∙ ap (λ q. q / per_node * per_node) (sym one),
              omega arith,
              inl (omega arith),
            )
        | inr enough ↦
            rw enough
              (whole_nodes (n / 2 / per_node), ground arith, inr (div-mul-le_self (n / 2) per_node))
      ]

  try_next-ClumpSpec :
      (ctx : Ctx) (limit n : ℕ) (r : Ctx × Result ℕ) (next : Ctx → Clump × Ctx)
      → n ≡ n / per_node * per_node
      → per_node ≤ n
      → n ≤ limit
      → AllocSpec ctx n r
      → ClumpSpec ctx per_node limit (next ctx)
      → ClumpSpec ctx per_node limit (try_next n r next)
  unfolding try_next
  try_next-ClumpSpec ctx limit n (ctx', ok s) next whole room most a rest = (a, whole, room, most)
  try_next-ClumpSpec ctx limit n (ctx', err e) next whole room most a rest =
      subst (λ c. ClumpSpec ctx per_node limit (next c)) (sym a.1) rest

  clump_loop-ClumpSpec :
      (limit n : ℕ) (ctx : Ctx) (w : Acc ◌<◌ n)
      → IsValid ctx
      → n ≡ n / per_node * per_node
      → per_node ≤ n
      → n ≤ limit
      → ClumpSpec ctx per_node limit (clump_loop beyond per_node pos ctx n w)
  unfolding clump_loop
  clump_loop-ClumpSpec limit n ctx (Acc.intro _ smaller) v whole room most =
      by_test (dec_lt per_node n) (λ more.
        let down = smaller_clump-nodes n more in
        clump_loop-ClumpSpec limit (smaller_clump per_node n) ctx
          (smaller (smaller_clump per_node n) (smaller_clump-lt per_node n pos more)) v down.0
          down.1 (omega (arith, down.2)))
    where
      by_test :
          (t : Dec (per_node < n))
          → ((more : per_node < n)
              → ClumpSpec ctx per_node limit (
                  clump_loop beyond per_node pos ctx
                    (smaller_clump per_node n)
                    (smaller (smaller_clump per_node n) (smaller_clump-lt per_node n pos more))))
          → ClumpSpec ctx per_node limit (elim t [
            | yes more ↦ try_next n (alloc_blocks beyond ctx n) (λ ctx'.
                clump_loop beyond per_node pos ctx'
                  (smaller_clump per_node n)
                  (smaller (smaller_clump per_node n) (smaller_clump-lt per_node n pos more)))
            | no least ↦ single_node per_node (alloc_blocks beyond ctx per_node)
          ])
      by_test (no least) rest =
          single_node-ClumpSpec ctx limit (alloc_blocks beyond ctx per_node) (omega arith)
            (alloc_blocks-AllocSpec beyond per_node v small pos)
      by_test (yes more) rest =
          try_next-ClumpSpec ctx limit n (alloc_blocks beyond ctx n) _ whole room most
            (alloc_blocks-AllocSpec beyond n v small (omega arith)) (rest more)

  -- On a valid bitmap and from whole nodes on, the search for a clump takes whole nodes, at most as
  -- many blocks as it starts with, or fails with OBMAFS3_ERR_NOSPC, only where not even one node
  -- fits on a side of the hint, and then changes nothing.
  pub try_clump-ClumpSpec :
      (limit n : ℕ) (ctx : Ctx)
      → IsValid ctx
      → n ≡ n / per_node * per_node
      → per_node ≤ n
      → n ≤ limit
      → ClumpSpec ctx per_node limit (try_clump beyond per_node pos ctx n)
  unfolding try_clump
  try_clump-ClumpSpec limit n ctx v whole room most =
      clump_loop-ClumpSpec limit n ctx (lt_wf.apply n) v whole room most

  next_try-some :
      (n : ℕ) (r : Ctx × Result ℕ) (counted : Ctx → Option (Clump × Ctx)) (next : Ctx → Clump × Ctx)
      → ((ctx : Ctx) → counted ctx ≡ some (next ctx))
      → next_try n r counted ≡ some (try_next n r next)
  unfolding try_next next_try
  next_try-some n (ctx, ok s) counted next same = refl
  next_try-some n (ctx, err e) counted next same = same ctx

  -- After a refusal, one attempt less is enough.
  fewer_tries :
      (attempts n : ℕ)
      → per_node < n
      → n < 2 ^ suc attempts
      → ((smaller_clump per_node n ≤ per_node) × (0 < attempts))
        ⊎ ((0 < smaller_clump per_node n) × (smaller_clump per_node n < 2 ^ attempts))
  fewer_tries zero n more few = absurd (omega (arith, pow-suc 2 0))
  fewer_tries (suc attempts) n more few =
      let down = smaller_clump-nodes n more in
      elim down.2 [
        | inl least ↦ inl (least, omega arith)
        | inr half ↦ inr (omega (arith, down.1), omega (arith, pow-suc 2 (suc attempts)))
      ]

  counted_tries-clump_loop :
      (attempts n : ℕ) (ctx : Ctx) (w : Acc ◌<◌ n)
      → ((n ≤ per_node) × (0 < attempts)) ⊎ ((0 < n) × (n < 2 ^ attempts))
      → counted_tries beyond per_node attempts ctx n ≡ some (clump_loop beyond per_node pos ctx n w)
  unfolding clump_loop counted_tries
  counted_tries-clump_loop zero n ctx w h = absurd (ground arith)
  counted_tries-clump_loop (suc attempts) n ctx (Acc.intro _ smaller) h =
      elim (dec_lt per_node n)
        as (λ t.
          elim t [
            | yes more ↦
                next_try n (alloc_blocks beyond ctx n)
                  (λ ctx'. counted_tries beyond per_node attempts ctx' (smaller_clump per_node n))
            | no least ↦ some (single_node per_node (alloc_blocks beyond ctx per_node))
          ]
          ≡ some (elim t [
            | yes more ↦ try_next n (alloc_blocks beyond ctx n) (λ ctx'.
                clump_loop beyond per_node pos ctx' (smaller_clump per_node n)
                  (smaller (smaller_clump per_node n) (smaller_clump-lt per_node n pos more)))
            | no least ↦ single_node per_node (alloc_blocks beyond ctx per_node)
          ])) [
            | yes more ↦ next_try-some n (alloc_blocks beyond ctx n) _ _ (λ ctx'.
                counted_tries-clump_loop attempts (smaller_clump per_node n) ctx'
                  (smaller (smaller_clump per_node n) (smaller_clump-lt per_node n pos more))
                  (fewer_tries attempts n more (ground (arith, h))))
            | no least ↦ refl
          ]

  -- The search is over after at most as many attempts as the number of blocks has binary digits: so
  -- many, and any greater number of them, give the answer of the loop.
  pub counted_tries-try_clump :
      (attempts n : ℕ) (ctx : Ctx)
      → 0 < n
      → n < 2 ^ attempts
      → counted_tries beyond per_node attempts ctx n ≡ some (try_clump beyond per_node pos ctx n)
  unfolding try_clump
  counted_tries-try_clump attempts n ctx some_blocks few =
      counted_tries-clump_loop attempts n ctx (lt_wf.apply n) (inr (some_blocks, few))
