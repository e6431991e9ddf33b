-- ===== src/Sha1/Blocks.antt =====
-- Messages as blocks of 64 bytes and a rest, which is what the code of src/lib/sha1.c keeps of them.
use obmafs.Prelude.{
  ℕ, ◌%◌, ◌≡◌, refl, ◌∙◌, sym, ap, ap₂, List, [], ◌∷◌, ◌++◌, take, drop, length, length-append,
  take-append, drop-append, arith,
}
use mathlib.Core.List.{append_assoc, append-nil}
use obmafs.Sha1.{State, transform}

pub joined : List (List ℕ) → List ℕ
joined [] = []
joined (b ∷ bs) = b ++ joined bs

-- The state after blocks.
pub chain : State → List (List ℕ) → State
chain s [] = s
chain s (b ∷ bs) = chain (transform s b) bs

abbrev pub AllBlocks : List (List ℕ) → Type 0
AllBlocks [] = Unit {0}
AllBlocks (b ∷ bs) = (length b ≡ 64) × AllBlocks bs

pub joined-append : (xs bs : List (List ℕ)) → joined (xs ++ bs) ≡ joined xs ++ joined bs
unfolding joined
joined-append [] bs = refl
joined-append (a ∷ xs) bs =
    ap (λ r. a ++ r) (joined-append xs bs) ∙ sym (append_assoc a (joined xs) (joined bs))

pub chain-append : (s : State) (xs bs : List (List ℕ)) → chain s (xs ++ bs) ≡ chain (chain s xs) bs
unfolding chain
chain-append s [] bs = refl
chain-append s (a ∷ xs) bs = chain-append (transform s a) xs bs

pub AllBlocks-append : (xs bs : List (List ℕ)) → AllBlocks xs → AllBlocks bs → AllBlocks (xs ++ bs)
AllBlocks-append [] bs p q = q
AllBlocks-append (a ∷ xs) bs (len, p) q = (len, AllBlocks-append xs bs p q)

pub length-joined : (bs : List (List ℕ)) → AllBlocks bs → length (joined bs) % 64 ≡ 0
unfolding joined
length-joined [] h = refl
length-joined (b ∷ bs) (len, h) =
    omega (arith, len, length-append b (joined bs), length-joined bs h)

-- A list is cut into blocks in one way.
pub joined-injective :
    (xs bs : List (List ℕ)) → AllBlocks xs → AllBlocks bs → joined xs ≡ joined bs → xs ≡ bs
unfolding joined
joined-injective [] [] p q e = refl
joined-injective [] (b ∷ bs) p (len, q) e =
    absurd (omega (arith, len, ap length e, length-append b (joined bs)))
joined-injective (a ∷ xs) [] (len, p) q e =
    absurd (omega (arith, len, ap length e, length-append a (joined xs)))
joined-injective (a ∷ xs) (b ∷ bs) (len_a, p) (len_b, q) e =
    let first =
      sym (take-append 64 a (joined xs) len_a)
      ∙ ap (take 64) e
      ∙ take-append 64 b (joined bs) len_b in
    let rest =
      sym (drop-append 64 a (joined xs) len_a)
      ∙ ap (drop 64) e
      ∙ drop-append 64 b (joined bs) len_b in
    ap₂ ◌∷◌ first (joined-injective xs bs p q rest)

-- No block, and one more.
pub joined_nil : joined [] ++ [] ≡ []
unfolding joined
joined_nil = refl

pub chain_nil : {s : State} → s ≡ chain s []
unfolding chain
chain_nil = refl

pub joined_one : (bs : List (List ℕ)) (b : List ℕ) → joined (bs ++ b ∷ []) ≡ joined bs ++ b
unfolding joined
joined_one bs b = joined-append bs (b ∷ []) ∙ ap (λ r. joined bs ++ r) (append-nil b)

pub chain_one :
    (s : State) (bs : List (List ℕ)) (b : List ℕ)
    → chain s (bs ++ b ∷ []) ≡ transform (chain s bs) b
unfolding chain
chain_one s bs b = chain-append s bs (b ∷ [])

pub joined_cons : (b : List ℕ) (bs : List (List ℕ)) → joined (b ∷ bs) ≡ b ++ joined bs
unfolding joined
joined_cons b bs = refl

pub joined_none : joined [] ≡ []
unfolding joined
joined_none = refl
