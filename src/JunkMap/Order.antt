-- ===== src/JunkMap/Order.antt =====
-- The order of the keys of the map of padding regions, and the searches in its nodes
-- (src/lib/junk_map.c).
use obmafs.Prelude.{
  ℕ, zero, suc, ◌+◌, ◌-◌, ◌<◌, ◌≤◌, ◌≡◌, ◌⊎◌, inl, inr, refl, sym, List, ltb, arith, Bool-cases,
  ltb→lt, subst, dec_lt,
}
use obmafs.Refcount.{keys_of}
use obmafs.JunkMap.{
  Cmp, below, same, above, jm_key_cmp, entry_id, entry_offset, jm_index_loop, jm_index_find,
  record_at,
}

-- The first inode and offset come before the second, or are the same.
abbrev pub Before : (id off id' off' : ℕ) → Type 0
Before id off id' off' = (id < id') ⊎ ((id ≡ id') × (off < off'))

abbrev pub AtMost : (id off id' off' : ℕ) → Type 0
AtMost id off id' off' = (id < id') ⊎ ((id ≡ id') × (off ≤ off'))

pub AtMost-trans : (a b c d e f : ℕ) → AtMost a b c d → AtMost c d e f → AtMost a b e f
AtMost-trans a b c d e f p q = ground (arith, p, q)

pub Before-trans : (a b c d e f : ℕ) → Before a b c d → AtMost c d e f → Before a b e f
Before-trans a b c d e f p q = ground (arith, p, q)

pub Before-AtMost : (a b c d : ℕ) → Before a b c d → AtMost a b c d
Before-AtMost a b c d p = ground (arith, p)

pub Before-not : (a b c d : ℕ) → Before a b c d → AtMost c d a b → ⊥
Before-not a b c d p q = ground (arith, p, q)

-- What the comparison says.
abbrev pub Says : Cmp → (id_a off_a id_b off_b : ℕ) → Type 0
Says below a b c d = Before a b c d
Says same a b c d = (a ≡ c) × (b ≡ d)
Says above a b c d = Before c d a b

pub jm_key_cmp-Says : (a b c d : ℕ) → Says (jm_key_cmp a b c d) a b c d
unfolding jm_key_cmp
jm_key_cmp-Says a b c d = elim (Bool-cases (ltb a c)) [
  | inl lt ↦ rw lt (inl (ltb→lt a c lt))
  | inr ge ↦ rw ge (elim (Bool-cases (ltb c a)) [
    | inl gt ↦ rw gt (inl (ltb→lt c a gt))
    | inr le ↦
        let e : a ≡ c = ground arith in
        rw le (elim (Bool-cases (ltb b d)) [
          | inl lt ↦ rw lt (inr (e, ltb→lt b d lt))
          | inr not_lt ↦ rw not_lt (elim (Bool-cases (ltb d b)) [
            | inl gt ↦ rw gt (inr (sym e, ltb→lt d b gt))
            | inr not_gt ↦ rw not_gt (e, ground arith)
          ])
        ])
  ])
]

-- The entries go up.
abbrev pub EntriesUp : List ℕ → Type 0
EntriesUp buf =
    (i j : ℕ)
    → i < j
    → j < keys_of buf
    → Before (entry_id buf i) (entry_offset buf i) (entry_id buf j) (entry_offset buf j)

-- The last child whose keys start at or before the given one, the first if there is none.
pub record IsChildFor (buf : List ℕ) (id off s : ℕ) : Type 0 where
  pub inside : s < keys_of buf
  pub starts : (s ≡ 0) ⊎ AtMost (entry_id buf s) (entry_offset buf s) id off
  pub ends : (j : ℕ) → s < j → j < keys_of buf → Before id off (entry_id buf j) (entry_offset buf j)

module _ (buf : List ℕ) (id off : ℕ) (up : EntriesUp buf) where
  jm_index_loop-IsChildFor :
      (rounds i slot : ℕ)
      → i + rounds ≡ keys_of buf
      → slot + 1 ≡ i
      → (slot ≡ 0) ⊎ AtMost (entry_id buf slot) (entry_offset buf slot) id off
      → IsChildFor buf id off (jm_index_loop buf id off rounds i slot)
  unfolding jm_index_loop
  jm_index_loop-IsChildFor zero i slot all next starts = record {
    inside = omega arith;
    starts = starts;
    ends = λ j a b. absurd (omega arith);
  }
  jm_index_loop-IsChildFor (suc rounds) i slot all next starts =
      by_cmp (jm_key_cmp (entry_id buf i) (entry_offset buf i) id off)
        (jm_key_cmp-Says (entry_id buf i) (entry_offset buf i) id off)
        (λ starts'. jm_index_loop-IsChildFor rounds (i + 1) i (omega arith) refl starts')
    where
      by_cmp :
          (c : Cmp)
          → Says c (entry_id buf i) (entry_offset buf i) id off
          → ((i ≡ 0) ⊎ AtMost (entry_id buf i) (entry_offset buf i) id off
              → IsChildFor buf id off (jm_index_loop buf id off rounds (i + 1) i))
          → IsChildFor buf id off (elim c [
            | above ↦ slot
            | same ↦ jm_index_loop buf id off rounds (i + 1) i
            | below ↦ jm_index_loop buf id off rounds (i + 1) i
          ])
      by_cmp above says rest = record {
        inside = omega arith;
        starts = starts;
        ends = λ j a b. elim (dec_lt i j) [
          | yes lt ↦
              Before-trans id off (entry_id buf i) (entry_offset buf i) (entry_id buf j)
                (entry_offset buf j) says (Before-AtMost _ _ _ _ (up i j lt b))
          | no ge ↦
              let e : j ≡ i = omega arith in
              subst (λ k. Before id off (entry_id buf k) (entry_offset buf k)) (sym e) says
        ];
      }
      by_cmp same says rest = rest (inr (inr (says.0, omega (arith, says))))
      by_cmp below says rest = rest (inr (Before-AtMost _ _ _ _ says))

  pub jm_index_find-IsChildFor :
      0 < keys_of buf → IsChildFor buf id off (jm_index_find buf id off (keys_of buf))
  unfolding jm_index_find
  jm_index_find-IsChildFor some_key =
      jm_index_loop-IsChildFor (keys_of buf - 1) 1 0 (omega arith) refl (inl refl)

-- The records of a leaf go up.
abbrev pub RecordsUp : List ℕ → ℕ → Type 0
RecordsUp buf n =
    (i j : ℕ)
    → i < j
    → j < n
    → Before (record_at buf i).inode_id (record_at buf i).offset (record_at buf j).inode_id
        (record_at buf j).offset
