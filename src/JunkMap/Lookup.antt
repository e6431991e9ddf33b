-- ===== src/JunkMap/Lookup.antt =====
-- What `obmafs3_junk_map_lookup` (src/lib/junk_map.c) answers on a well-formed tree.
use obmafs.Prelude.{
  ℕ, zero, suc, ◌+◌, ◌<◌, ◌≤◌, ◌≡◌, ◌≢◌, ◌⊎◌, inl, inr, refl, ◌∙◌, sym, subst, true, false, some,
  List, arith, dec_lt, ℕ_discrete, Bool-cases, ltb, ◌==◌, if◌then◌else◌, u64, ne→==,
}
use obmafs.Context.{Ctx, Result, ok, err, notfound}
use obmafs.Device.{Device}
use obmafs.Refcount.{node_magic, node_field, level_of, keys_of}
use obmafs.JunkMap.{
  JunkRecord, record_at, entry_id, entry_offset, entry_lba, jm_index_find, covering, jm_visit,
  jm_walk, junk_map_lookup,
}
use obmafs.JunkMap.Order.{AtMost, AtMost-trans, Before-not, jm_index_find-IsChildFor}
use obmafs.JunkMap.Tree.{
  IsApart, IsJunkLeaf, Node, Has, IsJunkTree, Has-leaf, Has-child, Has-unique,
}

-- The record is one of the inode and does not start behind the offset.
abbrev pub IsStarted : (inode_id offset : ℕ) → JunkRecord → Type 0
IsStarted inode_id offset rec = (rec.inode_id ≡ inode_id) × (rec.offset ≤ offset)

-- The record is one of the inode and has the offset in its region.
abbrev pub IsCovering : (inode_id offset : ℕ) → JunkRecord → Type 0
IsCovering inode_id offset rec =
    (rec.inode_id ≡ inode_id) × (rec.offset ≤ offset) × (offset < rec.offset + rec.length)

module _ (buf : List ℕ) (inode_id offset : ℕ) where
  -- The search in a leaf stops at the last record that is started.
  abbrev Stops : (n : ℕ) → Result JunkRecord → Type 0
  Stops n r =
      ((i : ℕ) × (i < n)
        × IsStarted inode_id offset (record_at buf i)
        × ((j : ℕ) → i < j → j < n → IsStarted inode_id offset (record_at buf j) → ⊥)
        × (r ≡ (
            if ltb offset (u64 ((record_at buf i).offset + (record_at buf i).length))
            then ok (record_at buf i)
            else err notfound)))
      ⊎ ((r ≡ err notfound) × ((j : ℕ) → j < n → IsStarted inode_id offset (record_at buf j) → ⊥))

  passed :
      (n : ℕ)
      → (IsStarted inode_id offset (record_at buf n) → ⊥)
      → (r : Result JunkRecord) → Stops n r
      → Stops (suc n) r
  passed n other r (inl (i, i_in, started, last, is)) = inl (
    i,
    omega arith,
    started,
    λ j lt j_in s. elim (ℕ_discrete j n) [
      | yes e ↦ other (subst (λ k. IsStarted inode_id offset (record_at buf k)) e s)
      | no ne ↦ last j lt (omega arith) s
    ],
    is,
  )
  passed n other r (inr (is, none_started)) = inr (
    is,
    λ j j_in s. elim (ℕ_discrete j n) [
      | yes e ↦ other (subst (λ k. IsStarted inode_id offset (record_at buf k)) e s)
      | no ne ↦ none_started j (omega arith) s
    ],
  )

  covering-Stops : (n : ℕ) → Stops n (covering buf inode_id offset n)
  unfolding covering
  covering-Stops zero = inr (refl, λ j j_in. absurd (omega arith))
  covering-Stops (suc n) =
      let rec = record_at buf n in
      let rest = covering-Stops n in
      elim (Bool-cases (rec.inode_id == inode_id)) [
        | inr other ↦
            rw other (passed n (λ s. ground (arith, s)) (covering buf inode_id offset n) rest)
        | inl same ↦ rw same (elim (Bool-cases (ltb offset rec.offset)) [
          | inl behind ↦
              rw behind (passed n (λ s. ground (arith, s)) (covering buf inode_id offset n) rest)
          | inr not_behind ↦ rw not_behind (
              inl (
                n,
                omega arith,
                (ground arith, ground arith),
                λ j lt j_in. absurd (omega arith),
                refl,
              ))
        ])
      ]

module _ (dev : Device) (ctx : Ctx) (d : dev.Disk) (inode_id offset : ℕ) where
  -- The leaf that the walk comes to: it has a record between any earlier one and the offset.
  record Reached (height x rounds : ℕ) : Type 0 where
    cur : ℕ
    buf : List ℕ
    read : Node dev ctx d cur buf
    leaf : IsJunkLeaf buf
    walk :
        jm_walk inode_id offset dev rounds ctx d x
        ≡ some (covering buf inode_id offset (keys_of buf))
    up : (rec : JunkRecord) → Has dev ctx d 0 cur rec → Has dev ctx d height x rec
    later :
        (rec : JunkRecord)
        → Has dev ctx d height x rec
        → AtMost rec.inode_id rec.offset inode_id offset
        → (p : JunkRecord) × Has dev ctx d 0 cur p
          × AtMost rec.inode_id rec.offset p.inode_id p.offset
          × AtMost p.inode_id p.offset inode_id offset

  jm_walk-Reached :
      (height x rounds : ℕ)
      → height < rounds
      → IsJunkTree dev ctx d height x
      → Reached height x rounds
  unfolding jm_walk jm_visit
  jm_walk-Reached height x zero deep t = absurd (omega arith)
  jm_walk-Reached zero x (suc rounds) deep (buf, read, leaf) =
      let magic : (node_field buf 0 == node_magic) ≡ true = ground (arith, leaf.magic) in
      let flat : (level_of buf == 0) ≡ true = ground (arith, leaf.level) in
      record {
        cur = x;
        buf = buf;
        read = read;
        leaf = leaf;
        walk = rw (read, jm_visit, magic, flat) refl;
        up = λ rec h. h;
        later = λ rec h le. (rec, h, inr (refl, omega arith), le);
      }
  jm_walk-Reached (suc height) x (suc rounds) deep (buf, read, node) =
      let magic : (node_field buf 0 == node_magic) ≡ true = ground (arith, node.magic) in
      let index : (level_of buf == 0) ≡ false = ground (arith, node.level) in
      let s = jm_index_find buf inode_id offset (keys_of buf) in
      let child = jm_index_find-IsChildFor buf inode_id offset node.up node.some_key in
      let r =
        jm_walk-Reached height (entry_lba buf s) rounds (omega arith)
          (node.children s child.inside) in
      record {
        cur = r.cur;
        buf = r.buf;
        read = r.read;
        leaf = r.leaf;
        walk = rw (read, jm_visit, magic, index) r.walk;
        up = λ rec h. (buf, read, (s, child.inside, r.up rec h));
        later = λ rec h le.
            let (i, i_in, in_child) = Has-child dev ctx d height x buf rec read h in
            elim (ℕ_discrete i s) [
              | yes e ↦
                  r.later rec (subst (λ k. Has dev ctx d height (entry_lba buf k) rec) e in_child)
                    le
              | no ne ↦ elim (dec_lt i s) [
                | yes before ↦
                    let (first, held, id, off) = node.least s (omega arith) child.inside in
                    let rec_first : AtMost rec.inode_id rec.offset first.inode_id first.offset =
                      ground (arith, node.before i s rec before child.inside in_child, id, off) in
                    let (p, p_held, first_p, p_le) =
                      r.later first held (ground (arith, child.starts, id, off)) in
                    (
                      p,
                      p_held,
                      AtMost-trans rec.inode_id rec.offset first.inode_id first.offset p.inode_id
                          p.offset rec_first first_p,
                      p_le,
                    )
                | no behind ↦ absurd (
                    Before-not inode_id offset (entry_id buf i) (entry_offset buf i)
                      (child.ends i (omega arith) i_in)
                      (AtMost-trans (entry_id buf i) (entry_offset buf i) rec.inode_id rec.offset
                        inode_id offset (node.from i rec (omega arith) i_in in_child) le))
              ]
            ];
      }

  abbrev Answered : (height root : ℕ) → Result JunkRecord → Type 0
  Answered height root r =
      ((rec : JunkRecord) × (r ≡ ok rec)
        × Has dev ctx d height root rec
        × IsCovering inode_id offset rec)
      ⊎ ((r ≡ err notfound)
          × ((rec : JunkRecord)
              → Has dev ctx d height root rec
              → IsCovering inode_id offset rec
              → ⊥))

  module _ {height root rounds : ℕ} (tree : IsJunkTree dev ctx d height root)
      (a : IsApart dev ctx d height root) (r : Reached height root rounds) where
    in_tree : (i : ℕ) → i < keys_of r.buf → Has dev ctx d height root (record_at r.buf i)
    in_tree i i_in = r.up (record_at r.buf i) (r.buf, r.read, (i, i_in, refl))

    -- A region that covers the offset is the one at which the search stops.
    only_stop :
        (i : ℕ)
        → i < keys_of r.buf
        → IsStarted inode_id offset (record_at r.buf i)
        → ((j : ℕ) → i < j → j < keys_of r.buf → IsStarted inode_id offset (record_at r.buf j) → ⊥)
        → (rec : JunkRecord) → Has dev ctx d height root rec
        → IsCovering inode_id offset rec
        → rec ≡ record_at r.buf i
    only_stop i i_in started last rec held covers =
        let (p, p_held, rec_p, p_le) = r.later rec held (inr (covers.0, covers.1)) in
        let (j, j_in, is) = Has-leaf dev ctx d r.cur r.buf p r.read p_held in
        let p_started : IsStarted inode_id offset p =
          (ground (arith, covers, rec_p, p_le), ground (arith, covers, rec_p, p_le)) in
        let j_started = subst (λ q. IsStarted inode_id offset q) (sym is) p_started in
        let stop = record_at r.buf i in
        let p_stop : p.offset ≤ stop.offset = elim (dec_lt i j) [
          | yes lt ↦ absurd (last j lt j_in j_started)
          | no ge ↦
              subst (λ (q : JunkRecord). q.offset ≤ stop.offset) is
                (elim (ℕ_discrete j i) [
                  | yes e ↦
                      subst (λ k. (record_at r.buf k).offset ≤ stop.offset) (sym e) (omega arith)
                  | no ne ↦ ground (arith, r.leaf.up j i (omega arith) i_in, j_started, started)
                ])
        ] in
        let rec_stop : rec.offset ≤ stop.offset =
          ground (arith, covers, rec_p, p_stop, p_started) in
        elim (ℕ_discrete rec.offset stop.offset) [
          | yes e ↦
              Has-unique dev ctx d height root rec stop tree held (in_tree i i_in)
                (covers.0 ∙ sym started.0) e
          | no ne ↦ absurd (
              omega (
                arith,
                a.apart rec stop held (in_tree i i_in) (covers.0 ∙ sym started.0) (omega arith),
                covers,
                started,
              ))
        ]

    answer : Answered height root (covering r.buf inode_id offset (keys_of r.buf))
    answer = elim (covering-Stops r.buf inode_id offset (keys_of r.buf)) [
      | inl (i, i_in, started, last, is) ↦
          let stop = record_at r.buf i in
          let whole : u64 (stop.offset + stop.length) ≡ stop.offset + stop.length =
            omega (arith, a.small stop (in_tree i i_in)) in
          elim (Bool-cases (ltb offset (u64 (stop.offset + stop.length)))) [
            | inl covers ↦
                inl (stop, rw covers at is, in_tree i i_in, (started.0, started.1, ground arith))
            | inr short ↦ inr (
              rw short at is,
              λ rec held c.
                  let e = only_stop i i_in started last rec held c in
                  let c' = subst (λ q. IsCovering inode_id offset q) e c in ground (arith, c'),
            )
          ]
      | inr (is, none_started) ↦ inr (
        is,
        λ rec held covers.
            let (p, p_held, rec_p, p_le) = r.later rec held (inr (covers.0, covers.1)) in
            let (j, j_in, same) = Has-leaf dev ctx d r.cur r.buf p r.read p_held in
            none_started j j_in (
              subst (λ q. IsStarted inode_id offset q) (sym same)
                (ground (arith, covers, rec_p, p_le), ground (arith, covers, rec_p, p_le))),
      )
    ]

  -- `obmafs3_junk_map_lookup`, on a well-formed tree whose regions of one inode do not overlap and end
  -- below 2 ^ 64, returns
  -- after at most one node for each level: with a record of the tree for the inode whose region has
  -- the offset, or with OBMAFS3_ERR_NOTFOUND, and then the tree has no such record.
  pub junk_map_lookup-IsCovering :
      (height root rounds : ℕ)
      → ctx.sb.junk_map_lba ≢ 0
      → root ≢ 0
      → IsJunkTree dev ctx d height root
      → IsApart dev ctx d height root
      → height < rounds
      → ((rec : JunkRecord) × (junk_map_lookup inode_id offset dev rounds ctx root d
            ≡ some (ok rec))
          × Has dev ctx d height root rec
          × IsCovering inode_id offset rec)
        ⊎ ((junk_map_lookup inode_id offset dev rounds ctx root d ≡ some (err notfound))
            × ((rec : JunkRecord)
                → Has dev ctx d height root rec
                → IsCovering inode_id offset rec
                → ⊥))
  unfolding junk_map_lookup
  junk_map_lookup-IsCovering height root rounds mapped there tree a deep =
      let r = jm_walk-Reached height root rounds deep tree in
      elim (answer tree a r) [
        | inl (rec, is, held, covers) ↦ inl (
          rec,
          rw (ne→== ctx.sb.junk_map_lba 0 mapped, ne→== root 0 there, r.walk, is) refl,
          held,
          covers,
        )
        | inr (is, none_held) ↦ inr (
          rw (ne→== ctx.sb.junk_map_lba 0 mapped, ne→== root 0 there, r.walk, is) refl,
          none_held,
        )
      ]
