-- ===== src/JunkMap/Tree.antt =====
-- What a well-formed map of padding regions is on the disk, and which regions it holds
-- (src/lib/junk_map.c, src/include/btree.h).
use obmafs.Prelude.{
  ℕ, zero, suc, ◌+◌, ◌<◌, ◌≤◌, ◌≡◌, inr, ◌^◌, ◌∙◌, ap, sym, subst, List, arith, dec_lt, ℕ_discrete,
}
use obmafs.Context.{Ctx, ok}
use obmafs.Device.{Device, block_read}
use obmafs.Refcount.{node_magic, node_field, level_of, keys_of}
use obmafs.JunkMap.{JunkRecord, record_at, entry_id, entry_offset, entry_lba}
use obmafs.JunkMap.Order.{Before, AtMost, Before-not, EntriesUp, RecordsUp}

pub record IsJunkLeaf (buf : List ℕ) : Type 0 where
  pub magic : node_field buf 0 ≡ node_magic
  pub level : level_of buf ≡ 0
  pub up : RecordsUp buf (keys_of buf)

-- An index node: each entry but the first has the key of the least record of its child.
-- `Child` is what a child is, `Held` which records it holds.
pub record IsJunkIndex (Child : ℕ → Type 0) (Held : ℕ → JunkRecord → Type 0) (buf : List ℕ)
    : Type 0 where
  pub magic : node_field buf 0 ≡ node_magic
  pub level : 0 < level_of buf
  pub some_key : 0 < keys_of buf
  pub up : EntriesUp buf
  pub before :
      (i j : ℕ) (rec : JunkRecord)
      → i < j
      → j < keys_of buf
      → Held (entry_lba buf i) rec
      → Before rec.inode_id rec.offset (entry_id buf j) (entry_offset buf j)
  pub from :
      (i : ℕ) (rec : JunkRecord)
      → 0 < i
      → i < keys_of buf
      → Held (entry_lba buf i) rec
      → AtMost (entry_id buf i) (entry_offset buf i) rec.inode_id rec.offset
  pub least :
      (i : ℕ)
      → 0 < i
      → i < keys_of buf
      → (rec : JunkRecord) × Held (entry_lba buf i) rec
        × (rec.inode_id ≡ entry_id buf i)
        × (rec.offset ≡ entry_offset buf i)
  pub children : (i : ℕ) → i < keys_of buf → Child (entry_lba buf i)

module _ (dev : Device) (ctx : Ctx) (d : dev.Disk) where
  abbrev pub Node : ℕ → List ℕ → Type 0
  Node x buf = block_read dev ctx d x ctx.sb.block_size ≡ ok buf

  pub Node-same : (x : ℕ) {a b : List ℕ} → Node x a → Node x b → a ≡ b
  Node-same x p q = cc

  -- The tree of the given height at a block holds the record.
  abbrev pub Has : (height x : ℕ) → JunkRecord → Type 0
  Has zero x rec =
      (buf : List ℕ) × Node x buf × ((i : ℕ) × (i < keys_of buf) × (record_at buf i ≡ rec))
  Has (suc height) x rec =
      (buf : List ℕ) × Node x buf × ((i : ℕ) × (i < keys_of buf) × Has height (entry_lba buf i) rec)

  abbrev pub IsJunkTree : (height x : ℕ) → Type 0
  IsJunkTree zero x = (buf : List ℕ) × Node x buf × IsJunkLeaf buf
  IsJunkTree (suc height) x =
      (buf : List ℕ) × Node x buf × IsJunkIndex (IsJunkTree height) (Has height) buf

  -- The place of a record, with the buffer that is known.
  pub Has-leaf :
      (x : ℕ) (buf : List ℕ) (rec : JunkRecord)
      → Node x buf
      → Has 0 x rec
      → (i : ℕ) × (i < keys_of buf) × (record_at buf i ≡ rec)
  Has-leaf x buf rec read (buf', read', (i, i_in, is)) =
      let e = Node-same x read' read in
      (i, subst (λ b. i < keys_of b) e i_in, subst (λ b. record_at b i ≡ rec) e is)

  pub Has-child :
      (height x : ℕ) (buf : List ℕ) (rec : JunkRecord)
      → Node x buf
      → Has (suc height) x rec
      → (i : ℕ) × (i < keys_of buf) × Has height (entry_lba buf i) rec
  Has-child height x buf rec read (buf', read', (i, i_in, has)) =
      let e = Node-same x read' read in
      (i, subst (λ b. i < keys_of b) e i_in, subst (λ b. Has height (entry_lba b i) rec) e has)

  -- Two records with one key are the same.
  pub Has-unique :
      (height x : ℕ) (a b : JunkRecord)
      → IsJunkTree height x
      → Has height x a
      → Has height x b
      → a.inode_id ≡ b.inode_id
      → a.offset ≡ b.offset
      → a ≡ b
  Has-unique zero x a b (buf, read, leaf) ha hb id off =
      let (i, i_in, is_a) = Has-leaf x buf a read ha in
      let (j, j_in, is_b) = Has-leaf x buf b read hb in
      elim (ℕ_discrete i j) [
        | yes e ↦ sym is_a ∙ ap (record_at buf) e ∙ is_b
        | no ne ↦ absurd (elim (dec_lt i j) [
          | yes lt ↦ clash i j is_a is_b id off (leaf.up i j lt j_in)
          | no ge ↦ clash j i is_b is_a (sym id) (sym off) (leaf.up j i (omega arith) i_in)
        ])
      ]
    where
      clash :
          (i j : ℕ) {a b : JunkRecord}
          → record_at buf i ≡ a
          → record_at buf j ≡ b
          → a.inode_id ≡ b.inode_id
          → a.offset ≡ b.offset
          → Before
              (record_at buf i).inode_id
              (record_at buf i).offset
              (record_at buf j).inode_id
              (record_at buf j).offset
          → ⊥
      clash i j {a} {b} is_a is_b id off lt =
          Before-not (record_at buf i).inode_id (record_at buf i).offset (record_at buf j).inode_id
            (record_at buf j).offset lt
            (inr (
              ap (λ r. r.inode_id) is_b ∙ sym id ∙ sym (ap (λ r. r.inode_id) is_a),
              omega (
                arith,
                ap (λ (r : JunkRecord). r.offset) is_a,
                ap (λ (r : JunkRecord). r.offset) is_b,
              ),
            ))
  Has-unique (suc height) x a b (buf, read, node) ha hb id off =
      let (i, i_in, in_a) = Has-child height x buf a read ha in
      let (j, j_in, in_b) = Has-child height x buf b read hb in
      elim (ℕ_discrete i j) [
        | yes e ↦
            Has-unique height (entry_lba buf j) a b (node.children j j_in)
              (subst (λ k. Has height (entry_lba buf k) a) e in_a) in_b id off
        | no ne ↦ absurd (elim (dec_lt i j) [
          | yes lt ↦
              Before-not a.inode_id a.offset (entry_id buf j) (entry_offset buf j)
                (node.before i j a lt j_in in_a)
                (ground (arith, node.from j b (omega arith) j_in in_b))
          | no ge ↦
              Before-not b.inode_id b.offset (entry_id buf i) (entry_offset buf i)
                (node.before j i b (omega arith) i_in in_b)
                (ground (arith, node.from i a (omega arith) i_in in_a))
        ])
      ]

  -- The regions of an inode do not overlap, and end below 2 ^ 64.
  pub record IsApart (height root : ℕ) : Type 0 where
    pub apart :
        (a b : JunkRecord)
        → Has height root a
        → Has height root b
        → a.inode_id ≡ b.inode_id
        → a.offset < b.offset
        → a.offset + a.length ≤ b.offset
    pub small : (a : JunkRecord) → Has height root a → a.offset + a.length < 2 ^ 64
