-- ===== src/Btree/Nodes/FreeList.antt =====
-- The list of free nodes on the disk: what `obmafs3_btree_alloc_node` pops from it, and what
-- `obmafs3_btree_free_node` pushes (src/lib/btree.c).
use obmafs.Prelude.{
  ℕ, ◌-◌, ◌<◌, ◌≤◌, ◌^◌, ◌≡◌, ◌≢◌, refl, List, [], ◌∷◌, replicate, take, length, length-append,
  length-replicate, arith, sym, subst, ap, ◌∙◌,
}
use obmafs.Context.{Ctx, total_blocks, ok}
use obmafs.Codec.{le_bytes, le_value}
use obmafs.Codec.RoundTrip.{length-le_bytes, le_value-le_bytes, take-le_bytes}
use obmafs.Device.{Device, block_read, block_write}
use obmafs.Device.Blocks.{block_read-block_write_same, block_read-block_write_ne}
use obmafs.Btree.Struct.{TreeHeader}
use obmafs.Btree.Nodes.{link_block}

-- The volume's blocks have room for a pointer, and their offsets do not wrap.
pub record IsSane (ctx : Ctx) : Type 0 where
  pub room : 8 ≤ ctx.sb.block_size
  pub small : ctx.sb.total_bytes < 2 ^ 63
  pub blocks : total_blocks ctx < 2 ^ 63

abbrev pub NotIn : ℕ → List ℕ → Type 0
NotIn x [] = Unit {0}
NotIn x (y ∷ ys) = (x ≢ y) × NotIn x ys

abbrev pub Distinct : List ℕ → Type 0
Distinct [] = Unit {0}
Distinct (x ∷ xs) = NotIn x xs × Distinct xs

pub length-link_block :
    (ctx : Ctx) (p : ℕ) → 8 ≤ ctx.sb.block_size → length (link_block ctx p) ≡ ctx.sb.block_size
unfolding link_block
length-link_block ctx p h = omega (
  arith,
  length-append (le_bytes 8 p) (replicate (ctx.sb.block_size - 8) 0),
  length-le_bytes 8 p,
  length-replicate {A = ℕ} (ctx.sb.block_size - 8) 0,
)

link_block-next : (ctx : Ctx) (p : ℕ) → p < 2 ^ 64 → le_value (take 8 (link_block ctx p)) ≡ p
unfolding link_block
link_block-next ctx p h =
    ap le_value (take-le_bytes 8 p (replicate (ctx.sb.block_size - 8) 0))
    ∙ le_value-le_bytes 8 p (omega arith)

module _ (dev : Device) where
  open dev use {Disk}

  -- From `head` the first 8 bytes of each block lead through the blocks `xs`, all in the volume,
  -- to 0.
  abbrev pub Chain : Ctx → Disk → ℕ → List ℕ → Type 0
  Chain ctx d head [] = head ≡ 0
  Chain ctx d head (x ∷ xs) =
      (head ≡ x)
      × (x ≢ 0)
      × (x < total_blocks ctx)
      × ((buf : List ℕ) × (block_read dev ctx d x ctx.sb.block_size ≡ ok buf)
          × Chain ctx d (le_value (take 8 buf)) xs)

  pub record IsFreeList (ctx : Ctx) (d : Disk) (hdr : TreeHeader) (xs : List ℕ) : Type 0 where
    pub chain : Chain ctx d hdr.free_node_lba xs
    pub count : hdr.free_nodes ≡ length xs
    pub distinct : Distinct xs

  -- Writing to a block that is not on the chain leaves the chain alone.
  pub Chain-block_write :
      (ctx : Ctx) (d : Disk) (y : ℕ) (bs : List ℕ)
      → IsSane ctx
      → y < total_blocks ctx
      → length bs ≡ ctx.sb.block_size
      → (head : ℕ) (xs : List ℕ) → NotIn y xs
      → Chain ctx d head xs
      → Chain ctx (block_write dev ctx d y bs).1 head xs
  Chain-block_write ctx d y bs s in_y len head [] out c = c
  Chain-block_write ctx d y bs s in_y len head (x ∷ xs) out (e, ne, in_x, (buf, got, rest)) = (
    e,
    ne,
    in_x,
    (
      buf,
      block_read-block_write_ne dev ctx d y x bs s.small in_y in_x out.0 len ∙ got,
      Chain-block_write ctx d y bs s in_y len (le_value (take 8 buf)) xs out.1 rest,
    ),
  )

  -- A block linked in front of the chain.
  pub Chain-link :
      (ctx : Ctx) (d : Disk) (y head : ℕ) (xs : List ℕ)
      → IsSane ctx
      → y ≢ 0
      → y < total_blocks ctx
      → head < 2 ^ 64
      → NotIn y xs
      → Chain ctx d head xs
      → (block_write dev ctx d y (link_block ctx head)).0 ≡ ok tt
      → Chain ctx (block_write dev ctx d y (link_block ctx head)).1 y (y ∷ xs)
  Chain-link ctx d y head xs s ne in_y small out c done =
      let len = length-link_block ctx head s.room in
      (
        refl,
        ne,
        in_y,
        (
          link_block ctx head,
          subst
              (λ n.
                block_read dev ctx (block_write dev ctx d y (link_block ctx head)).1 y n
                ≡ ok (link_block ctx head))
              len (block_read-block_write_same dev ctx d y (link_block ctx head) done),
          subst (λ p. Chain ctx (block_write dev ctx d y (link_block ctx head)).1 p xs)
              (sym (link_block-next ctx head small))
              (Chain-block_write ctx d y (link_block ctx head) s in_y len head xs out c),
        ),
      )

  -- The head of a chain is 0 or a block of the volume.
  pub Chain-head :
      (ctx : Ctx) (d : Disk) (head : ℕ) (xs : List ℕ)
      → IsSane ctx
      → Chain ctx d head xs
      → head < 2 ^ 64
  Chain-head ctx d head [] s c = omega arith
  Chain-head ctx d head (x ∷ xs) s c = omega (arith, s.blocks)
