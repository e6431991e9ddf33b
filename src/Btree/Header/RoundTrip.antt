-- ===== src/Btree/Header/RoundTrip.antt =====
-- A header that was written is read back.
use obmafs.Prelude.{
  ℕ, ◌-◌, ◌<◌, ◌≤◌, ◌^◌, ◌≡◌, ◌⊎◌, refl, true, List, replicate, length, length-append, arith, ◌==◌,
  length-replicate, ◌∙◌, ◌≢◌, subst, eq→==,
}
use obmafs.Context.{Ctx, total_blocks, Result, ok, err, io, checksum}
use obmafs.Codec.{pack}
use obmafs.Codec.RoundTrip.{Fits, unpack-pack, length-pack}
use obmafs.Device.{Device, block_read, block_write}
use obmafs.Device.Blocks.{block_read-block_write_same, block_read-io}
use obmafs.Btree.Struct.{TreeHeader, header_widths, header_fields, header_magic}
use obmafs.Btree.Header.{
  header_checksum, decode_header, and_decode, strict, header_read, header_read_lenient,
  repair_free_list, sealed_header, header_block, header_write,
}

module _ (dev : Device) (xxh64 : List ℕ → ℕ) where
  open dev use {Disk}

  and_decode-err :
      (ctx : Ctx) (d : Disk) (lba : ℕ) (r : Result (List ℕ))
      → block_read dev ctx d lba ctx.sb.block_size ≡ r
      → and_decode dev xxh64 r ≡ err checksum
      → ⊥
  unfolding and_decode decode_header
  and_decode-err ctx d lba (err e) is h =
      let wrong : e ≡ io = block_read-io dev ctx d lba ctx.sb.block_size is in cc
  and_decode-err ctx d lba (ok buf) is h = ground (arith, h)

  -- A checksum that does not match is no error of `obmafs3_btree_header_read_lenient`.
  pub header_read_lenient-err :
      (ctx : Ctx) (d : Disk) (lba : ℕ) → header_read_lenient dev xxh64 ctx d lba ≡ err checksum → ⊥
  unfolding header_read_lenient
  header_read_lenient-err ctx d lba h =
      and_decode-err ctx d lba (block_read dev ctx d lba ctx.sb.block_size) refl h

module _ (dev : Device) (xxh64 : List ℕ → ℕ) (hash_lt : (bs : List ℕ) → xxh64 bs < 2 ^ 64) where
  open dev use {Disk}

  decode-header_block :
      (ctx : Ctx) (hdr : TreeHeader)
      → Fits header_widths (header_fields hdr)
      → hdr.magic ≡ header_magic
      → hdr.checksum ≡ header_checksum dev xxh64 hdr
      → decode_header dev xxh64 (header_block dev xxh64 ctx hdr) ≡ ok (hdr, true)
  unfolding decode_header header_block
  decode-header_block ctx hdr fits magic sum =
      let is_header : (hdr.magic == header_magic) ≡ true = eq→== hdr.magic header_magic magic in
      let is_sealed : (hdr.checksum == header_checksum dev xxh64 hdr) ≡ true = eq→== _ _ sum in
      rw (
        unpack-pack header_widths (header_fields hdr) (replicate (ctx.sb.block_size - 90) 0) fits,
        is_header,
        is_sealed,
      )

  sealed_header-Fits :
      (ctx : Ctx) (hdr : TreeHeader)
      → Fits header_widths (header_fields hdr)
      → Fits header_widths (header_fields (sealed_header dev xxh64 ctx hdr))
  unfolding sealed_header repair_free_list header_checksum
  sealed_header-Fits ctx hdr fits = ground (
    arith,
    hash_lt (
        pack header_widths
          (header_fields (record (repair_free_list dev xxh64 ctx hdr) { checksum = 0 }))),
  )

  sealed_header-checksum :
      (ctx : Ctx) (hdr : TreeHeader)
      → (sealed_header dev xxh64 ctx hdr).checksum
        ≡ header_checksum dev xxh64 (sealed_header dev xxh64 ctx hdr)
  unfolding sealed_header header_checksum
  sealed_header-checksum ctx hdr = refl

  sealed_header-magic :
      (ctx : Ctx) (hdr : TreeHeader) → (sealed_header dev xxh64 ctx hdr).magic ≡ hdr.magic
  unfolding sealed_header repair_free_list
  sealed_header-magic ctx hdr = ground arith

  length-header_block :
      (ctx : Ctx) (hdr : TreeHeader)
      → 90 ≤ ctx.sb.block_size
      → Fits header_widths (header_fields hdr)
      → length (header_block dev xxh64 ctx hdr) ≡ ctx.sb.block_size
  unfolding header_block
  length-header_block ctx hdr room fits = omega (
    arith,
    length-append (pack header_widths (header_fields hdr)) (replicate (ctx.sb.block_size - 90) 0),
    length-pack header_widths (header_fields hdr) fits,
    length-replicate {A = ℕ} (ctx.sb.block_size - 90) 0,
  )

  header_read-sealed_header :
      (ctx : Ctx) (d : Disk) (lba : ℕ) (hdr : TreeHeader)
      → 90 ≤ ctx.sb.block_size
      → Fits header_widths (header_fields hdr)
      → hdr.magic ≡ header_magic
      → (header_write dev xxh64 ctx d lba hdr).0 ≡ ok tt
      → header_read dev xxh64 ctx (header_write dev xxh64 ctx d lba hdr).1 lba
        ≡ ok (sealed_header dev xxh64 ctx hdr)
  unfolding header_write header_read header_read_lenient and_decode strict
  header_read-sealed_header ctx d lba hdr room fits magic done =
      let sealed = sealed_header dev xxh64 ctx hdr in
      let block = header_block dev xxh64 ctx sealed in
      let sealed_fits = sealed_header-Fits ctx hdr fits in
      let whole : length block ≡ ctx.sb.block_size =
        length-header_block ctx sealed room sealed_fits in
      let back : block_read dev ctx (block_write dev ctx d lba block).1 lba ctx.sb.block_size
          ≡ ok block =
        subst (λ n. block_read dev ctx (block_write dev ctx d lba block).1 lba n ≡ ok block) whole
          (block_read-block_write_same dev ctx d lba block done) in
      rw (
        back,
        decode-header_block ctx sealed sealed_fits (sealed_header-magic ctx hdr ∙ magic)
            (sealed_header-checksum ctx hdr),
      )

  -- The header that `obmafs3_btree_header_write` hands back is the one that
  -- `obmafs3_btree_header_read` reads from the block, if the write succeeded.
  pub header_read-header_write :
      (ctx : Ctx) (d : Disk) (lba : ℕ) (hdr : TreeHeader)
      → 90 ≤ ctx.sb.block_size
      → Fits header_widths (header_fields hdr)
      → hdr.magic ≡ header_magic
      → (header_write dev xxh64 ctx d lba hdr).0 ≡ ok tt
      → header_read dev xxh64 ctx (header_write dev xxh64 ctx d lba hdr).1 lba
        ≡ ok (header_write dev xxh64 ctx d lba hdr).2
  unfolding header_write
  header_read-header_write ctx d lba hdr room fits magic done =
      header_read-sealed_header ctx d lba hdr room fits magic done

  sealed_header-free_list :
      (ctx : Ctx) (hdr : TreeHeader)
      → let hdr' = sealed_header dev xxh64 ctx hdr in
        ((hdr'.free_node_lba ≡ 0) ⊎ (hdr'.free_node_lba < total_blocks ctx))
        × (hdr.free_node_lba < total_blocks ctx
            → hdr' ≡ record hdr { checksum = header_checksum dev xxh64 hdr })
        × (hdr.free_node_lba ≢ 0
            → total_blocks ctx ≤ hdr.free_node_lba
            → (hdr'.free_node_lba ≡ 0) × (hdr'.free_nodes ≡ 0))
        × (hdr'.root_node_lba ≡ hdr.root_node_lba)
  unfolding sealed_header repair_free_list
  sealed_header-free_list ctx hdr = (ground arith, ground arith, ground arith, ground arith)

  -- For a header with the right magic whose fields fit, in a block with room for it, and if the write
  -- succeeds: the header that `obmafs3_btree_header_read` then reads from the disk names no free list
  -- outside the volume. Such a list was dropped; any other header is as it was given, but for its
  -- checksum.
  pub header_read-free_list :
      (ctx : Ctx) (d : Disk) (lba : ℕ) (hdr : TreeHeader)
      → 90 ≤ ctx.sb.block_size
      → Fits header_widths (header_fields hdr)
      → hdr.magic ≡ header_magic
      → (header_write dev xxh64 ctx d lba hdr).0 ≡ ok tt
      → (stored : TreeHeader) × (header_read dev xxh64 ctx
            (header_write dev xxh64 ctx d lba hdr).1
            lba
          ≡ ok stored)
        × ((stored.free_node_lba ≡ 0) ⊎ (stored.free_node_lba < total_blocks ctx))
        × (hdr.free_node_lba < total_blocks ctx
            → stored ≡ record hdr { checksum = header_checksum dev xxh64 hdr })
        × (hdr.free_node_lba ≢ 0
            → total_blocks ctx ≤ hdr.free_node_lba
            → (stored.free_node_lba ≡ 0) × (stored.free_nodes ≡ 0))
        × (stored.root_node_lba ≡ hdr.root_node_lba)
  header_read-free_list ctx d lba hdr room fits magic done =
      let (named, kept, dropped, root) = sealed_header-free_list ctx hdr in
      (
        sealed_header dev xxh64 ctx hdr,
        header_read-sealed_header ctx d lba hdr room fits magic done,
        named,
        kept,
        dropped,
        root,
      )
