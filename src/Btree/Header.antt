-- ===== src/Btree/Header.antt =====
-- `obmafs3_btree_header_read`, `obmafs3_btree_header_read_lenient` and
-- `obmafs3_btree_header_write` of src/lib/btree.c, with `obmafs3_checksum_block` of
-- src/lib/checksum.c.
pub mod RoundTrip
use obmafs.Prelude.{
  ℕ, ◌-◌, ◌<◌, ◌^◌, Bool, true, false, List, ◌++◌, leb, ◌==◌, ◌&&◌, not, if◌then◌else◌, replicate,
  length,
}
use obmafs.Context.{Ctx, total_blocks, Result, ok, err, Error, badmagic, checksum}
use obmafs.Codec.{pack, unpack}
use obmafs.Device.{Device, block_read, block_write}
use obmafs.Btree.Struct.{TreeHeader, header_widths, header_fields, header_of, header_magic}

-- `obmafs3_checksum_block`: the XXH64 hash in the first 8 of 32 bytes, the rest zero.
abbrev pub checksum_block : (List ℕ → ℕ) → List ℕ → ℕ
checksum_block xxh64 bs = xxh64 bs

module _ (dev : Device) (xxh64 : List ℕ → ℕ) where
  open dev use {Disk}

  -- The checksum of a header, with its own field zeroed.
  pub header_checksum : TreeHeader → ℕ
  header_checksum hdr =
      checksum_block xxh64 (pack header_widths (header_fields (record hdr { checksum = 0 })))

  -- The header, and `checksum_ok`.
  decode_header : List ℕ → Result (TreeHeader × Bool)
  decode_header buf =
      let hdr = header_of (unpack header_widths buf) in
      if hdr.magic == header_magic
      then ok (hdr, hdr.checksum == header_checksum hdr)
      else err badmagic

  and_decode : Result (List ℕ) → Result (TreeHeader × Bool)
  and_decode (err e) = err e
  and_decode (ok buf) = decode_header buf

  pub header_read_lenient : Ctx → Disk → ℕ → Result (TreeHeader × Bool)
  header_read_lenient ctx d lba = and_decode (block_read dev ctx d lba ctx.sb.block_size)

  strict : Result (TreeHeader × Bool) → Result TreeHeader
  strict (err e) = err e
  strict (ok (hdr, true)) = ok hdr
  strict (ok (hdr, false)) = err checksum

  pub header_read : Ctx → Disk → ℕ → Result TreeHeader
  header_read ctx d lba = strict (header_read_lenient ctx d lba)

  -- A free list that starts outside the volume is dropped.
  pub repair_free_list : Ctx → TreeHeader → TreeHeader
  repair_free_list ctx hdr =
      if not (hdr.free_node_lba == 0) && leb (total_blocks ctx) hdr.free_node_lba
      then record hdr { free_node_lba = 0; free_nodes = 0 }
      else hdr

  -- The header as it is written, which the caller gets back.
  pub sealed_header : Ctx → TreeHeader → TreeHeader
  sealed_header ctx hdr =
      let hdr' = repair_free_list ctx hdr in record hdr' { checksum = header_checksum hdr' }

  pub header_block : Ctx → TreeHeader → List ℕ
  header_block ctx hdr =
      pack header_widths (header_fields hdr) ++ replicate (ctx.sb.block_size - 90) 0

  unfoldable pub header_write : Ctx → Disk → ℕ → TreeHeader → Result (Unit {0}) × Disk × TreeHeader
  header_write ctx d lba hdr =
      let hdr' = sealed_header ctx hdr in
      let (r, d') = block_write dev ctx d lba (header_block ctx hdr') in (r, d', hdr')
