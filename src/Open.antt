-- ===== src/Open.antt =====
-- Opening a volume: `obmafs3_open_flags` of src/lib/io.c. It finds a superblock, the primary or else
-- the backup, checks its revision and feature flags, and loads the tree headers and the bitmap.
pub mod Loading
pub mod Guards
pub mod Recovery
use obmafs.Prelude.{
  ℕ, ◌+◌, ◌-◌, ◌*◌, ◌<◌, ◌^◌, Option, none, some, Bool, true, false, List, [], ◌∷◌, bit_and, ltb,
  ◌==◌, ◌&&◌, ◌||◌, not, if◌then◌else◌, not64,
}
use obmafs.Context.{
  Superblock, Ctx, Result, ok, err, Error, io, nomem, badmagic, checksum, revision, incompat,
}
use obmafs.Device.{Device}
use obmafs.Btree.{TreeHeader}
use obmafs.Btree.Header.{header_read, header_read_lenient}
use obmafs.Superblock.{sb_read, sb_validate, sb_read_backup}
use obmafs.Bitmap.Disk.{bitmap_read}

-- OBMAFS3_OPEN_SKIP_BITMAP and OBMAFS3_OPEN_LENIENT
abbrev pub skip_bitmap : ℕ → Bool
skip_bitmap flags = not (bit_and flags 1 == 0)

abbrev pub lenient : ℕ → Bool
lenient flags = not (bit_and flags 2 == 0)

-- OBMAFS3_REVISION, OBMAFS3_INCOMPAT_FLAGS_KNOWN and OBMAFS3_ROCOMPAT_FLAGS_KNOWN
abbrev pub supported_revision : ℕ
supported_revision = 20260224

abbrev pub incompat_known : ℕ
incompat_known = 1

abbrev pub rocompat_known : ℕ
rocompat_known = 31

-- What the operating system answers: whether the file opens, memory can be allocated and the
-- thread-local key be created, and the size that `lseek` gives (0 if it fails).
pub record System : Type 0 where
  pub opens : Bool
  pub ctx_ok : Bool
  pub key_ok : Bool
  pub leaf_ok : Bool
  pub bitmap_ok : Bool
  pub buffer_ok : Bool
  pub file_size : ℕ

-- The cached headers of the trees.
pub record Headers : Type 0 where
  pub catalog : TreeHeader
  pub inode : TreeHeader
  pub overflow : TreeHeader
  pub media_tag : TreeHeader
  pub cd_prefix : TreeHeader
  pub cd_suffix : TreeHeader
  pub cd_subchannel : TreeHeader
  pub metadata : TreeHeader
  pub metadata_idx : TreeHeader
  pub refcount : TreeHeader
  pub sector_tag_data : TreeHeader
  pub sector_tag_ref : TreeHeader
  pub junk_map : TreeHeader
  pub metadata_numeric_idx : TreeHeader

-- The part of the context that opening fills.
pub record Volume : Type 0 where
  pub core : Ctx
  pub headers : Headers
  pub read_only : Bool

-- A header as `calloc` leaves it.
abbrev pub blank : TreeHeader
blank = record {
  magic = 0;
  data_type = 0;
  root_node_lba = 0;
  free_node_lba = 0;
  node_size = 0;
  total_nodes = 0;
  free_nodes = 0;
  tree_type = 0;
  last_block_lba = 0;
  last_block_offset = 0;
  checksum = 0;
}

-- A failure ends the opening.
unfoldable pub need {ℓ κ} : {A : Type ℓ} {B : Type κ} → Result A → (A → Result B) → Result B
need (err e) next = err e
need (ok a) next = next a

unfoldable pub require : Bool → Error → Result (Unit {0})
require true e = ok tt
require false e = err e

-- `if(lba != 0)`
abbrev pub if_there : (ℕ → Result TreeHeader) → ℕ → Result TreeHeader
if_there read lba = if lba == 0 then ok blank else read lba

-- The headers that both ways of opening load.
unfoldable pub load_common :
    (ℕ → Result TreeHeader)
    → Superblock
    → (junk_map metadata_numeric_idx : Result TreeHeader) → Result Headers
load_common read sb junk_map metadata_numeric_idx = need (read sb.catalog_lba) λ catalog.
    need (read sb.inode_lba) λ inode. need (if_there read sb.overflow_lba) λ overflow.
      need (if_there read sb.media_tag_lba) λ media_tag.
        need (if_there read sb.cd_prefix_lba) λ cd_prefix.
          need (if_there read sb.cd_suffix_lba) λ cd_suffix.
            need (if_there read sb.cd_subchannel_lba) λ cd_subchannel.
              need (if_there read sb.metadata_lba) λ metadata.
                need (if_there read sb.metadata_idx_lba) λ metadata_idx.
                  need (if_there read sb.refcount_lba) λ refcount.
                    need (if_there read sb.sector_tag_data_lba) λ sector_tag_data.
                      need (if_there read sb.sector_tag_ref_lba) λ sector_tag_ref.
                        need junk_map λ junk. need metadata_numeric_idx λ numeric. ok (record {
                          catalog = catalog;
                          inode = inode;
                          overflow = overflow;
                          media_tag = media_tag;
                          cd_prefix = cd_prefix;
                          cd_suffix = cd_suffix;
                          cd_subchannel = cd_subchannel;
                          metadata = metadata;
                          metadata_idx = metadata_idx;
                          refcount = refcount;
                          sector_tag_data = sector_tag_data;
                          sector_tag_ref = sector_tag_ref;
                          junk_map = junk;
                          metadata_numeric_idx = numeric;
                        })

unfoldable pub validated : Superblock → Result (Unit {0}) → Option Superblock
validated sb (ok u) = some sb
validated sb (err e) = none

-- A superblock that opening accepts.
unfoldable pub usable : Result Superblock → Option Superblock
usable (err e) = none
usable (ok sb) = validated sb (sb_validate sb)

-- The error of a primary superblock that is not used.
unfoldable pub primary_error : Result Superblock → Error
primary_error (err e) = e
primary_error (ok sb) = badmagic

abbrev pub try_bs : List ℕ
try_bs = 4096 ∷ 512 ∷ 1024 ∷ 2048 ∷ 8192 ∷ 16384 ∷ 32768 ∷ 65536 ∷ []

-- The first choice, or else the second.
abbrev pub or_else {ℓ} : {A : Type ℓ} → Option A → Option A → Option A
or_else (some a) other = some a
or_else none other = other

pub fits_volume : (bs file_size : ℕ) → Option Superblock → Option Superblock
fits_volume bs file_size none = none
fits_volume bs file_size (some backup) =
    if (backup.block_size == bs) && (backup.total_bytes == file_size) then some backup else none

unfoldable pub to_result : Error → Option Superblock → Result Superblock
to_result e none = err e
to_result e (some sb) = ok sb

-- Whether the volume is read-only because of feature flags, or the error that keeps it closed.
unfoldable pub check_features : (flags : ℕ) → Superblock → Result Bool
check_features flags sb =
    if lenient flags
    then ok false
    else if ltb supported_revision sb.revision
    then err revision
    else if not (bit_and sb.incompatible_flags (not64 incompat_known) == 0)
    then err incompat
    else ok (not (bit_and sb.rocompat_flags (not64 rocompat_known) == 0))

-- Checksum errors are tolerated.
unfoldable pub tolerate : Result (TreeHeader × Bool) → Result TreeHeader
tolerate (ok (hdr, checksum_ok)) = ok hdr
tolerate (err checksum) = ok blank
tolerate (err e) = err e

-- The context before the bitmap is loaded.
abbrev pub new_ctx : Superblock → Ctx
new_ctx sb = record { sb = sb; bitmap = none; bitmap_size = 0; next_free_lba = 0 }

pub with_bitmap : Ctx × Result (Unit {0}) → Result Ctx
with_bitmap (ctx, ok u) = ok ctx
with_bitmap (ctx, err e) = err e

module _ (dev : Device) (xxh64 : List ℕ → ℕ) where
  open dev use {Disk}

  -- `for(i = 0; i < 8; i++)` over the block sizes.
  pub probe : Disk → (file_size : ℕ) → List ℕ → Option Superblock
  probe d file_size [] = none
  probe d file_size (bs ∷ sizes) =
      let found = fits_volume bs file_size (usable (sb_read_backup dev xxh64 d bs file_size)) in
      if ltb file_size (2 * bs)
      then probe d file_size sizes
      else or_else found (probe d file_size sizes)

  -- The primary superblock, or else the backup.
  unfoldable pub find_superblock : Disk → (file_size : ℕ) → Result Superblock
  find_superblock d file_size =
      let primary = sb_read dev xxh64 d in
      to_result (primary_error primary)
        (or_else (usable primary) (if ltb 0 file_size then probe d file_size try_bs else none))

  unfoldable pub load_headers : (flags : ℕ) → Ctx → Disk → Result Headers
  load_headers flags ctx d =
      let read = header_read dev xxh64 ctx d in
      if lenient flags
      then load_common (λ lba. tolerate (header_read_lenient dev xxh64 ctx d lba)) ctx.sb (ok blank)
          (ok blank)
      else load_common read ctx.sb (if_there read ctx.sb.junk_map_lba)
          (if_there read ctx.sb.metadata_numeric_idx_lba)

  unfoldable pub load_bitmap : System → (flags : ℕ) → Ctx → Disk → Result Ctx
  load_bitmap sys flags ctx d =
      if skip_bitmap flags || (ctx.sb.bitmap_lba == 0) || (ctx.sb.bitmap_blocks == 0)
      then ok ctx
      else with_bitmap (bitmap_read dev xxh64 sys.bitmap_ok sys.buffer_ok ctx d)

  -- `load_indexes` is `obmafs3_user_index_load`, which strict opening calls for a registry.
  unfoldable pub load_registry :
      (load_indexes : Ctx → Disk → Result (Unit {0})) → (flags : ℕ) → Ctx → Disk → Result (Unit {0})
  load_registry load_indexes flags ctx d =
      if lenient flags || (ctx.sb.user_index_registry_lba == 0) then ok tt else load_indexes ctx d

  unfoldable pub open_flags :
      System → (load_indexes : Ctx → Disk → Result (Unit {0})) → (flags : ℕ) → Disk → Result Volume
  open_flags sys load_indexes flags d = need (require sys.opens io) λ opened.
      need (require sys.ctx_ok nomem) λ allocated. need (find_superblock d sys.file_size) λ sb.
        need (check_features flags sb) λ read_only.
          need (require (sys.key_ok && sys.leaf_ok) nomem) λ buffers.
            need (load_headers flags (new_ctx sb) d) λ headers.
              need (load_registry load_indexes flags (new_ctx sb) d) λ indexes.
                need (load_bitmap sys flags (new_ctx sb) d)
                  λ ctx. ok (record { core = ctx; headers = headers; read_only = read_only })
