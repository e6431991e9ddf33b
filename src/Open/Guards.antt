-- ===== src/Open/Guards.antt =====
-- What `obmafs3_open_flags` (src/lib/io.c) guarantees of a volume that it opens.
use obmafs.Prelude.{
  ℕ, ◌*◌, ◌≤◌, ◌≡◌, ◌≢◌, ◌⊎◌, refl, ◌∙◌, ap, sym, subst, Bool, true, false, Option, none, some,
  List, [], ◌∷◌, bit_and, ltb, ◌==◌, ◌||◌, ◌&&◌, not64, arith, Bool-cases, inl, inr,
}
use obmafs.Context.{Superblock, Ctx, Result, ok, err, Error, io, nomem}
use obmafs.Device.{Device}
use obmafs.Superblock.{sb_validate, sb_read, sb_read_backup}
use obmafs.Bitmap.Disk.{bitmap_read}
use obmafs.Bitmap.Disk.Outcome.{bitmap_read-Loads}
use obmafs.Open.{
  System, Headers, Volume, require, usable, validated, primary_error, try_bs, or_else, fits_volume,
  to_result, probe, find_superblock, lenient, skip_bitmap, supported_revision, incompat_known,
  rocompat_known, check_features, new_ctx, with_bitmap, load_headers, load_bitmap, load_registry,
  open_flags, blank,
}
use obmafs.Open.Loading.{
  need-ok, Named, AreHeaders, Sealed, Stored, load_headers-strict, load_headers-lenient,
}
use obmafs.Open.Recovery.{IsUsable, validate-IsUsable}

err-ok {ℓ} : {A : Type ℓ} {a : A} {e : Error} → err e ≡ ok a → ⊥
err-ok h = cc

ok-inj : {v w : Volume} → ok v ≡ ok w → v ≡ w
ok-inj h = cc

usable-IsUsable : (r : Result Superblock) (sb : Superblock) → usable r ≡ some sb → IsUsable sb
unfolding usable validated
usable-IsUsable (err e) sb h = cc
usable-IsUsable (ok s) sb h = checked (sb_validate s) refl h
  where
    checked : (v : Result (Unit {0})) → sb_validate s ≡ v → validated s v ≡ some sb → IsUsable sb
    checked (ok u) e p = let same : s ≡ sb = cc in subst IsUsable same (validate-IsUsable s e)
    checked (err x) e p = cc

none-some : {sb : Superblock} → none ≡ some sb → ⊥
none-some h = cc

fits_volume-some :
    (bs file_size : ℕ) (o : Option Superblock) {sb : Superblock}
    → fits_volume bs file_size o ≡ some sb
    → o ≡ some sb
unfolding fits_volume
fits_volume-some bs file_size none h = h
fits_volume-some bs file_size (some backup) h =
    elim (Bool-cases ((backup.block_size == bs) && (backup.total_bytes == file_size))) [
      | inl fits ↦ rw fits at h
      | inr other ↦ absurd (none-some (rw other at h))
    ]

or_else-some {ℓ} :
    {A : Type ℓ} (x y : Option A) {a : A} → or_else x y ≡ some a → (x ≡ some a) ⊎ (y ≡ some a)
or_else-some none y h = inr h
or_else-some (some x) y h = inl h

to_result-ok :
    (e : Error) (o : Option Superblock) {sb : Superblock} → to_result e o ≡ ok sb → o ≡ some sb
unfolding to_result
to_result-ok e none h = cc
to_result-ok e (some s) h = cc

-- What the features of a volume that is opened strictly are.
pub record IsSupported (sb : Superblock) (read_only : Bool) : Type 0 where
  pub revision : sb.revision ≤ supported_revision
  pub incompat : bit_and sb.incompatible_flags (not64 incompat_known) ≡ 0
  pub rocompat : read_only ≡ false → bit_and sb.rocompat_flags (not64 rocompat_known) ≡ 0

check_features-IsSupported :
    (flags : ℕ) (sb : Superblock) {read_only : Bool}
    → lenient flags ≡ false
    → check_features flags sb ≡ ok read_only
    → IsSupported sb read_only
unfolding check_features
check_features-IsSupported flags sb strict h = record {
  revision = ground arith;
  incompat = ground arith;
  rocompat = λ e. ground arith;
}

module _ (dev : Device) (xxh64 : List ℕ → ℕ) where
  open dev use {Disk}

  probe-IsUsable :
      (d : Disk) (file_size : ℕ) (sizes : List ℕ) {sb : Superblock}
      → probe dev xxh64 d file_size sizes ≡ some sb
      → IsUsable sb
  unfolding probe
  probe-IsUsable d file_size [] h = cc
  probe-IsUsable d file_size (bs ∷ sizes) h =
      let backup = sb_read_backup dev xxh64 d bs file_size in
      elim (Bool-cases (ltb file_size (2 * bs))) [
        | inl small ↦ probe-IsUsable d file_size sizes (rw small at h)
        | inr large ↦
            elim (or_else-some (fits_volume bs file_size (usable backup)) _ (rw large at h)) [
              | inl this ↦
                  usable-IsUsable backup _ (fits_volume-some bs file_size (usable backup) this)
              | inr later ↦ probe-IsUsable d file_size sizes later
            ]
      ]

  find_superblock-IsUsable :
      (d : Disk) (file_size : ℕ) {sb : Superblock}
      → find_superblock dev xxh64 d file_size ≡ ok sb
      → IsUsable sb
  unfolding find_superblock
  find_superblock-IsUsable d file_size h =
      let primary = sb_read dev xxh64 d in
      elim (or_else-some (usable primary) _ (to_result-ok (primary_error primary) _ h)) [
        | inl first ↦ usable-IsUsable primary _ first
        | inr second ↦ elim (Bool-cases (ltb 0 file_size)) [
          | inl sized ↦ probe-IsUsable d file_size try_bs (rw sized at second)
          | inr empty ↦ absurd (none-some (rw empty at second))
        ]
      ]

  with_bitmap-ok :
      (r : Ctx × Result (Unit {0})) {c : Ctx} → with_bitmap r ≡ ok c → (r.1 ≡ ok tt) × (r.0 ≡ c)
  unfolding with_bitmap
  with_bitmap-ok (x, ok u) h = (refl, cc)
  with_bitmap-ok (x, err e) h = absurd (err-ok h)

  -- Loading the bitmap keeps the superblock, and gives a bitmap if there is one to load.
  load_bitmap-ok :
      (sys : System) (flags : ℕ) (ctx : Ctx) (d : Disk) {c : Ctx}
      → load_bitmap dev xxh64 sys flags ctx d ≡ ok c
      → (c.sb ≡ ctx.sb)
        × (skip_bitmap flags ≡ false
            → ctx.sb.bitmap_lba ≢ 0
            → ctx.sb.bitmap_blocks ≢ 0
            → (bytes : List ℕ) × (c.bitmap ≡ some bytes))
  unfolding load_bitmap
  load_bitmap-ok sys flags ctx d {c} h =
      let r = bitmap_read dev xxh64 sys.bitmap_ok sys.buffer_ok ctx d in
      let p = bitmap_read-Loads dev xxh64 sys.bitmap_ok sys.buffer_ok ctx d in
      elim (Bool-cases
        (skip_bitmap flags || (ctx.sb.bitmap_lba == 0) || (ctx.sb.bitmap_blocks == 0))) [
          | inl skipped ↦
              let same : ok ctx ≡ ok c = rw skipped at h in
              let e : ctx ≡ c = cc in
              (ap (λ (x : Ctx). x.sb) (sym e), λ a b k. absurd (ground arith))
          | inr read ↦
              let done = with_bitmap-ok r (rw read at h) in
              (
                ap (λ (x : Ctx). x.sb) (sym done.1) ∙ p.sb,
                λ a b k.
                    let got = p.loaded done.0 in
                    (got.0, ap (λ (x : Ctx). x.bitmap) (sym done.1) ∙ got.1),
              )
        ]

  -- What is known of a volume that was opened.
  pub record IsOpened (flags : ℕ) (d : Disk) (v : Volume) : Type 0 where
    pub usable_sb : IsUsable v.core.sb
    pub supported : lenient flags ≡ false → IsSupported v.core.sb v.read_only
    pub headers :
        lenient flags ≡ false
        → let read = Sealed dev xxh64 (new_ctx v.core.sb) d in
          AreHeaders read v.core.sb v.headers
          × Named read v.core.sb.junk_map_lba v.headers.junk_map
          × Named read v.core.sb.metadata_numeric_idx_lba v.headers.metadata_numeric_idx
    pub tolerated :
        lenient flags ≡ true
        → AreHeaders (Stored dev xxh64 (new_ctx v.core.sb) d) v.core.sb v.headers
          × (v.headers.junk_map ≡ blank)
          × (v.headers.metadata_numeric_idx ≡ blank)
    pub bitmap :
        skip_bitmap flags ≡ false
        → v.core.sb.bitmap_lba ≢ 0
        → v.core.sb.bitmap_blocks ≢ 0
        → (bytes : List ℕ) × (v.core.bitmap ≡ some bytes)

  parts-IsOpened :
      (sys : System) (flags : ℕ) (d : Disk) (sb : Superblock) (read_only : Bool) (headers : Headers)
      (ctx : Ctx)
      → find_superblock dev xxh64 d sys.file_size ≡ ok sb
      → check_features flags sb ≡ ok read_only
      → load_headers dev xxh64 flags (new_ctx sb) d ≡ ok headers
      → load_bitmap dev xxh64 sys flags (new_ctx sb) d ≡ ok ctx
      → IsOpened flags d (record { core = ctx; headers = headers; read_only = read_only })
  parts-IsOpened sys flags d sb read_only headers ctx found features loaded bitmap =
      let kept = load_bitmap-ok sys flags (new_ctx sb) d bitmap in
      let same : sb ≡ ctx.sb = sym kept.0 in
      record {
        usable_sb = subst IsUsable same (find_superblock-IsUsable d sys.file_size found);
        supported = λ strict.
            subst (λ x. IsSupported x read_only) same
              (check_features-IsSupported flags sb strict features);
        headers = λ strict.
            load_headers-strict dev xxh64 (new_ctx ctx.sb) d flags headers strict
              (subst (λ x. load_headers dev xxh64 flags (new_ctx x) d ≡ ok headers) same loaded);
        tolerated = λ soft.
            load_headers-lenient dev xxh64 (new_ctx ctx.sb) d flags headers soft
              (subst (λ x. load_headers dev xxh64 flags (new_ctx x) d ≡ ok headers) same loaded);
        bitmap = λ asked.
            subst
              (λ (x : Superblock).
                x.bitmap_lba ≢ 0
                → x.bitmap_blocks ≢ 0
                → (bytes : List ℕ) × (ctx.bitmap ≡ some bytes))
              same (kept.1 asked);
      }

  -- A volume that `obmafs3_open_flags` opens has a superblock that passes validation, and its bitmap
  -- is loaded unless the flags or the superblock say otherwise. Opened strictly, each cached header is
  -- the one that `obmafs3_btree_header_read` reads from the block that the superblock names for this
  -- tree, or blank where it names block 0 (the catalog and the inodes have no such exception); its
  -- revision is not newer than the supported one, it has no unknown incompatible feature, and it is
  -- read-only if it has an unknown read-only one. Opened leniently, the headers are those of the
  -- blocks whether their checksums match or not, and the headers of the junk map and of the numeric
  -- index of metadata are blank.
  pub open_flags-IsOpened :
      (sys : System) (load_indexes : Ctx → Disk → Result (Unit {0})) (flags : ℕ) (d : Disk)
      {v : Volume}
      → open_flags dev xxh64 sys load_indexes flags d ≡ ok v
      → IsOpened flags d v
  unfolding open_flags
  open_flags-IsOpened sys load_indexes flags d {v} h =
      need-ok (require sys.opens io) _ h λ u opened h1.
        need-ok (require sys.ctx_ok nomem) _ h1 λ w allocated h2.
          need-ok (find_superblock dev xxh64 d sys.file_size) _ h2 λ sb found h3.
            need-ok (check_features flags sb) _ h3 λ read_only features h4.
              need-ok (require (sys.key_ok && sys.leaf_ok) nomem) _ h4 λ x buffers h5.
                need-ok (load_headers dev xxh64 flags (new_ctx sb) d) _ h5 λ headers loaded h6.
                  need-ok (load_registry dev xxh64 load_indexes flags (new_ctx sb) d) _ h6
                    λ y indexes h7.
                      need-ok (load_bitmap dev xxh64 sys flags (new_ctx sb) d) _ h7 λ ctx bitmap h8.
                        subst (IsOpened flags d) (ok-inj h8) (
                          parts-IsOpened sys flags d sb read_only headers ctx found features loaded
                            bitmap)
