-- ===== src/Open/Loading.antt =====
-- Which headers of trees `obmafs3_open_flags` (src/lib/io.c) keeps in the context.
use obmafs.Prelude.{
  ℕ, ◌≡◌, ◌≢◌, refl, ◌∙◌, sym, ap, subst, Bool, List, true, false, ◌==◌, arith, Bool-cases, inl,
  inr,
}
use obmafs.Context.{
  Superblock, Ctx, Result, ok, err, Error, io, nomem, badmagic, checksum, notfound, inval, exists,
  nospc, revision, incompat,
}
use obmafs.Device.{Device}
use obmafs.Btree.{TreeHeader}
use obmafs.Btree.Header.{header_read, header_read_lenient}
use obmafs.Btree.Header.RoundTrip.{header_read_lenient-err}
use obmafs.Open.{Headers, blank, need, if_there, load_common, lenient, tolerate, load_headers}

-- A tree that a superblock names by the block 0 is not there, and its header is blank.
abbrev pub Named : (ℕ → TreeHeader → Type 0) → (lba : ℕ) → TreeHeader → Type 0
Named read lba hdr = (lba ≢ 0 → read lba hdr) × (lba ≡ 0 → hdr ≡ blank)

-- The headers that both ways of opening keep, where `read` says which header a block holds.
pub record AreHeaders (read : ℕ → TreeHeader → Type 0) (sb : Superblock) (h : Headers)
    : Type 0 where
  pub catalog : read sb.catalog_lba h.catalog
  pub inode : read sb.inode_lba h.inode
  pub overflow : Named read sb.overflow_lba h.overflow
  pub media_tag : Named read sb.media_tag_lba h.media_tag
  pub cd_prefix : Named read sb.cd_prefix_lba h.cd_prefix
  pub cd_suffix : Named read sb.cd_suffix_lba h.cd_suffix
  pub cd_subchannel : Named read sb.cd_subchannel_lba h.cd_subchannel
  pub metadata : Named read sb.metadata_lba h.metadata
  pub metadata_idx : Named read sb.metadata_idx_lba h.metadata_idx
  pub refcount : Named read sb.refcount_lba h.refcount
  pub sector_tag_data : Named read sb.sector_tag_data_lba h.sector_tag_data
  pub sector_tag_ref : Named read sb.sector_tag_ref_lba h.sector_tag_ref

err-ok {ℓ} : {A : Type ℓ} {a : A} {e : Error} → err e ≡ ok a → ⊥
err-ok h = cc

ok-inj {ℓ} : {A : Type ℓ} {a b : A} → ok a ≡ ok b → a ≡ b
ok-inj h = cc

-- What an opening that went on past a step knows.
pub need-ok {ℓ κ μ} :
    {A : Type ℓ} {B : Type κ} {P : Type μ} (r : Result A) (next : A → Result B) {b : B}
    → need r next ≡ ok b
    → ((a : A) → r ≡ ok a → next a ≡ ok b → P)
    → P
unfolding need
need-ok (err e) next h k = absurd (err-ok h)
need-ok (ok a) next h k = k a refl h

module _ (read : ℕ → Result TreeHeader) (Read : ℕ → TreeHeader → Type 0)
    (reads : (lba : ℕ) (hdr : TreeHeader) → read lba ≡ ok hdr → Read lba hdr) where
  if_there-Named : (lba : ℕ) (hdr : TreeHeader) → if_there read lba ≡ ok hdr → Named Read lba hdr
  if_there-Named lba hdr h = elim (Bool-cases (lba == 0)) [
    | inl none ↦
        let same : ok blank ≡ ok hdr = rw none at h in
        (λ there. absurd (ground arith), λ e. sym (ok-inj same))
    | inr there ↦ (λ ne. reads lba hdr (rw there at h), λ e. absurd (ground arith))
  ]

  load_common-AreHeaders :
      (sb : Superblock) (junk_map numeric : Result TreeHeader) (h : Headers)
      → load_common read sb junk_map numeric ≡ ok h
      → AreHeaders Read sb h × (junk_map ≡ ok h.junk_map) × (numeric ≡ ok h.metadata_numeric_idx)
  unfolding load_common
  load_common-AreHeaders sb junk_map numeric h e =
      need-ok (read sb.catalog_lba) _ e λ catalog is_catalog e.
        need-ok (read sb.inode_lba) _ e λ inode is_inode e.
          need-ok (if_there read sb.overflow_lba) _ e λ overflow is_overflow e.
            need-ok (if_there read sb.media_tag_lba) _ e λ media_tag is_media_tag e.
              need-ok (if_there read sb.cd_prefix_lba) _ e λ prefix is_prefix e.
                need-ok (if_there read sb.cd_suffix_lba) _ e λ suffix is_suffix e.
                  need-ok (if_there read sb.cd_subchannel_lba) _ e λ sub is_sub e.
                    need-ok (if_there read sb.metadata_lba) _ e λ meta is_meta e.
                      need-ok (if_there read sb.metadata_idx_lba) _ e λ idx is_idx e.
                        need-ok (if_there read sb.refcount_lba) _ e λ count is_count e.
                          need-ok (if_there read sb.sector_tag_data_lba) _ e λ data_ is_data e.
                            need-ok (if_there read sb.sector_tag_ref_lba) _ e λ ref_ is_ref e.
                              need-ok junk_map _ e λ junk is_junk e.
                                need-ok numeric _ e λ num is_num e.
                                  subst
                                    (λ (x : Headers).
                                      AreHeaders Read sb x
                                      × (junk_map ≡ ok x.junk_map)
                                      × (numeric ≡ ok x.metadata_numeric_idx))
                                    (ok-inj e)
                                    (
                                      record {
                                        catalog = reads sb.catalog_lba catalog is_catalog;
                                        inode = reads sb.inode_lba inode is_inode;
                                        overflow =
                                            if_there-Named sb.overflow_lba overflow is_overflow;
                                        media_tag =
                                            if_there-Named sb.media_tag_lba media_tag is_media_tag;
                                        cd_prefix =
                                            if_there-Named sb.cd_prefix_lba prefix is_prefix;
                                        cd_suffix =
                                            if_there-Named sb.cd_suffix_lba suffix is_suffix;
                                        cd_subchannel =
                                            if_there-Named sb.cd_subchannel_lba sub is_sub;
                                        metadata = if_there-Named sb.metadata_lba meta is_meta;
                                        metadata_idx =
                                            if_there-Named sb.metadata_idx_lba idx is_idx;
                                        refcount = if_there-Named sb.refcount_lba count is_count;
                                        sector_tag_data =
                                            if_there-Named sb.sector_tag_data_lba data_ is_data;
                                        sector_tag_ref =
                                            if_there-Named sb.sector_tag_ref_lba ref_ is_ref;
                                      },
                                      is_junk,
                                      is_num,
                                    )

module _ (dev : Device) (xxh64 : List ℕ → ℕ) (ctx : Ctx) (d : dev.Disk) where
  -- The block holds the header, with its checksum.
  abbrev pub Sealed : ℕ → TreeHeader → Type 0
  Sealed lba hdr = header_read dev xxh64 ctx d lba ≡ ok hdr

  -- The block holds the header, whether its checksum matches or not.
  abbrev pub Stored : ℕ → TreeHeader → Type 0
  Stored lba hdr = (sum : Bool) × (header_read_lenient dev xxh64 ctx d lba ≡ ok (hdr, sum))

  tolerate-Stored :
      (lba : ℕ) (hdr : TreeHeader)
      → tolerate (header_read_lenient dev xxh64 ctx d lba) ≡ ok hdr
      → Stored lba hdr
  unfolding tolerate
  tolerate-Stored lba hdr h = by_result (header_read_lenient dev xxh64 ctx d lba) refl h
    where
      by_result :
          (r : Result (TreeHeader × Bool))
          → header_read_lenient dev xxh64 ctx d lba ≡ r
          → tolerate r ≡ ok hdr
          → Stored lba hdr
      by_result (ok (x, sum)) e t = (sum, e ∙ ap (λ y. ok (y, sum)) (ok-inj t))
      by_result (err checksum) e t = absurd (header_read_lenient-err dev xxh64 ctx d lba e)
      by_result (err io) e t = absurd (err-ok t)
      by_result (err nomem) e t = absurd (err-ok t)
      by_result (err badmagic) e t = absurd (err-ok t)
      by_result (err notfound) e t = absurd (err-ok t)
      by_result (err inval) e t = absurd (err-ok t)
      by_result (err exists) e t = absurd (err-ok t)
      by_result (err nospc) e t = absurd (err-ok t)
      by_result (err revision) e t = absurd (err-ok t)
      by_result (err incompat) e t = absurd (err-ok t)

  pub load_headers-strict :
      (flags : ℕ) (h : Headers)
      → lenient flags ≡ false
      → load_headers dev xxh64 flags ctx d ≡ ok h
      → AreHeaders Sealed ctx.sb h
        × Named Sealed ctx.sb.junk_map_lba h.junk_map
        × Named Sealed ctx.sb.metadata_numeric_idx_lba h.metadata_numeric_idx
  unfolding load_headers
  load_headers-strict flags h strict e =
      let read = header_read dev xxh64 ctx d in
      let (common, junk, numeric) =
        load_common-AreHeaders read Sealed (λ lba hdr r. r) ctx.sb
          (if_there read ctx.sb.junk_map_lba) (if_there read ctx.sb.metadata_numeric_idx_lba) h
          (rw strict at e) in
      (
        common,
        if_there-Named read Sealed (λ lba hdr r. r) ctx.sb.junk_map_lba h.junk_map junk,
        if_there-Named read Sealed (λ lba hdr r. r) ctx.sb.metadata_numeric_idx_lba
            h.metadata_numeric_idx numeric,
      )

  pub load_headers-lenient :
      (flags : ℕ) (h : Headers)
      → lenient flags ≡ true
      → load_headers dev xxh64 flags ctx d ≡ ok h
      → AreHeaders Stored ctx.sb h × (h.junk_map ≡ blank) × (h.metadata_numeric_idx ≡ blank)
  unfolding load_headers
  load_headers-lenient flags h soft e =
      let (common, junk, numeric) =
        load_common-AreHeaders (λ lba. tolerate (header_read_lenient dev xxh64 ctx d lba)) Stored
          tolerate-Stored ctx.sb (ok blank) (ok blank) h (rw soft at e) in
      (common, sym (ok-inj junk), sym (ok-inj numeric))
