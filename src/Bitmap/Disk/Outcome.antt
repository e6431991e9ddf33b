-- ===== src/Bitmap/Disk/Outcome.antt =====
-- What `obmafs3_bitmap_read` (src/lib/bitmap.c) leaves in the context, on every path.
use obmafs.Prelude.{
  ℕ, ◌≡◌, refl, Bool, true, false, none, some, List, Bool-cases, inl, inr, replicate,
}
use obmafs.Context.{Ctx, Result, ok, err, Error}
use obmafs.Device.{Device, block_read}
use obmafs.Bitmap.Disk.{checksum_matches, finish, read_loop, bytes_needed, bitmap_read}

module _ (dev : Device) (xxh64 : List ℕ → ℕ) where
  open dev use {Disk}

  -- No bitmap after an error; after a success a bitmap whose checksum is the stored one, unless the
  -- header cannot be read a second time.
  pub record Loads (ctx : Ctx) (d : Disk) (r : Ctx × Result (Unit {0})) : Type 0 where
    pub sb : r.0.sb ≡ ctx.sb
    pub failed : (e : Error) → r.1 ≡ err e → r.0.bitmap ≡ none
    pub loaded :
        r.1 ≡ ok tt
        → (bytes : List ℕ) × (r.0.bitmap ≡ some bytes)
          × (checksum_matches dev xxh64
                (block_read dev ctx d ctx.sb.bitmap_lba ctx.sb.block_size)
                bytes
              ≡ true)

  finish-Loads :
      (ctx : Ctx) (d : Disk) (r : Result (List ℕ) × ℕ) → Loads ctx d (finish dev xxh64 ctx d r)
  unfolding finish
  finish-Loads ctx d (err e, k) = record { sb = refl; failed = λ e h. refl; loaded = λ h. cc }
  finish-Loads ctx d (ok bytes, k) =
      elim (Bool-cases (
        checksum_matches dev xxh64 (block_read dev ctx d ctx.sb.bitmap_lba ctx.sb.block_size)
          bytes)) [
            | inl right ↦
                rw right
                  (record { sb = refl; failed = λ e h. cc; loaded = λ h. (bytes, refl, right) })
            | inr wrong ↦ rw wrong (record { sb = refl; failed = λ e h. refl; loaded = λ h. cc })
          ]

  -- `obmafs3_bitmap_read` leaves no bitmap in the context on any error; if it succeeds there is
  -- one, and its checksum is the stored one, unless the header could not be read a second time.
  -- The superblock stays as it is.
  pub bitmap_read-Loads :
      (calloc_ok malloc_ok : Bool) (ctx : Ctx) (d : Disk)
      → Loads ctx d (bitmap_read dev xxh64 calloc_ok malloc_ok ctx d)
  unfolding bitmap_read block_read
  bitmap_read-Loads false malloc_ok ctx d = record {
    sb = refl;
    failed = λ e h. refl;
    loaded = λ h. cc;
  }
  bitmap_read-Loads true false ctx d = record { sb = refl; failed = λ e h. refl; loaded = λ h. cc }
  bitmap_read-Loads true true ctx d =
      let sized = record ctx { bitmap = none; bitmap_size = bytes_needed ctx } in
      let p = finish-Loads sized d (
        read_loop dev xxh64 sized d ctx.sb.bitmap_blocks 0 0 (bytes_needed ctx)
          (replicate (bytes_needed ctx) 0) ctx.next_free_lba) in
      record { sb = p.sb; failed = p.failed; loaded = p.loaded }
