-- ===== src/Bitmap/Disk/RoundTrip.antt =====
-- A bitmap that was written is read back (src/lib/bitmap.c).
use obmafs.Prelude.{
  ℕ, zero, suc, ◌+◌, ◌-◌, ◌*◌, ◌<◌, ◌≤◌, ◌^◌, ◌≡◌, ◌≢◌, refl, ◌∙◌, ap, sym, subst, true, false,
  Option, none, ℕ_discrete, List, ◌∷◌, [], ◌++◌, ◌==◌, ◌&&◌, not, if◌then◌else◌, get_or, take, drop,
  replicate, length, length-take, length-drop, take-append, take-beyond, take-drop,
  drop-append_more, drop-replicate, u64, arith, Bool-cases, inl, inr, eq→==,
}
use mathlib.Core.List.{append_assoc, append-nil}
use mathlib.Core.Path.{fun_ext}
use obmafs.Context.{Ctx, total_blocks, Result, ok, err, badmagic}
use obmafs.Codec.{unpack}
use obmafs.Codec.RoundTrip.{unpack-pack}
use obmafs.Device.{Device, block_read}
use obmafs.Btree.Header.{checksum_block}
use obmafs.Bitmap.Disk.{
  bitmap_magic, bitmap_header_widths, hdr_size, room_of, copy_size, patch, payload, next_free_of,
  bitmap_header, block_at, write_loop, write_bytes, bitmap_write, and_read, read_loop,
  checksum_matches, finish, bytes_needed, bitmap_read,
}
use obmafs.Bitmap.Disk.Stored.{
  IsStorable, copy_size-le, room_of_lem, bitmap_header-Fits, payload-block_at, Stored,
  write_loop-Stored,
}

-- The bytes so far in front of zeros, and `n` more of them.
patch-take :
    (bytes : List ℕ) (offset left n : ℕ)
    → offset + left ≡ length bytes
    → n ≤ left
    → patch (take offset bytes ++ replicate left 0) offset (take n (drop offset bytes))
      ≡ take (offset + n) bytes ++ replicate (left - n) 0
unfolding patch
patch-take bytes offset left n size fits =
    let chunk = take n (drop offset bytes) in
    let zeros = replicate {A = ℕ} left 0 in
    let len : length chunk ≡ n =
      length-take n (drop offset bytes) (omega (arith, length-drop offset bytes)) in
    let front : length (take offset bytes) ≡ offset = length-take offset bytes (omega arith) in
    rw (
      len,
      take-append offset (take offset bytes) zeros front,
      drop-append_more offset n (take offset bytes) zeros front,
      drop-replicate {A = ℕ} left n 0,
      sym (append_assoc (take offset bytes) chunk (replicate (left - n) 0)),
      take-drop offset n bytes,
    )

module _ (dev : Device) (xxh64 : List ℕ → ℕ) (hash_lt : (bs : List ℕ) → xxh64 bs < 2 ^ 64)
    {ctx : Ctx} {bytes : List ℕ} (s : IsStorable ctx bytes) where
  open dev use {Disk}

  -- The header that the reader finds in the first block.
  header_of_block :
      (i offset left : ℕ)
      → (i == 0) ≡ true
      → unpack bitmap_header_widths (block_at dev xxh64 ctx bytes i offset left)
        ≡ bitmap_magic
          ∷ total_blocks ctx
          ∷ ctx.next_free_lba
          ∷ checksum_block xxh64 (take ctx.bitmap_size bytes)
          ∷ []
  unfolding block_at bitmap_header
  header_of_block i offset left first =
      rw first (unpack-pack bitmap_header_widths _ _ (bitmap_header-Fits dev xxh64 hash_lt s))

  magic-right :
      (i offset left : ℕ)
      → ((i == 0)
          && not (
              get_or (unpack bitmap_header_widths (block_at dev xxh64 ctx bytes i offset left)) 0 0
              == bitmap_magic))
        ≡ false
  magic-right i offset left = elim (Bool-cases (i == 0)) [
    | inl first ↦ rw (header_of_block i offset left first, first)
    | inr later ↦ rw later
  ]

  hint-right :
      (i offset left next_free_lba : ℕ)
      → (i ≢ 0 → next_free_lba ≡ ctx.next_free_lba)
      → (if i == 0
          then next_free_of (block_at dev xxh64 ctx bytes i offset left)
          else next_free_lba)
        ≡ ctx.next_free_lba
  hint-right i offset left next_free_lba h = elim (Bool-cases (i == 0)) [
    | inl first ↦ rw (header_of_block i offset left first, first)
    | inr later ↦ rw later (h (ground arith))
  ]

  -- The blocks that are left have room for the bytes that are left.
  room-suc :
      (rounds i left : ℕ)
      → left + (if i == 0 then hdr_size else 0) ≤ suc rounds * ctx.sb.block_size
      → left - copy_size ctx i left ≤ rounds * ctx.sb.block_size
  unfolding copy_size
  room-suc rounds i left h =
      let e : suc rounds * ctx.sb.block_size ≡ rounds * ctx.sb.block_size + ctx.sb.block_size =
        grind arith in
      ground (arith, room_of_lem dev xxh64 hash_lt s i, s.header)

  read_loop-Stored :
      (rounds i offset left : ℕ) (d : Disk) (next_free_lba : ℕ)
      → i + rounds ≤ ctx.sb.bitmap_blocks
      → offset + left ≡ length bytes
      → left + (if i == 0 then hdr_size else 0) ≤ rounds * ctx.sb.block_size
      → (i ≢ 0 → next_free_lba ≡ ctx.next_free_lba)
      → Stored dev xxh64 hash_lt s d rounds i offset left
      → read_loop dev xxh64 ctx d rounds i offset left
          (take offset bytes ++ replicate left 0)
          next_free_lba
        ≡ (ok bytes, ctx.next_free_lba)
  unfolding read_loop and_read
  read_loop-Stored zero i offset left d next_free_lba fits size room hint stored =
      let nothing : left ≡ 0 = omega arith in
      let all : take offset bytes ≡ bytes = take-beyond offset bytes (omega arith) in
      rw (nothing, all, append-nil bytes, hint (ground arith))
  read_loop-Stored (suc rounds) i offset left d next_free_lba fits size room hint stored =
      let n = copy_size ctx i left in
      let here : u64 (ctx.sb.bitmap_lba + i) ≡ ctx.sb.bitmap_lba + i =
        omega (arith, s.inside, s.blocks) in
      let next : u64 (i + 1) ≡ i + 1 = omega (arith, s.inside, s.blocks) in
      let least = copy_size-le dev xxh64 hash_lt s i left in
      let later : (i + 1 == 0) ≡ false = ground arith in
      rw
        (
          here,
          next,
          stored.0,
          magic-right i offset left,
          payload-block_at dev xxh64 hash_lt s i offset left (omega arith),
          patch-take bytes offset left n size least,
          hint-right i offset left next_free_lba hint,
        )
        (read_loop-Stored rounds (i + 1) (offset + n) (left - n) d ctx.next_free_lba (omega arith)
          (omega arith) (rw later (omega (arith, room-suc rounds i left room))) (λ x. refl)
          stored.1)

  -- The loop looks only at the superblock of the context.
  read_loop-sb :
      (old : Option (List ℕ)) (z k : ℕ) (rounds i offset left : ℕ) (d : Disk) (bitmap : List ℕ)
      (next_free_lba : ℕ)
      → read_loop dev xxh64
          (record ctx { bitmap = old; bitmap_size = z; next_free_lba = k })
          d
          rounds
          i
          offset
          left
          bitmap
          next_free_lba
        ≡ read_loop dev xxh64 ctx d rounds i offset left bitmap next_free_lba
  unfolding read_loop copy_size room_of block_read
  read_loop-sb old z k zero i offset left d bitmap next_free_lba = refl
  read_loop-sb old z k (suc rounds) i offset left d bitmap next_free_lba =
      let n = copy_size ctx i left in
      ap
        (and_read dev xxh64 (block_read dev ctx d (u64 (ctx.sb.bitmap_lba + i)) ctx.sb.block_size)
          next_free_lba)
        (fun_ext λ buf.
          ap
            (λ (rest : Result (List ℕ) × ℕ).
              if (i == 0) && not (get_or (unpack bitmap_header_widths buf) 0 0 == bitmap_magic)
              then (err badmagic, next_free_lba)
              else rest)
            (read_loop-sb old z k rounds (u64 (i + 1)) (offset + n) (left - n) d
              (patch bitmap offset (take n (payload i buf)))
              (if i == 0 then next_free_of buf else next_free_lba)))

  first_block :
      (rounds left : ℕ) (d : Disk)
      → 0 < rounds
      → Stored dev xxh64 hash_lt s d rounds 0 0 left
      → block_read dev ctx d ctx.sb.bitmap_lba ctx.sb.block_size
        ≡ ok (block_at dev xxh64 ctx bytes 0 0 left)
  first_block zero left d some_round stored = absurd (omega arith)
  first_block (suc rounds) left d some_round stored =
      let here : ctx.sb.bitmap_lba + 0 ≡ ctx.sb.bitmap_lba = omega arith in
      subst
        (λ x. block_read dev ctx d x ctx.sb.block_size ≡ ok (block_at dev xxh64 ctx bytes 0 0 left))
        here stored.0

  checksum-right :
      (left : ℕ)
      → checksum_matches dev xxh64 (ok (block_at dev xxh64 ctx bytes 0 0 left)) bytes ≡ true
  unfolding checksum_matches
  checksum-right left =
      let all : take ctx.bitmap_size bytes ≡ bytes =
        take-beyond ctx.bitmap_size bytes (omega (arith, s.size)) in
      rw (header_of_block 0 0 left refl, all) (eq→== _ _ refl)

  some_block : 0 < ctx.sb.bitmap_blocks
  some_block = elim (ℕ_discrete ctx.sb.bitmap_blocks 0) [
    | yes absent ↦
        let e : ctx.sb.bitmap_blocks * ctx.sb.block_size ≡ 0 = rw absent (omega arith) in
        absurd (omega (arith, s.room))
    | no there ↦ omega arith
  ]

  finish-right :
      (left k : ℕ) (d : Disk)
      → Stored dev xxh64 hash_lt s d ctx.sb.bitmap_blocks 0 0 left
      → finish dev xxh64
          (record ctx { bitmap = none; next_free_lba = k })
          d
          (ok bytes, ctx.next_free_lba)
        ≡ (ctx, ok tt)
  unfolding finish block_read
  finish-right left k d stored =
      rw (first_block ctx.sb.bitmap_blocks left d some_block stored, checksum-right left)
        (ap (λ (b : Option (List ℕ)). (record ctx { bitmap = b }, ok tt)) (sym s.loaded))

  -- The bitmap that `obmafs3_bitmap_write` wrote is the one that `obmafs3_bitmap_read` loads, with
  -- its hint and a checksum that matches, whatever bitmap, size and hint were in memory.
  pub bitmap_read-bitmap_write :
      (d : Disk) (old : Option (List ℕ)) (z k : ℕ)
      → (bitmap_write dev xxh64 true ctx d).0 ≡ ok tt
      → bitmap_read dev xxh64 true true
          (record ctx { bitmap = old; bitmap_size = z; next_free_lba = k })
          (bitmap_write dev xxh64 true ctx d).1
        ≡ (ctx, ok tt)
  unfolding bitmap_read bitmap_write write_bytes
  bitmap_read-bitmap_write d old z k done =
      let rounds = ctx.sb.bitmap_blocks in
      let w = write_loop dev xxh64 ctx bytes rounds 0 0 ctx.bitmap_size d in
      let e = ap (λ b. write_bytes dev xxh64 true ctx b d) s.loaded in
      let written : w.0 ≡ ok tt = ap (λ r. r.0) (sym e) ∙ done in
      let stored =
        write_loop-Stored dev xxh64 hash_lt s rounds 0 0 ctx.bitmap_size d (omega arith)
          (omega (arith, s.size)) written in
      let loaded =
        read_loop-Stored rounds 0 0 ctx.bitmap_size w.1 k (omega arith) (omega (arith, s.size))
          (omega (arith, s.room)) (λ x. absurd (x refl)) stored in
      let blank = λ (m : ℕ). record ctx { bitmap = none; bitmap_size = m; next_free_lba = k } in
      let load =
        λ (b : Disk) (m : ℕ). read_loop dev xxh64 (blank m) b rounds 0 0 m (replicate m 0) k in
      ap (λ r. finish dev xxh64 (blank (bytes_needed ctx)) r.1 (load r.1 (bytes_needed ctx))) e
      ∙ ap (λ m. finish dev xxh64 (blank m) w.1 (load w.1 m)) (sym s.needed)
      ∙ ap (finish dev xxh64 (blank ctx.bitmap_size) w.1) (
          read_loop-sb none ctx.bitmap_size k rounds 0 0 ctx.bitmap_size w.1
            (replicate ctx.bitmap_size 0) k
          ∙ loaded)
      ∙ finish-right ctx.bitmap_size k w.1 stored
