-- ===== src/CdEcc/Sector/Prefix.antt =====
-- The address that the prefix of a sector holds (src/lib/ecc_cd.c).
use obmafs.Prelude.{
  ℕ, ◌+◌, ◌*◌, ◌/◌, ◌%◌, ◌<◌, ◌≤◌, ◌≡◌, ◌∙◌, inl, refl, List, [], ◌∷◌, ◌++◌, length, get_or, set,
  replicate, get_or-set_ne, get_or-set_self, length-set, arith,
}
use obmafs.CdEcc.{lba_to_msf}
use obmafs.CdEcc.Sector.{SectorMode, bcd, put_mode, reconstruct_prefix}
use obmafs.CdEcc.Sector.SectorMode.{audio, mode1, mode2, mode2_form1, mode2_form2}
use obmafs.Codec.Patch.{put, bytes_at, get_or-put_apart, length-put}

-- The number that two decimal digits in a byte stand for.
abbrev pub bcd_value : ℕ → ℕ
bcd_value b = b / 16 * 10 + b % 16

-- The frame since 00:00:00 at the address of a sector.
abbrev pub frame_of : List ℕ → ℕ
frame_of sector =
    (bcd_value (get_or sector 0x00C 0) * 60 + bcd_value (get_or sector 0x00D 0)) * 75
    + bcd_value (get_or sector 0x00E 0)

bcd_value-bcd : (x : ℕ) → x < 100 → bcd_value (bcd x) ≡ x
bcd_value-bcd x lt = omega arith

flags-same :
    (s : List ℕ) (i : ℕ)
    → i < 0x00F
    → get_or (put (bytes_at 4 0x014 s) 0x010 (set s 0x00F 0x02)) i 0 ≡ get_or s i 0
flags-same s i lt =
    get_or-put_apart (bytes_at 4 0x014 s) 0x010 (set s 0x00F 0x02) i (inl (omega arith))
    ∙ get_or-set_ne s 0x00F i 0x02 0 (ground arith)

put_mode-same :
    (mode : SectorMode) (s : List ℕ) (i : ℕ)
    → i < 0x00F
    → get_or (put_mode mode s) i 0 ≡ get_or s i 0
unfolding put_mode
put_mode-same audio s i lt = refl
put_mode-same mode1 s i lt = get_or-set_ne s 0x00F i 0x01 0 (ground arith)
put_mode-same mode2 s i lt = flags-same s i lt
put_mode-same mode2_form1 s i lt = flags-same s i lt
put_mode-same mode2_form2 s i lt = flags-same s i lt

-- Three bytes that were put are read back.
put_three :
    (a b c at : ℕ) (s : List ℕ)
    → at + 3 ≤ length s
    → let r : List ℕ = put (a ∷ b ∷ c ∷ []) at s in
      (get_or r at 0 ≡ a) × ((get_or r (at + 1) 0 ≡ b) × (get_or r (at + 1 + 1) 0 ≡ c))
unfolding put
put_three a b c at s room =
    let s₁ = set s at a in
    let s₂ = set s₁ (at + 1) b in
    let len₁ = length-set s at a in
    let len₂ = length-set s₁ (at + 1) b in
    (
      get_or-set_ne s₂ (at + 1 + 1) at c 0 (omega arith)
          ∙ get_or-set_ne s₁ (at + 1) at b 0 (omega arith)
          ∙ get_or-set_self s at a 0 (omega arith),
      (
        get_or-set_ne s₂ (at + 1 + 1) (at + 1) c 0 (omega arith)
            ∙ get_or-set_self s₁ (at + 1) b 0 (omega (arith, len₁)),
        get_or-set_self s₂ (at + 1 + 1) c 0 (omega (arith, len₁, len₂)),
      ),
    )

-- The address in the prefix that is reconstructed is that of the block, 150 frames on, up to the
-- last frame that two digits of minutes can hold.
pub frame_of-reconstruct_prefix :
    (sector : List ℕ) (mode : SectorMode) (lba : ℕ)
    → 2352 ≤ length sector
    → lba + 150 < 100 * 60 * 75
    → frame_of (reconstruct_prefix sector mode lba) ≡ lba + 150
unfolding reconstruct_prefix lba_to_msf
frame_of-reconstruct_prefix sector mode lba long lt =
    let (minute, (second, frame)) = lba_to_msf lba in
    let s = put (0x00 ∷ (replicate 10 0xFF ++ (0x00 ∷ []))) 0x000 sector in
    let w = put (bcd minute ∷ bcd second ∷ bcd frame ∷ []) 0x00C s in
    let len = length-put (0x00 ∷ (replicate 10 0xFF ++ (0x00 ∷ []))) 0x000 sector in
    let three =
      put_three (bcd minute) (bcd second) (bcd frame) 0x00C s (omega (arith, len, long)) in
    rw
      (
        put_mode-same mode w 0x00C (omega arith),
        put_mode-same mode w 0x00D (omega arith),
        put_mode-same mode w 0x00E (omega arith),
        three.0,
        three.1.0,
        three.1.1,
        bcd_value-bcd minute (omega arith),
        bcd_value-bcd second (omega arith),
        bcd_value-bcd frame (omega arith),
      )
      (omega arith)
