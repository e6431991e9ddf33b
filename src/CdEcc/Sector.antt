-- ===== src/CdEcc/Sector.antt =====
-- The prefix, the codes and the suffix of a CD sector (src/lib/ecc_cd.c). A 32-bit number is in
-- memory as its four bytes, the lowest first, as on every machine that the program supports.
pub mod Blank
pub mod Bytes
pub mod Lossless
pub mod Passes
pub mod Prefix
pub mod Suffix
use obmafs.Prelude.{
  ℕ, zero, suc, ◌+◌, ◌*◌, ◌/◌, ◌%◌, ◌^◌, Option, none, some, Bool, true, false, List, [], ◌∷◌, ◌++◌,
  bit_and, bit_xor, ◌==◌, ◌&&◌, if◌then◌else◌, get_or, set, replicate, u8, u32,
}
use obmafs.Codec.{le_bytes, le_value}
use obmafs.Codec.Patch.{put, bytes_at}
use obmafs.CdEcc.{Tables, lookup, pass_p, pass_q, ecc_check, ecc_write_sector, lba_to_msf}

-- `edc_cd_compute`
pub edc_compute : Tables → (edc : ℕ) → List ℕ → (size pos : ℕ) → ℕ
edc_compute t edc src zero pos = edc
edc_compute t edc src (suc size) pos =
    edc_compute t
      (u32 (bit_xor (edc / 2 ^ 8) (lookup t.edc (bit_and (bit_xor edc (get_or src pos 0)) 0xFF))))
      src size (pos + 1)

-- The stored EDC.
abbrev pub edc_at : (at : ℕ) → List ℕ → ℕ
edc_at at sector = le_value (bytes_at 4 at sector)

pub reserved_ok : (rounds at : ℕ) → List ℕ → Bool
reserved_ok zero at sector = true
reserved_ok (suc rounds) at sector = (get_or sector at 0 == 0) && reserved_ok rounds (at + 1) sector

abbrev pub zero_address : Option (List ℕ)
zero_address = some (0 ∷ 0 ∷ 0 ∷ 0 ∷ [])

-- `ecc_cd_is_suffix_correct`
pub is_suffix_correct : Tables → List ℕ → Bool
is_suffix_correct t sector =
    reserved_ok 8 0x814 sector
    && (ecc_check t (pass_p none 0xC 0x10 0x81C) sector
        && (ecc_check t (pass_q none 0xC 0x10 0x81C) sector
            && (edc_at 0x810 sector == edc_compute t 0 sector 0x810 0)))

-- `ecc_cd_is_suffix_correct_mode2`
pub is_suffix_correct_mode2 : Tables → List ℕ → Bool
is_suffix_correct_mode2 t sector =
    let form1 = bit_and (get_or sector 0x12 0) 0x20 == 0 in
    ecc_check t (pass_p zero_address 0 0x10 0x81C) sector
    && (ecc_check t (pass_q zero_address 0 0x10 0x81C) sector
        && (edc_at (if form1 then 0x818 else 0x92C) sector
            == edc_compute t 0 sector (if form1 then 0x808 else 0x91C) 0x10))

-- `enum obmafs3_cd_sector_mode`
pub data SectorMode : Type 0 where
  audio : SectorMode
  mode1 : SectorMode
  mode2 : SectorMode
  mode2_form1 : SectorMode
  mode2_form2 : SectorMode

-- `memcpy` of the EDC that is computed.
pub put_edc : Tables → (size pos at : ℕ) → List ℕ → List ℕ
put_edc t size pos at sector = put (le_bytes 4 (edc_compute t 0 sector size pos)) at sector

-- `ecc_cd_reconstruct`
pub reconstruct : Tables → List ℕ → SectorMode → List ℕ
reconstruct t sector audio = sector
reconstruct t sector mode1 =
    ecc_write_sector t none 0xC 0x10 0x81C
      (put (replicate 8 0) 0x814 (put_edc t 0x810 0 0x810 sector))
reconstruct t sector mode2 = sector
reconstruct t sector mode2_form1 =
    ecc_write_sector t zero_address 0 0x10 0x81C (put_edc t 0x808 0x10 0x818 sector)
reconstruct t sector mode2_form2 = put_edc t 0x91C 0x10 0x92C sector

abbrev pub bcd : ℕ → ℕ
bcd x = u8 (x / 10 * 2 ^ 4 + x % 10)

-- The mode and, in mode 2, the flags.
pub put_mode : SectorMode → List ℕ → List ℕ
put_mode audio sector = sector
put_mode mode1 sector = set sector 0x00F 0x01
put_mode mode2 sector = put (bytes_at 4 0x014 sector) 0x010 (set sector 0x00F 0x02)
put_mode mode2_form1 sector = put (bytes_at 4 0x014 sector) 0x010 (set sector 0x00F 0x02)
put_mode mode2_form2 sector = put (bytes_at 4 0x014 sector) 0x010 (set sector 0x00F 0x02)

-- `ecc_cd_reconstruct_prefix`, for blocks from 0 on.
pub reconstruct_prefix : List ℕ → SectorMode → (lba : ℕ) → List ℕ
reconstruct_prefix sector mode lba =
    let (minute, (second, frame)) = lba_to_msf lba in
    put_mode mode (
      put (bcd minute ∷ bcd second ∷ bcd frame ∷ []) 0x00C
        (put (0x00 ∷ (replicate 10 0xFF ++ (0x00 ∷ []))) 0x000 sector))
