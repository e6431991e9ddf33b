-- ===== src/CdEcc.antt =====
-- Error detection and correction codes of CD sectors: src/lib/ecc_cd.c.
pub mod Sector
pub mod WriteCheck
use obmafs.Prelude.{
  ℕ, zero, suc, ◌+◌, ◌-◌, ◌*◌, ◌/◌, ◌%◌, ◌<◌, ◌^◌, Option, none, some, Bool, true, false, List,
  bit_and, bit_xor, ltb, leb, ◌==◌, ◌&&◌, not, if◌then◌else◌, get_or, set, replicate, u8, u32,
}

-- The tables of `CdEccContext`.
pub record Tables : Type 0 where
  pub ecc_f : List ℕ
  pub ecc_b : List ℕ
  pub edc : List ℕ

-- `for(j = 0; j < 8; j++) edc = edc >> 1 ^ ((edc & 1) > 0 ? 0xD8018001 : 0)`
pub edc_bits : (rounds edc : ℕ) → ℕ
edc_bits zero edc = edc
edc_bits (suc rounds) edc =
    edc_bits rounds (bit_xor (edc / 2) (if ltb 0 (bit_and edc 1) then 0xD8018001 else 0))

-- One round of the loop of `ecc_cd_init`.
pub fill : Tables → ℕ → Tables
fill t i =
    let j = bit_xor (u32 (i * 2)) (if bit_and i 0x80 == 0x80 then 0x11D else 0) in
    record {
      ecc_f = set t.ecc_f i (u8 j);
      ecc_b = set t.ecc_b (bit_xor i j) (u8 i);
      edc = set t.edc i (edc_bits 8 i);
    }

pub fill_loop : (rounds i : ℕ) → Tables → Tables
fill_loop zero i t = t
fill_loop (suc rounds) i t = fill_loop rounds (i + 1) (fill t i)

-- `ecc_cd_init`, where memory can be allocated.
pub tables : Tables
tables =
    fill_loop 256 0
      (record { ecc_f = replicate 256 0; ecc_b = replicate 256 0; edc = replicate 256 0 })

abbrev pub lookup : List ℕ → ℕ → ℕ
lookup table i = get_or table i 0

-- What a pass over a sector is called with. `address` is `none` where the address is read from the
-- sector itself.
pub record Pass : Type 0 where
  pub address : Option (List ℕ)
  pub major_count : ℕ
  pub minor_count : ℕ
  pub major_mult : ℕ
  pub minor_inc : ℕ
  pub address_offset : ℕ
  pub data_offset : ℕ
  pub ecc_offset : ℕ

abbrev pub size_of : Pass → ℕ
size_of p = u32 (p.major_count * p.minor_count)

pub address_of : Option (List ℕ) → List ℕ → List ℕ
address_of none sector = sector
address_of (some address) sector = address

-- `temp`
pub byte_at : Pass → List ℕ → ℕ → ℕ
byte_at p sector idx =
    if ltb idx 4
    then get_or (address_of p.address sector) (idx + p.address_offset) 0
    else get_or sector (idx + p.data_offset - 4) 0

abbrev pub start_of : Pass → ℕ → ℕ
start_of p major = u32 (major / 2 * p.major_mult + major % 2)

-- The next index, within the size.
pub next_idx : Pass → ℕ → ℕ
next_idx p idx =
    let idx' = u32 (idx + p.minor_inc) in if leb (size_of p) idx' then idx' - size_of p else idx'

module _ (t : Tables) (p : Pass) where
  -- The loop over `minor`, with `ecc_a` and `ecc_b`.
  pub minor_loop : List ℕ → (rounds idx ecc_a ecc_b : ℕ) → ℕ × ℕ
  minor_loop sector zero idx ecc_a ecc_b = (ecc_a, ecc_b)
  minor_loop sector (suc rounds) idx ecc_a ecc_b =
      let temp = byte_at p sector idx in
      minor_loop sector rounds (next_idx p idx) (lookup t.ecc_f (bit_xor ecc_a temp))
        (bit_xor ecc_b temp)

  pub final : ℕ × ℕ → ℕ × ℕ
  final (ecc_a, ecc_b) =
      let a = lookup t.ecc_b (bit_xor (lookup t.ecc_f ecc_a) ecc_b) in (a, bit_xor a ecc_b)

  -- The two code bytes for `major`.
  pub code : List ℕ → ℕ → ℕ × ℕ
  code sector major = final (minor_loop sector p.minor_count (start_of p major) 0 0)

  -- The loop of `ecc_cd_check`.
  pub ecc_check_loop : List ℕ → (rounds major : ℕ) → Bool
  ecc_check_loop sector zero major = true
  ecc_check_loop sector (suc rounds) major =
      let (a, b) = code sector major in
      let rest = ecc_check_loop sector rounds (major + 1) in
      if (get_or sector (major + p.ecc_offset) 0 == a)
        && (get_or sector (major + p.major_count + p.ecc_offset) 0 == b)
      then rest
      else false

  pub ecc_check : List ℕ → Bool
  ecc_check sector = ecc_check_loop sector p.major_count 0

  -- The loop of `ecc_cd_write`, where the codes are part of the sector.
  pub ecc_write_loop : (rounds major : ℕ) → List ℕ → List ℕ
  ecc_write_loop zero major sector = sector
  ecc_write_loop (suc rounds) major sector =
      let (a, b) = code sector major in
      ecc_write_loop rounds (major + 1)
        (set (set sector (major + p.ecc_offset) a) (major + p.major_count + p.ecc_offset) b)

  pub ecc_write : List ℕ → List ℕ
  ecc_write sector = ecc_write_loop p.major_count 0 sector

-- The two passes of `ecc_cd_write_sector`.
abbrev pub pass_p : Option (List ℕ) → (address_offset data_offset ecc_offset : ℕ) → Pass
pass_p address address_offset data_offset ecc_offset = record {
  address = address;
  major_count = 86;
  minor_count = 24;
  major_mult = 2;
  minor_inc = 86;
  address_offset = address_offset;
  data_offset = data_offset;
  ecc_offset = ecc_offset;
}

abbrev pub pass_q : Option (List ℕ) → (address_offset data_offset ecc_offset : ℕ) → Pass
pass_q address address_offset data_offset ecc_offset = record {
  address = address;
  major_count = 52;
  minor_count = 43;
  major_mult = 86;
  minor_inc = 88;
  address_offset = address_offset;
  data_offset = data_offset;
  ecc_offset = ecc_offset + 0xAC;
}

-- `ecc_cd_write_sector`, with the codes in the sector.
pub ecc_write_sector :
    Tables → Option (List ℕ) → (address_offset data_offset ecc_offset : ℕ) → List ℕ → List ℕ
ecc_write_sector t address address_offset data_offset ecc_offset sector =
    ecc_write t (pass_q address address_offset data_offset ecc_offset)
      (ecc_write t (pass_p address address_offset data_offset ecc_offset) sector)

-- `cd_lba_to_msf`, from block 0 on: minute, second and frame.
pub lba_to_msf : ℕ → ℕ × (ℕ × ℕ)
lba_to_msf pos = (u8 ((pos + 150) / 75 / 60), (u8 ((pos + 150) / 75 % 60), u8 ((pos + 150) % 75)))
