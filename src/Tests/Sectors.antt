-- ===== src/Tests/Sectors.antt =====
-- Codes of CD sectors at concrete sizes.
use obmafs.Prelude.{
  ℕ, ◌+◌, ◌<◌, ◌≤◌, ◌≡◌, refl, get_or, none, true, List, [], ◌∷◌, replicate, length,
  length-replicate, arith,
}
use obmafs.CdEcc.{Pass, tables, ecc_check, ecc_write}
use obmafs.CdEcc.Sector.{
  is_suffix_correct, is_suffix_correct_mode2, reconstruct, reconstruct_prefix,
}
use obmafs.CdEcc.Sector.SectorMode.{mode1, mode2_form1}
use obmafs.CdEcc.Sector.Suffix.{is_suffix_correct-reconstruct, is_suffix_correct_mode2-reconstruct}
use obmafs.CdEcc.Sector.Lossless.{reconstruct-is_suffix_correct}
use obmafs.CdEcc.Sector.Blank.{get_or-zeros, zeros-is_suffix_correct}
use obmafs.CdEcc.Sector.Prefix.{frame_of, frame_of-reconstruct_prefix}
use obmafs.CdEcc.WriteCheck.{IsApart, ecc_check-ecc_write}

abbrev small_pass : Pass
small_pass = record {
  address = none;
  major_count = 2;
  minor_count = 2;
  major_mult = 1;
  minor_inc = 2;
  address_offset = 0;
  data_offset = 4;
  ecc_offset = 4;
}

abbrev small_sector : List ℕ
small_sector = 1 ∷ 2 ∷ 3 ∷ 4 ∷ 0 ∷ 0 ∷ 0 ∷ 0 ∷ []

small-IsApart : IsApart small_pass small_sector
small-IsApart = record {
  starts = λ major lt. omega arith;
  inc = omega arith;
  small = omega arith;
  read = omega arith;
  address = omega arith;
  room = omega arith;
}

ecc_check-ecc_write_example :
    ecc_check tables small_pass (ecc_write tables small_pass small_sector) ≡ true
ecc_check-ecc_write_example = ecc_check-ecc_write tables small_pass small_sector small-IsApart

abbrev full_sector : List ℕ
full_sector = replicate 2352 7

length-full_sector : 2352 ≤ length full_sector
length-full_sector = omega (arith, length-replicate {A = ℕ} 2352 7)

is_suffix_correct-reconstruct_example :
    is_suffix_correct tables (reconstruct tables full_sector mode1) ≡ true
is_suffix_correct-reconstruct_example =
    is_suffix_correct-reconstruct tables full_sector length-full_sector

is_suffix_correct_mode2-reconstruct_example :
    is_suffix_correct_mode2 tables (reconstruct tables full_sector mode2_form1) ≡ true
is_suffix_correct_mode2-reconstruct_example =
    is_suffix_correct_mode2-reconstruct tables full_sector length-full_sector refl

frame_of-reconstruct_prefix_example :
    frame_of (reconstruct_prefix full_sector mode1 1000) ≡ 1000 + 150
frame_of-reconstruct_prefix_example =
    frame_of-reconstruct_prefix full_sector mode1 1000 length-full_sector (omega arith)

abbrev blank_sector : List ℕ
blank_sector = replicate 2352 0

blank-small : (i : ℕ) → get_or blank_sector i 0 < 256
blank-small i = omega (arith, get_or-zeros 2352 i)

reconstruct-is_suffix_correct_example : reconstruct tables blank_sector mode1 ≡ blank_sector
reconstruct-is_suffix_correct_example =
    reconstruct-is_suffix_correct tables blank_sector blank-small (zeros-is_suffix_correct 2352)
