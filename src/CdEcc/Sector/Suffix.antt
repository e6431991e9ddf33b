-- ===== src/CdEcc/Sector/Suffix.antt =====
-- A reconstructed sector has the suffix that the checks expect (src/lib/ecc_cd.c).
use obmafs.Prelude.{
  ℕ, ◌<◌, ◌≤◌, ◌≡◌, ◌∙◌, inl, refl, true, List, none, length, get_or, replicate, bit_and, arith,
  eq→==,
}
use obmafs.CdEcc.{Tables, ecc_write_sector}
use obmafs.Codec.Patch.{put, length-put, get_or-put_apart, get_or-put_zeros}
use obmafs.CdEcc.Sector.{
  edc_compute, edc_at, put_edc, zero_address, is_suffix_correct, is_suffix_correct_mode2,
  reconstruct,
}
use obmafs.CdEcc.Sector.SectorMode.{mode1, mode2_form1}
use obmafs.CdEcc.Sector.Bytes.{length-put_edc, reserved_ok-zeros, put_edc-same, edc_at-put_edc}
use obmafs.CdEcc.Sector.Passes.{
  ecc_write_sector-same, ecc_check_p-ecc_write_sector, ecc_check_q-ecc_write_sector,
}

-- In mode 1, the suffix that is reconstructed is the one that the check accepts, whatever the
-- bytes of the sector were.
pub is_suffix_correct-reconstruct :
    (t : Tables) (sector : List ℕ)
    → 2352 ≤ length sector
    → is_suffix_correct t (reconstruct t sector mode1) ≡ true
unfolding is_suffix_correct reconstruct
is_suffix_correct-reconstruct t sector long =
    let w = put_edc t 0x810 0 0x810 sector in
    let z = put (replicate 8 0) 0x814 w in
    let r = ecc_write_sector t none 0xC 0x10 0x81C z in
    let len_w = length-put_edc t 0x810 0 0x810 sector in
    let long_w : 2352 ≤ length w = omega (arith, len_w, long) in
    let long_z : 2352 ≤ length z = omega (arith, length-put (replicate 8 0) 0x814 w, long_w) in
    let lt : 0xC < 2000 = omega arith in
    let same = ecc_write_sector-same t none 0xC z lt long_z in
    let zeros = reserved_ok-zeros 8 0x814 r (λ i from to.
      same i (omega arith) ∙ get_or-put_zeros 8 0x814 w i (omega (arith, long_w)) from to) in
    let edc = edc_at-put_edc t 0x810 0 0x810 sector r (omega arith) (omega arith) (λ i to.
      same i (omega arith) ∙ get_or-put_apart (replicate 8 0) 0x814 w i (inl (omega arith))) in
    rw
      (
        zeros,
        ecc_check_p-ecc_write_sector t none 0xC z lt long_z,
        ecc_check_q-ecc_write_sector t none 0xC z lt long_z,
        eq→== (edc_at 0x810 r) (edc_compute t 0 r 0x810 0) edc,
      )
      refl

-- In mode 2 form 1, the suffix that is reconstructed is the one that the check accepts, if the
-- sector's flags say form 1.
pub is_suffix_correct_mode2-reconstruct :
    (t : Tables) (sector : List ℕ)
    → 2352 ≤ length sector
    → bit_and (get_or sector 0x12 0) 0x20 ≡ 0
    → is_suffix_correct_mode2 t (reconstruct t sector mode2_form1) ≡ true
unfolding is_suffix_correct_mode2 reconstruct
is_suffix_correct_mode2-reconstruct t sector long form1 =
    let w = put_edc t 0x808 0x10 0x818 sector in
    let r = ecc_write_sector t zero_address 0 0x10 0x81C w in
    let long_w : 2352 ≤ length w = omega (arith, length-put_edc t 0x808 0x10 0x818 sector, long) in
    let lt : 0 < 2000 = omega arith in
    let same = ecc_write_sector-same t zero_address 0 w lt long_w in
    let flag =
      same 0x12 (omega arith) ∙ put_edc-same t 0x808 0x10 0x818 sector 0x12 (inl (omega arith)) in
    let edc =
      edc_at-put_edc t 0x808 0x10 0x818 sector r (omega arith) (omega arith)
        (λ i to. same i (omega arith)) in
    rw
      (
        ecc_check_p-ecc_write_sector t zero_address 0 w lt long_w,
        ecc_check_q-ecc_write_sector t zero_address 0 w lt long_w,
        flag,
        eq→== (bit_and (get_or sector 0x12 0) 0x20) 0 form1,
        eq→== (edc_at 0x818 r) (edc_compute t 0 r 0x808 0x10) edc,
      )
      refl
