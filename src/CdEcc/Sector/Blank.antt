-- ===== src/CdEcc/Sector/Blank.antt =====
-- A sector of zeros has the right suffix, in mode 1 (src/lib/ecc_cd.c).
use obmafs.Prelude.{ℕ, zero, suc, ◌+◌, ◌≡◌, refl, none, true, get_or, replicate, arith, ◌-◌}
use obmafs.Codec.{le_value}
use obmafs.CdEcc.{
  Pass, tables, lookup, fill_loop, fill, edc_bits, pass_p, pass_q, byte_at, address_of, start_of,
  next_idx, minor_loop, final, code, ecc_check_loop, ecc_check,
}
use obmafs.Codec.Patch.{bytes_at}
use obmafs.CdEcc.Sector.{edc_compute, edc_at, is_suffix_correct}
use obmafs.CdEcc.Sector.Bytes.{reserved_ok-zeros}

ecc_f_zero : lookup tables.ecc_f 0 ≡ 0
unfolding tables fill_loop fill edc_bits
ecc_f_zero = refl

ecc_b_zero : lookup tables.ecc_b 0 ≡ 0
unfolding tables fill_loop fill edc_bits
ecc_b_zero = refl

edc_zero : lookup tables.edc 0 ≡ 0
unfolding tables fill_loop fill edc_bits
edc_zero = refl

pub get_or-zeros : (n i : ℕ) → get_or {A = ℕ} (replicate n 0) i 0 ≡ 0
get_or-zeros zero i = refl
get_or-zeros (suc n) zero = refl
get_or-zeros (suc n) (suc i) = get_or-zeros n i

module _ (n : ℕ) (p : Pass) (own : p.address ≡ none) where
  byte_at-zeros : (idx : ℕ) → byte_at p (replicate n 0) idx ≡ 0
  unfolding byte_at address_of
  byte_at-zeros idx =
      rw (own, get_or-zeros n (idx + p.address_offset), get_or-zeros n (idx + p.data_offset - 4))
        (ground arith)

  minor_loop-zeros : (rounds idx : ℕ) → minor_loop tables p (replicate n 0) rounds idx 0 0 ≡ (0, 0)
  unfolding minor_loop
  minor_loop-zeros zero idx = refl
  minor_loop-zeros (suc rounds) idx =
      rw (byte_at-zeros idx, ecc_f_zero) (minor_loop-zeros rounds (next_idx p idx))

  code-zeros : (major : ℕ) → code tables p (replicate n 0) major ≡ (0, 0)
  unfolding code final
  code-zeros major =
      rw (minor_loop-zeros p.minor_count (start_of p major), ecc_f_zero, ecc_b_zero) refl

  ecc_check_loop-zeros :
      (rounds major : ℕ) → ecc_check_loop tables p (replicate n 0) rounds major ≡ true
  unfolding ecc_check_loop
  ecc_check_loop-zeros zero major = refl
  ecc_check_loop-zeros (suc rounds) major =
      rw
        (
          code-zeros major,
          get_or-zeros n (major + p.ecc_offset),
          get_or-zeros n (major + p.major_count + p.ecc_offset),
          ecc_check_loop-zeros rounds (major + 1),
        )
        refl

  ecc_check-zeros : ecc_check tables p (replicate n 0) ≡ true
  unfolding ecc_check
  ecc_check-zeros = ecc_check_loop-zeros p.major_count 0

edc_compute-zeros : (n size pos : ℕ) → edc_compute tables 0 (replicate n 0) size pos ≡ 0
unfolding edc_compute
edc_compute-zeros n zero pos = refl
edc_compute-zeros n (suc size) pos =
    rw (get_or-zeros n pos, edc_zero) (edc_compute-zeros n size (pos + 1))

edc_at-zeros : (n at : ℕ) → edc_at at (replicate n 0) ≡ 0
unfolding bytes_at le_value
edc_at-zeros n at =
    rw
      (
        get_or-zeros n at,
        get_or-zeros n (at + 1),
        get_or-zeros n (at + 1 + 1),
        get_or-zeros n (at + 1 + 1 + 1),
      )
      refl

pub zeros-is_suffix_correct : (n : ℕ) → is_suffix_correct tables (replicate n 0) ≡ true
unfolding is_suffix_correct
zeros-is_suffix_correct n =
    rw
      (
        reserved_ok-zeros 8 0x814 (replicate n 0) (λ i from to. get_or-zeros n i),
        ecc_check-zeros n (pass_p none 0xC 0x10 0x81C) refl,
        ecc_check-zeros n (pass_q none 0xC 0x10 0x81C) refl,
        edc_at-zeros n 0x810,
        edc_compute-zeros n 0x810 0,
      )
      refl
