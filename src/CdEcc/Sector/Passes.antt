-- ===== src/CdEcc/Sector/Passes.antt =====
-- The two passes over a sector of 2352 bytes (src/lib/ecc_cd.c): the first writes its codes where
-- the second reads.
use obmafs.Prelude.{ℕ, ◌<◌, ◌≤◌, ◌≡◌, ◌∙◌, sym, Option, true, List, length, get_or, arith}
use obmafs.CdEcc.{Tables, pass_p, pass_q, ecc_check, ecc_write, ecc_write_sector}
use obmafs.CdEcc.WriteCheck.{IsApart, ecc_check-ecc_write}
use obmafs.CdEcc.WriteCheck.Same.{ecc_check-same, ecc_write-same, length-ecc_write}

pass_p-IsApart :
    (address : Option (List ℕ)) (offset : ℕ) (s : List ℕ)
    → offset < 2000
    → 2352 ≤ length s
    → IsApart (pass_p address offset 0x10 0x81C) s
pass_p-IsApart address offset s small long = record {
  starts = λ major lt. omega arith;
  inc = omega arith;
  small = omega arith;
  read = omega arith;
  address = omega arith;
  room = omega arith;
}

pass_q-IsApart :
    (address : Option (List ℕ)) (offset : ℕ) (s : List ℕ)
    → offset < 2000
    → 2352 ≤ length s
    → IsApart (pass_q address offset 0x10 0x81C) s
pass_q-IsApart address offset s small long = record {
  starts = λ major lt. omega arith;
  inc = omega arith;
  small = omega arith;
  read = omega arith;
  address = omega arith;
  room = omega arith;
}

module _ (t : Tables) (address : Option (List ℕ)) (offset : ℕ) (s : List ℕ) (small : offset < 2000)
    (long : 2352 ≤ length s) where
  abbrev after_p : List ℕ
  after_p = ecc_write t (pass_p address offset 0x10 0x81C) s

  long_after_p : 2352 ≤ length after_p
  long_after_p = omega (arith, long, length-ecc_write t (pass_p address offset 0x10 0x81C) s)

  q-IsApart : IsApart (pass_q address offset 0x10 0x81C) after_p
  q-IsApart = pass_q-IsApart address offset after_p small long_after_p

  pub ecc_write_sector-same :
      (i : ℕ)
      → i < 0x81C
      → get_or (ecc_write_sector t address offset 0x10 0x81C s) i 0 ≡ get_or s i 0
  unfolding ecc_write_sector
  ecc_write_sector-same i lt =
      ecc_write-same t (pass_q address offset 0x10 0x81C) after_p i q-IsApart (omega arith)
      ∙ ecc_write-same t (pass_p address offset 0x10 0x81C) s i
          (pass_p-IsApart address offset s small long) lt

  pub ecc_check_q-ecc_write_sector :
      ecc_check t
        (pass_q address offset 0x10 0x81C)
        (ecc_write_sector t address offset 0x10 0x81C s)
      ≡ true
  unfolding ecc_write_sector
  ecc_check_q-ecc_write_sector =
      ecc_check-ecc_write t (pass_q address offset 0x10 0x81C) after_p q-IsApart

  pub ecc_check_p-ecc_write_sector :
      ecc_check t
        (pass_p address offset 0x10 0x81C)
        (ecc_write_sector t address offset 0x10 0x81C s)
      ≡ true
  unfolding ecc_write_sector
  ecc_check_p-ecc_write_sector =
      let p = pass_p address offset 0x10 0x81C in
      let q = pass_q address offset 0x10 0x81C in
      sym (
        ecc_check-same t p after_p (ecc_write t q after_p)
          (pass_p-IsApart address offset after_p small long_after_p)
          (λ i lt. sym (ecc_write-same t q after_p i q-IsApart (omega arith))))
      ∙ ecc_check-ecc_write t p s (pass_p-IsApart address offset s small long)
