-- ===== src/CdEcc/Sector/Lossless.antt =====
-- A suffix that the check accepts can be dropped: it is the one that is reconstructed
-- (src/lib/ecc_cd.c; the import drops it where the check accepts it).
use obmafs.Prelude.{
  ℕ, zero, suc, ◌+◌, ◌*◌, ◌/◌, ◌%◌, ◌<◌, ◌≡◌, refl, ◌∙◌, sym, ap, ap₂, Bool, true, false, none,
  List, ◌∷◌, get_or, set, replicate, arith, ==_iff, ◌==◌, ◌&&◌, if◌then◌else◌,
}
use obmafs.Codec.{le_bytes, le_value}
use obmafs.CdEcc.{
  Tables, Pass, pass_p, pass_q, code, ecc_check_loop, ecc_check, ecc_write_loop, ecc_write,
  ecc_write_sector,
}
use obmafs.Codec.Patch.{put, bytes_at, set-get_or, put-bytes_at}
use obmafs.CdEcc.Sector.{edc_compute, edc_at, reserved_ok, put_edc, is_suffix_correct, reconstruct}
use obmafs.CdEcc.Sector.SectorMode.{mode1}

both_true : (a b : Bool) → (a && b) ≡ true → (a ≡ true) × (b ≡ true)
both_true true true h = (refl, refl)
both_true true false h = ground arith
both_true false b h = ground arith

if_true : (c r : Bool) → (if c then r else false) ≡ true → (c ≡ true) × (r ≡ true)
if_true true r h = (refl, h)
if_true false r h = ground arith

put_zeros-reserved_ok :
    (n at : ℕ) (s : List ℕ) → reserved_ok n at s ≡ true → put (replicate n 0) at s ≡ s
unfolding put reserved_ok
put_zeros-reserved_ok zero at s h = refl
put_zeros-reserved_ok (suc n) at s h =
    let both = both_true (get_or s at 0 == 0) (reserved_ok n (at + 1) s) h in
    ap (put (replicate n 0) (at + 1)) (set-get_or s at 0 ((==_iff (get_or s at 0) 0).0 both.0))
    ∙ put_zeros-reserved_ok n (at + 1) s both.1

le_bytes-le_value :
    (n at : ℕ) (s : List ℕ)
    → ((i : ℕ) → get_or s i 0 < 256)
    → le_bytes n (le_value (bytes_at n at s)) ≡ bytes_at n at s
unfolding le_bytes le_value bytes_at
le_bytes-le_value zero at s small = refl
le_bytes-le_value (suc n) at s small =
    let b = get_or s at 0 in
    let v = le_value (bytes_at n (at + 1) s) in
    let lt = small at in
    let low : (b + 256 * v) % 256 ≡ b = omega (arith, lt) in
    let high : (b + 256 * v) / 256 ≡ v = omega (arith, lt) in
    ap₂ (λ x xs. x ∷ xs) low (ap (le_bytes n) high ∙ le_bytes-le_value n (at + 1) s small)

ecc_write_loop-ecc_check_loop :
    (t : Tables) (p : Pass) (s : List ℕ) (rounds major : ℕ)
    → ecc_check_loop t p s rounds major ≡ true
    → ecc_write_loop t p rounds major s ≡ s
unfolding ecc_check_loop ecc_write_loop
ecc_write_loop-ecc_check_loop t p s zero major h = refl
ecc_write_loop-ecc_check_loop t p s (suc rounds) major h =
    let i = major + p.ecc_offset in
    let j = major + p.major_count + p.ecc_offset in
    let (a, b) = code t p s major in
    let checked =
      if_true ((get_or s i 0 == a) && (get_or s j 0 == b)) (ecc_check_loop t p s rounds (major + 1))
        h in
    let both = both_true (get_or s i 0 == a) (get_or s j 0 == b) checked.0 in
    ap (ecc_write_loop t p rounds (major + 1)) (
      ap (λ s'. set s' j b) (set-get_or s i a ((==_iff (get_or s i 0) a).0 both.0))
      ∙ set-get_or s j b ((==_iff (get_or s j 0) b).0 both.1))
    ∙ ecc_write_loop-ecc_check_loop t p s rounds (major + 1) checked.1

ecc_write-ecc_check :
    (t : Tables) (p : Pass) (s : List ℕ) → ecc_check t p s ≡ true → ecc_write t p s ≡ s
unfolding ecc_check ecc_write
ecc_write-ecc_check t p s h = ecc_write_loop-ecc_check_loop t p s p.major_count 0 h

-- A mode 1 sector of bytes whose suffix the check accepts is the same after its suffix is
-- reconstructed.
pub reconstruct-is_suffix_correct :
    (t : Tables) (sector : List ℕ)
    → ((i : ℕ) → get_or sector i 0 < 256)
    → is_suffix_correct t sector ≡ true
    → reconstruct t sector mode1 ≡ sector
unfolding is_suffix_correct reconstruct put_edc ecc_write_sector
reconstruct-is_suffix_correct t s small h =
    let edc = edc_compute t 0 s 0x810 0 in
    let p = pass_p none 0xC 0x10 0x81C in
    let q = pass_q none 0xC 0x10 0x81C in
    let last = edc_at 0x810 s == edc in
    let h₁ = both_true (reserved_ok 8 0x814 s) (ecc_check t p s && (ecc_check t q s && last)) h in
    let h₂ = both_true (ecc_check t p s) (ecc_check t q s && last) h₁.1 in
    let h₃ = both_true (ecc_check t q s) last h₂.1 in
    let stored = (==_iff (edc_at 0x810 s) edc).0 h₃.1 in
    let put_same =
      ap (λ e. put (le_bytes 4 e) 0x810 s) (sym stored)
      ∙ ap (λ bs. put bs 0x810 s) (le_bytes-le_value 4 0x810 s small)
      ∙ put-bytes_at 4 0x810 s in
    ap (λ s'. ecc_write t q (ecc_write t p (put (replicate 8 0) 0x814 s'))) put_same
    ∙ ap (λ s'. ecc_write t q (ecc_write t p s')) (put_zeros-reserved_ok 8 0x814 s h₁.0)
    ∙ ap (ecc_write t q) (ecc_write-ecc_check t p s h₂.0)
    ∙ ecc_write-ecc_check t q s h₃.0
