-- ===== src/CdEcc/WriteCheck/Same.antt =====
-- What a pass over a sector leaves alone, and what its check looks at (src/lib/ecc_cd.c).
use obmafs.Prelude.{
  ℕ, zero, suc, ◌+◌, ◌*◌, ◌<◌, ◌≤◌, ◌≡◌, refl, ◌∙◌, List, get_or, set, length, length-set, arith,
}
use obmafs.CdEcc.{Tables, Pass, code, ecc_check_loop, ecc_check, ecc_write_loop, ecc_write}
use obmafs.CdEcc.WriteCheck.{IsApart, Alike, code-Alike, ecc_write_loop-Alike}

-- A pass changes nothing before its codes.
pub ecc_write-same :
    (t : Tables) (p : Pass) (sector : List ℕ) (i : ℕ)
    → IsApart p sector
    → i < p.ecc_offset
    → get_or (ecc_write t p sector) i 0 ≡ get_or sector i 0
unfolding ecc_write Alike
ecc_write-same t p sector i h lt =
    ecc_write_loop-Alike t p h sector p.major_count 0 (omega arith) i lt

length-ecc_write_loop :
    (t : Tables) (p : Pass) (rounds major : ℕ) (sector : List ℕ)
    → length (ecc_write_loop t p rounds major sector) ≡ length sector
unfolding ecc_write_loop
length-ecc_write_loop t p zero major sector = refl
length-ecc_write_loop t p (suc rounds) major sector =
    let (a, b) = code t p sector major in
    let s' = set sector (major + p.ecc_offset) a in
    length-ecc_write_loop t p rounds (major + 1) (set s' (major + p.major_count + p.ecc_offset) b)
    ∙ length-set s' (major + p.major_count + p.ecc_offset) b
    ∙ length-set sector (major + p.ecc_offset) a

pub length-ecc_write :
    (t : Tables) (p : Pass) (sector : List ℕ) → length (ecc_write t p sector) ≡ length sector
unfolding ecc_write
length-ecc_write t p sector = length-ecc_write_loop t p p.major_count 0 sector

ecc_check_loop-same :
    (t : Tables) (p : Pass) (a b : List ℕ) (rounds major : ℕ)
    → IsApart p a
    → ((i : ℕ) → i < p.ecc_offset + 2 * p.major_count → get_or a i 0 ≡ get_or b i 0)
    → rounds + major ≤ p.major_count
    → ecc_check_loop t p a rounds major ≡ ecc_check_loop t p b rounds major
unfolding ecc_check_loop Alike
ecc_check_loop-same t p a b zero major h same le = refl
ecc_check_loop-same t p a b (suc rounds) major h same le =
    rw
      (
        code-Alike t p h a b major (λ i lt. same i (omega arith)) (omega arith),
        same (major + p.ecc_offset) (omega arith),
        same (major + p.major_count + p.ecc_offset) (omega arith),
        ecc_check_loop-same t p a b rounds (major + 1) h same (omega arith),
      )
      refl

-- The check looks at no byte after the codes.
pub ecc_check-same :
    (t : Tables) (p : Pass) (a b : List ℕ)
    → IsApart p a
    → ((i : ℕ) → i < p.ecc_offset + 2 * p.major_count → get_or a i 0 ≡ get_or b i 0)
    → ecc_check t p a ≡ ecc_check t p b
unfolding ecc_check
ecc_check-same t p a b h same = ecc_check_loop-same t p a b p.major_count 0 h same (omega arith)
