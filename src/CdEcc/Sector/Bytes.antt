-- ===== src/CdEcc/Sector/Bytes.antt =====
-- Bytes of a sector that are written and read back, and the EDC of a part of it (src/lib/ecc_cd.c).
use obmafs.Prelude.{
  ℕ, zero, suc, ◌+◌, ◌/◌, ◌^◌, ◌<◌, ◌≤◌, ◌≡◌, ◌⊎◌, inl, refl, ◌∙◌, ap, sym, subst, true, List,
  length, get_or, bit_and, bit_xor, u32, arith, eq→==,
}
use obmafs.Codec.{le_bytes, le_value}
use obmafs.Codec.RoundTrip.{le_value-le_bytes, length-le_bytes}
use obmafs.CdEcc.{Tables, lookup}
use obmafs.Codec.Patch.{bytes_at, length-put, get_or-put_apart, bytes_at-put, bytes_at-same}
use obmafs.CdEcc.Sector.{edc_compute, edc_at, reserved_ok, put_edc}

pub reserved_ok-zeros :
    (n at : ℕ) (s : List ℕ)
    → ((i : ℕ) → at ≤ i → i < at + n → get_or s i 0 ≡ 0)
    → reserved_ok n at s ≡ true
unfolding reserved_ok
reserved_ok-zeros zero at s zeros = refl
reserved_ok-zeros (suc n) at s zeros =
    rw
      (
        eq→== (get_or s at 0) 0 (zeros at (omega arith) (omega arith)),
        reserved_ok-zeros n (at + 1) s (λ i from to. zeros i (omega arith) (omega arith)),
      )
      refl

pub edc_compute-same :
    (t : Tables) (edc size pos : ℕ) (a b : List ℕ)
    → ((i : ℕ) → pos ≤ i → i < pos + size → get_or a i 0 ≡ get_or b i 0)
    → edc_compute t edc a size pos ≡ edc_compute t edc b size pos
unfolding edc_compute
edc_compute-same t edc zero pos a b same = refl
edc_compute-same t edc (suc size) pos a b same = rw (same pos (omega arith) (omega arith)) (
    edc_compute-same t
      (u32 (bit_xor (edc / 2 ^ 8) (lookup t.edc (bit_and (bit_xor edc (get_or b pos 0)) 0xFF))))
      size (pos + 1) a b (λ i from to. same i (omega arith) (omega arith)))

edc_compute-lt :
    (t : Tables) (edc size pos : ℕ) (s : List ℕ)
    → edc < 2 ^ 32
    → edc_compute t edc s size pos < 2 ^ 32
unfolding edc_compute
edc_compute-lt t edc zero pos s lt = lt
edc_compute-lt t edc (suc size) pos s lt =
    edc_compute-lt t
      (u32 (bit_xor (edc / 2 ^ 8) (lookup t.edc (bit_and (bit_xor edc (get_or s pos 0)) 0xFF))))
      size (pos + 1) s (omega arith)

pub length-put_edc :
    (t : Tables) (size pos at : ℕ) (s : List ℕ) → length (put_edc t size pos at s) ≡ length s
unfolding put_edc
length-put_edc t size pos at s = length-put (le_bytes 4 (edc_compute t 0 s size pos)) at s

pub put_edc-same :
    (t : Tables) (size pos at : ℕ) (s : List ℕ) (i : ℕ)
    → (i < at) ⊎ (at + 4 ≤ i)
    → get_or (put_edc t size pos at s) i 0 ≡ get_or s i 0
unfolding put_edc
put_edc-same t size pos at s i apart =
    get_or-put_apart (le_bytes 4 (edc_compute t 0 s size pos)) at s i
      (rw (length-le_bytes 4 (edc_compute t 0 s size pos)) apart)

-- What is stored is the EDC of the sector, also after later changes elsewhere.
pub edc_at-put_edc :
    (t : Tables) (size pos at : ℕ) (s r : List ℕ)
    → at + 4 ≤ length s
    → pos + size ≤ at
    → ((i : ℕ) → i < at + 4 → get_or r i 0 ≡ get_or (put_edc t size pos at s) i 0)
    → edc_at at r ≡ edc_compute t 0 r size pos
unfolding put_edc
edc_at-put_edc t size pos at s r room before same =
    let edc = edc_compute t 0 s size pos in
    let w = put_edc t size pos at s in
    let len = length-le_bytes 4 edc in
    let stored =
      subst (λ n. bytes_at n at w ≡ le_bytes 4 edc) len
        (bytes_at-put (le_bytes 4 edc) at s (omega (arith, len))) in
    ap le_value (bytes_at-same 4 at r w (λ i from to. same i (omega arith)) ∙ stored)
    ∙ le_value-le_bytes 4 edc (edc_compute-lt t 0 size pos s (omega arith))
    ∙ edc_compute-same t 0 size pos s r (λ i from to.
      sym (same i (omega arith) ∙ put_edc-same t size pos at s i (inl (omega arith))))
