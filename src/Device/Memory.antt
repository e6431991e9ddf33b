-- ===== src/Device/Memory.antt =====
-- A device that is an unbounded array of bytes, on which every access succeeds.
use obmafs.Prelude.{
  ℕ, zero, suc, ◌+◌, ◌≤◌, ◌<◌, ◌≡◌, ◌⊎◌, inl, inr, refl, sym, true, some, List, [], ◌∷◌,
  if◌then◌else◌, length, arith, ap, ap₂, ◌==◌, ◌∙◌,
}
use obmafs.Device.{Device}

pub read : (ℕ → ℕ) → ℕ → ℕ → List ℕ
read d o zero = []
read d o (suc n) = d o ∷ read d (o + 1) n

pub write : (ℕ → ℕ) → ℕ → List ℕ → ℕ → ℕ
write d o [] i = d i
write d o (b ∷ bs) i = if i == o then b else write d (o + 1) bs i

length-read : (d : ℕ → ℕ) (o n : ℕ) → length (read d o n) ≡ n
unfolding read
length-read d o zero = refl
length-read d o (suc n) = ap suc (length-read d (o + 1) n)

write-outside :
    (d : ℕ → ℕ) (o : ℕ) (bs : List ℕ) (i : ℕ) → (i < o) ⊎ (o + length bs ≤ i) → write d o bs i ≡ d i
unfolding write
write-outside d o [] i h = refl
write-outside d o (b ∷ bs) i h = ground (arith, write-outside d (o + 1) bs i)

read-ext :
    (d e : ℕ → ℕ) (o n : ℕ) → ((i : ℕ) → o ≤ i → i < o + n → d i ≡ e i) → read d o n ≡ read e o n
unfolding read
read-ext d e o zero h = refl
read-ext d e o (suc n) h =
    ap₂ ◌∷◌ (h o (omega arith) (omega arith))
      (read-ext d e (o + 1) n (λ i a b. h i (omega arith) (omega arith)))

pub read-write : (d : ℕ → ℕ) (o : ℕ) (bs : List ℕ) → read (write d o bs) o (length bs) ≡ bs
unfolding read write
read-write d o [] = refl
read-write d o (b ∷ bs) = ap₂ ◌∷◌ (ground arith) (
    read-ext (write d o (b ∷ bs)) (write d (o + 1) bs) (o + 1) (length bs) (λ i a c. ground arith)
    ∙ read-write d (o + 1) bs)

pub read-length : (d : ℕ → ℕ) (o n : ℕ) {bs : List ℕ} → some (read d o n) ≡ some bs → length bs ≡ n
read-length d o n {bs} e =
    let same : read d o n ≡ bs = cc in ap length (sym same) ∙ length-read d o n

pub read-write_apart :
    (d : ℕ → ℕ) (o : ℕ) (bs : List ℕ) (p n : ℕ)
    → (p + n ≤ o) ⊎ (o + length bs ≤ p)
    → read (write d o bs) p n ≡ read d p n
read-write_apart d o bs p n h = read-ext (write d o bs) d p n (λ i a b.
    write-outside d o bs i
      (elim h [ inl before ↦ inl (omega arith) | inr after ↦ inr (omega arith) ]))

abbrev pub ram : Device
ram = record {
  Disk = ℕ → ℕ;
  pread = λ d o n. some (read d o n);
  pwrite = λ d o bs. (true, write d o bs);
  length-pread = λ d o n e. read-length d o n e;
  pread-pwrite_same = λ d o bs e. ap some (read-write d o bs);
  pread-pwrite_apart = λ d o bs p n h. ap some (read-write_apart d o bs p n h);
}
