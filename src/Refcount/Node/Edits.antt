-- ===== src/Refcount/Node/Edits.antt =====
-- What the changes to the buffer of a leaf leave in it (src/lib/refcount.c).
use obmafs.Prelude.{
  ℕ, zero, suc, ◌+◌, ◌-◌, ◌*◌, ◌^◌, ◌<◌, ◌≤◌, ◌≡◌, ◌≢◌, ◌⊎◌, inl, inr, refl, ◌∙◌, ap, List, [], ◌∷◌,
  length, length-append, replicate, take, drop, u16, arith, dec_lt,
}
use obmafs.Context.{Ctx}
use obmafs.Codec.{le_bytes, le_value, unpack}
use obmafs.Codec.RoundTrip.{length-le_bytes}
use obmafs.Codec.Patch.{put, bytes_at, length-put, length-bytes_at, put-append}
use obmafs.Codec.Patch.Numbers.{number_at, number_at-put_apart, number_at-put, number_at-put_moved}
use obmafs.Btree.Header.{checksum_block}
use obmafs.Refcount.{node_field, level_of, keys_of}
use obmafs.Refcount.Node.{
  with_keys, sealed_node, record_bytes, move_elements, put_element, leaf_max_keys,
}

drop-drop : (n m : ℕ) (xs : List ℕ) → drop n (drop m xs) ≡ drop (m + n) xs
drop-drop n zero xs = ap (λ k. drop k xs) (omega arith)
drop-drop zero (suc m) [] = let e : suc m + 0 ≡ suc (m + 0) = omega arith in rw e refl
drop-drop (suc n) (suc m) [] = let e : suc m + suc n ≡ suc (m + suc n) = omega arith in rw e refl
drop-drop n (suc m) (x ∷ xs) =
    let e : suc m + n ≡ suc (m + n) = omega arith in rw e (drop-drop n m xs)

-- The fields of the header as numbers in the buffer.
pub magic_at : (buf : List ℕ) → node_field buf 0 ≡ number_at buf 0 8
unfolding unpack
magic_at buf = refl

pub level_at : (buf : List ℕ) → level_of buf ≡ number_at buf 9 1
unfolding unpack
level_at buf = ap (λ xs. le_value (take 1 xs)) (drop-drop 1 8 buf)

pub keys_at : (buf : List ℕ) → keys_of buf ≡ number_at buf 34 2
unfolding unpack
keys_at buf =
    ap (λ xs. le_value (take 2 xs))
      (ap (λ xs. drop 8 (drop 8 (drop 8 (drop 1 xs)))) (drop-drop 1 8 buf)
        ∙ ap (λ xs. drop 8 (drop 8 (drop 8 xs))) (drop-drop 1 9 buf)
        ∙ ap (λ xs. drop 8 (drop 8 xs)) (drop-drop 8 10 buf)
        ∙ ap (drop 8) (drop-drop 8 18 buf)
        ∙ drop-drop 8 26 buf)

module _ (xxh64 : List ℕ → ℕ) where
  pub length-sealed_node : (buf : List ℕ) → length (sealed_node xxh64 buf) ≡ length buf
  unfolding sealed_node
  length-sealed_node buf =
      let z = put (replicate 32 0) 38 buf in
      length-put (le_bytes 32 (checksum_block xxh64 (take (70 + node_field z 7) z))) 38 z
      ∙ length-put (replicate 32 0) 38 buf

  pub number_at-sealed_node :
      (buf : List ℕ) (o n : ℕ)
      → (o + n ≤ 38) ⊎ (70 ≤ o)
      → number_at (sealed_node xxh64 buf) o n ≡ number_at buf o n
  unfolding sealed_node
  number_at-sealed_node buf o n apart =
      let z = put (replicate 32 0) 38 buf in
      let sum = checksum_block xxh64 (take (70 + node_field z 7) z) in
      number_at-put_apart (le_bytes 32 sum) 38 z o n (ground (arith, length-le_bytes 32 sum))
      ∙ number_at-put_apart (replicate 32 0) 38 buf o n (ground arith)

pub length-with_keys : (n size : ℕ) (buf : List ℕ) → length (with_keys n size buf) ≡ length buf
unfolding with_keys
length-with_keys n size buf =
    length-put (le_bytes 2 (u16 (n * size))) 36 (put (le_bytes 2 n) 34 buf)
    ∙ length-put (le_bytes 2 n) 34 buf

pub number_at-with_keys :
    (n size : ℕ) (buf : List ℕ) (o m : ℕ)
    → (o + m ≤ 34) ⊎ (38 ≤ o)
    → number_at (with_keys n size buf) o m ≡ number_at buf o m
unfolding with_keys
number_at-with_keys n size buf o m apart =
    number_at-put_apart (le_bytes 2 (u16 (n * size))) 36 (put (le_bytes 2 n) 34 buf) o m
      (ground (arith, length-le_bytes 2 (u16 (n * size))))
    ∙ number_at-put_apart (le_bytes 2 n) 34 buf o m (ground (arith, length-le_bytes 2 n))

pub keys-with_keys :
    (n size : ℕ) (buf : List ℕ)
    → n < 2 ^ 16
    → 38 ≤ length buf
    → number_at (with_keys n size buf) 34 2 ≡ n
unfolding with_keys
keys-with_keys n size buf small long =
    number_at-put_apart (le_bytes 2 (u16 (n * size))) 36 (put (le_bytes 2 n) 34 buf) 34 2
      (inl (omega arith))
    ∙ number_at-put n 34 2 buf (omega arith) (omega arith)

-- A number of `m` bytes at `c` within element `k` of 12 bytes.
abbrev pub within : List ℕ → (k c m : ℕ) → ℕ
within buf k c m = number_at buf (70 + k * 12 + c) m

module _ (buf : List ℕ) (i j n k c m : ℕ) (inner : c + m ≤ 12) where
  pub within-move_inside :
      j ≤ k
      → k < j + n
      → 70 + (j + n) * 12 ≤ length buf
      → within (move_elements 12 i j n buf) k c m ≡ within buf (i + (k - j)) c m
  unfolding move_elements
  within-move_inside low high room =
      number_at-put_moved (n * 12) (70 + i * 12) (70 + j * 12) (70 + k * 12 + c) m buf buf
        (omega arith) (omega arith) (omega arith)
      ∙ ap (λ o. number_at buf o m) (omega arith)

  pub within-move_apart :
      (k < j) ⊎ (j + n ≤ k) → within (move_elements 12 i j n buf) k c m ≡ within buf k c m
  unfolding move_elements
  within-move_apart apart =
      number_at-put_apart (bytes_at (n * 12) (70 + i * 12) buf) (70 + j * 12) buf (70 + k * 12 + c)
        m (ground (arith, length-bytes_at (n * 12) (70 + i * 12) buf))

  pub within-put_apart :
      (element : List ℕ)
      → length element ≡ 12
      → k ≢ j
      → within (put_element 12 j element buf) k c m ≡ within buf k c m
  unfolding put_element
  within-put_apart element size ne =
      number_at-put_apart element (70 + j * 12) buf (70 + k * 12 + c) m (elim (dec_lt k j) [
        | yes before ↦ inl (omega arith)
        | no after ↦ inr (omega (arith, size))
      ])

pub length-move_elements :
    (i j n : ℕ) (buf : List ℕ) → length (move_elements 12 i j n buf) ≡ length buf
unfolding move_elements
length-move_elements i j n buf = length-put (bytes_at (n * 12) (70 + i * 12) buf) (70 + j * 12) buf

pub length-put_element :
    (j : ℕ) (element buf : List ℕ) → length (put_element 12 j element buf) ≡ length buf
unfolding put_element
length-put_element j element buf = length-put element (70 + j * 12) buf

pub length-record_bytes : (lba count : ℕ) → length (record_bytes lba count) ≡ 12
unfolding record_bytes
length-record_bytes lba count = omega (
  arith,
  length-append (le_bytes 8 lba) (le_bytes 4 count),
  length-le_bytes 8 lba,
  length-le_bytes 4 count,
)

-- The record that was put.
module _ (p lba count : ℕ) (buf : List ℕ) (small : lba < 2 ^ 64) (few : count < 2 ^ 32)
    (room : 70 + (p + 1) * 12 ≤ length buf) where
  put_record-split :
      put_element 12 p (record_bytes lba count) buf
      ≡ put (le_bytes 4 count) (70 + p * 12 + 8) (put (le_bytes 8 lba) (70 + p * 12) buf)
  unfolding put_element record_bytes
  put_record-split =
      put-append (le_bytes 8 lba) (le_bytes 4 count) (70 + p * 12) buf
      ∙ ap (λ n. put (le_bytes 4 count) (70 + p * 12 + n) (put (le_bytes 8 lba) (70 + p * 12) buf))
          (length-le_bytes 8 lba)

  pub put_record_lba : within (put_element 12 p (record_bytes lba count) buf) p 0 8 ≡ lba
  put_record_lba =
      ap (λ b. within b p 0 8) put_record-split
      ∙ number_at-put_apart (le_bytes 4 count) (70 + p * 12 + 8)
          (put (le_bytes 8 lba) (70 + p * 12) buf) (70 + p * 12 + 0) 8 (inl (omega arith))
      ∙ ap (λ o. number_at (put (le_bytes 8 lba) (70 + p * 12) buf) o 8) (omega arith)
      ∙ number_at-put lba (70 + p * 12) 8 buf (omega arith) (omega arith)

  pub put_record_count : within (put_element 12 p (record_bytes lba count) buf) p 8 4 ≡ count
  put_record_count =
      ap (λ b. within b p 8 4) put_record-split
      ∙ number_at-put count (70 + p * 12 + 8) 4 (put (le_bytes 8 lba) (70 + p * 12) buf)
          (omega arith) (omega (arith, length-put (le_bytes 8 lba) (70 + p * 12) buf))

-- What is before the elements is not touched.
pub number_at-move_before :
    (i j n o m : ℕ) (buf : List ℕ)
    → o + m ≤ 70
    → number_at (move_elements 12 i j n buf) o m ≡ number_at buf o m
unfolding move_elements
number_at-move_before i j n o m buf before =
    number_at-put_apart (bytes_at (n * 12) (70 + i * 12) buf) (70 + j * 12) buf o m
      (inl (omega arith))

pub number_at-put_before :
    (j o m : ℕ) (element buf : List ℕ)
    → o + m ≤ 70
    → number_at (put_element 12 j element buf) o m ≡ number_at buf o m
unfolding put_element
number_at-put_before j o m element buf before =
    number_at-put_apart element (70 + j * 12) buf o m (inl (omega arith))

-- A leaf that holds no more records than it may has them in its block.
pub fits_block :
    (ctx : Ctx) (keys : ℕ)
    → 70 ≤ ctx.sb.block_size
    → keys ≤ leaf_max_keys ctx
    → (70 + keys * 12 ≤ ctx.sb.block_size) × (keys < 2 ^ 16)
unfolding leaf_max_keys
fits_block ctx keys wide few = (omega arith, omega arith)
