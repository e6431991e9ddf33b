-- ===== src/Codec.antt =====
-- The byte images of packed structs (src/include/btree.h, src/include/superblock.h): fields of
-- fixed widths in order, each little-endian. A checksum field of 32 bytes is one number of 32
-- bytes, so that comparing bytes is comparing numbers.
pub mod Patch
pub mod RoundTrip
use obmafs.Prelude.{ℕ, zero, suc, ◌+◌, ◌*◌, ◌/◌, ◌%◌, ◌^◌, ◌<◌, List, [], ◌∷◌, ◌++◌, take, drop}

-- The low `n` bytes of a number.
unfoldable pub le_bytes : ℕ → ℕ → List ℕ
le_bytes zero x = []
le_bytes (suc n) x = x % 256 ∷ le_bytes n (x / 256)

-- The number that bytes stand for.
unfoldable pub le_value : List ℕ → ℕ
le_value [] = 0
le_value (b ∷ bs) = b + 256 * le_value bs

-- A struct from the widths and the values of its fields.
unfoldable pub pack : List ℕ → List ℕ → List ℕ
pack [] vs = []
pack (w ∷ ws) [] = []
pack (w ∷ ws) (v ∷ vs) = le_bytes w v ++ pack ws vs

-- The fields of a struct, read back.
unfoldable pub unpack : List ℕ → List ℕ → List ℕ
unpack [] bs = []
unpack (w ∷ ws) bs = le_value (take w bs) ∷ unpack ws (drop w bs)
