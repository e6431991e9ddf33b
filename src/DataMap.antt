-- ===== src/DataMap.antt =====
-- The regions of a GameCube or Wii disc that files lie in: `ngc_build_data_map` and
-- `ngc_is_data_region` of src/lib/nintendo.c.
pub mod Search
pub mod Sorting
pub mod Build
use obmafs.Prelude.{
  ℕ, zero, suc, ◌+◌, ◌-◌, ◌*◌, ◌/◌, ◌^◌, Option, none, some, Bool, true, false, List, [], ◌∷◌, ◌++◌,
  ltb, leb, ◌==◌, if◌then◌else◌, length, get_or, u32, u64, bit_or,
}
use obmafs.Refcount.{middle}

-- `struct ngc_data_region`
pub record Region : Type 0 where
  pub offset : ℕ
  pub size : ℕ

abbrev pub no_region : Region
no_region = record { offset = 0; size = 0 }

-- `struct ngc_data_map`; `count` is the length of the list.
pub record DataMap : Type 0 where
  pub regions : List Region
  pub capacity : ℕ

abbrev pub no_regions : DataMap
no_regions = record { regions = []; capacity = 0 }

unfoldable pub ngc_be32 : List ℕ → (at : ℕ) → ℕ
ngc_be32 p at =
    bit_or
      (bit_or (bit_or (u32 (get_or p at 0 * 2 ^ 24)) (u32 (get_or p (at + 1) 0 * 2 ^ 16)))
        (u32 (get_or p (at + 2) 0 * 2 ^ 8)))
      (get_or p (at + 3) 0)

-- `struct ngc_fst_entry` is 12 bytes.
abbrev pub entry_type : List ℕ → ℕ → ℕ
entry_type fst i = get_or fst (i * 12) 0

abbrev pub file_offset : List ℕ → ℕ → ℕ
file_offset fst i = ngc_be32 fst (i * 12 + 4)

abbrev pub file_length : List ℕ → ℕ → ℕ
file_length fst i = ngc_be32 fst (i * 12 + 8)

-- `none` is -1; `memory` says whether `realloc` succeeds.
pub data_map_add : (memory : Bool) → DataMap → (offset size : ℕ) → Option DataMap
data_map_add memory map offset size =
    let added : Region = record { offset = offset; size = size } in
    let regions = map.regions ++ (added ∷ []) in
    let more = if map.capacity == 0 then 256 else u32 (map.capacity * 2) in
    if size == 0
    then some map
    else if leb map.capacity (length map.regions)
    then (if memory then some (record { regions = regions; capacity = more }) else none)
    else some (record map { regions = regions })

abbrev pub region_of : List ℕ → (start shift i : ℕ) → Region
region_of fst start shift i = record {
  offset = u64 (start + u64 (file_offset fst i * 2 ^ shift));
  size = file_length fst i;
}

pub add_entry : (memory : Bool) → List ℕ → (start shift i : ℕ) → DataMap → Option DataMap
add_entry memory fst start shift i map =
    let r = region_of fst start shift i in
    if entry_type fst i == 0 then data_map_add memory map r.offset r.size else some map

-- The loop over the entries from `i` on; the map is freed where an entry cannot be added.
pub add_entries :
    (memory : ℕ → Bool) → List ℕ → (start shift rounds i : ℕ) → Option DataMap → Option DataMap
add_entries memory fst start shift rounds i none = none
add_entries memory fst start shift zero i (some map) = some map
add_entries memory fst start shift (suc rounds) i (some map) =
    add_entries memory fst start shift rounds (i + 1) (add_entry (memory i) fst start shift i map)

-- `qsort` with `region_cmp`. What it does with equal offsets is not specified in C.
pub insert_region : Region → List Region → List Region
insert_region r [] = r ∷ []
insert_region r (x ∷ xs) =
    let rest = insert_region r xs in if leb r.offset x.offset then r ∷ x ∷ xs else x ∷ rest

pub sort_regions : List Region → List Region
sort_regions [] = []
sort_regions (x ∷ xs) = insert_region x (sort_regions xs)

pub sorted_map : Option DataMap → Option DataMap
sorted_map none = none
sorted_map (some map) = some (record map { regions = sort_regions map.regions })

pub build_data_map :
    (memory : ℕ → Bool) → (fst : Option (List ℕ)) → (fst_size start shift : ℕ) → Option DataMap
build_data_map memory none fst_size start shift = none
build_data_map memory (some fst) fst_size start shift =
    let total = ngc_be32 fst 8 in
    if ltb fst_size 12
    then none
    else if ltb fst_size (total * 12)
    then none
    else sorted_map (add_entries memory fst start shift (total - 1) 1 (some no_regions))

-- `while(lo <= hi)`, on the range from `lo` up to, not including, `hi`.
pub overlap_loop : (stop start : ℕ → ℕ) → (offset end rounds lo hi : ℕ) → Bool
overlap_loop stop start offset end zero lo hi = false
overlap_loop stop start offset end (suc rounds) lo hi =
    let mid = middle lo hi in
    let higher = overlap_loop stop start offset end rounds (mid + 1) hi in
    let lower = overlap_loop stop start offset end rounds lo mid in
    if leb hi lo
    then false
    else if leb (stop mid) offset
    then higher
    else if leb end (start mid)
    then lower
    else true

abbrev pub start_at : List Region → ℕ → ℕ
start_at xs i = (get_or xs i no_region).offset

abbrev pub stop_at : List Region → ℕ → ℕ
stop_at xs i = let r = get_or xs i no_region in u64 (r.offset + r.size)

pub is_data_region : DataMap → (offset size : ℕ) → Bool
is_data_region map offset size =
    let n = length map.regions in
    overlap_loop (stop_at map.regions) (start_at map.regions) offset (u64 (offset + size)) n 0 n
