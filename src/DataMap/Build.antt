-- ===== src/DataMap/Build.antt =====
-- What `ngc_is_data_region` answers from the map that `ngc_build_data_map` builds
-- (src/lib/nintendo.c).
use obmafs.Prelude.{
  ℕ, zero, suc, ◌+◌, ◌-◌, ◌*◌, ◌^◌, ◌<◌, ◌≤◌, ◌≡◌, ◌≢◌, ◌⊎◌, ◌↔◌, inl, inr, refl, ◌∙◌, ap, sym,
  subst, some, Bool, true, List, [], leb, ◌==◌, if◌then◌else◌, arith, Bool-cases, length, get_or,
  u32, u64, ◌++◌, ◌∷◌, ℕ_discrete, eq→==, ne→==, le→ltb,
}
use obmafs.DataMap.{
  Region, no_region, DataMap, no_regions, ngc_be32, entry_type, file_length, data_map_add,
  region_of, add_entry, add_entries, sort_regions, sorted_map, build_data_map, start_at, stop_at,
  is_data_region,
}
use obmafs.DataMap.Search.{overlap_loop-Decides}
use obmafs.DataMap.Sorting.{
  Among, Among-append, Among-sort_regions, IsOrdered, sort_regions-IsOrdered, Among-get_or,
  place_of, starts_up,
}

module _ (fst : List ℕ) (start shift : ℕ) where
  -- The entry is a file with some bytes.
  abbrev pub IsFile : ℕ → Type 0
  IsFile i = (entry_type fst i ≡ 0) × (file_length fst i ≢ 0)

  -- The region is that of a file among the entries.
  abbrev pub FileIn : (from to : ℕ) → Region → Type 0
  FileIn from to r = (i : ℕ) × (from ≤ i) × (i < to) × IsFile i × (r ≡ region_of fst start shift i)

  data_map_add-Among :
      (map : DataMap) (offset size : ℕ)
      → size ≢ 0
      → (m : DataMap) × (data_map_add true map offset size ≡ some m)
        × ((r : Region)
            → Among r m.regions
              ↔ (Among r map.regions ⊎ (r ≡ record { offset = offset; size = size })))
  unfolding data_map_add
  data_map_add-Among map offset size ne =
      let regions = map.regions ++ (record { offset = offset; size = size } ∷ []) in
      let more = if map.capacity == 0 then 256 else u32 (map.capacity * 2) in
      let added =
        λ (r : Region). Among-append r (record { offset = offset; size = size }) map.regions in
      elim (Bool-cases (leb map.capacity (length map.regions))) [
        | inl full ↦
            (record { regions = regions; capacity = more }, rw (ne→== size 0 ne, full) refl, added)
        | inr room ↦ (record map { regions = regions }, rw (ne→== size 0 ne, room) refl, added)
      ]

  add_entry-Among :
      (map : DataMap) (i : ℕ)
      → (m : DataMap) × (add_entry true fst start shift i map ≡ some m)
        × ((r : Region)
            → Among r m.regions
              ↔ (Among r map.regions ⊎ (IsFile i × (r ≡ region_of fst start shift i))))
  unfolding add_entry data_map_add
  add_entry-Among map i = elim (ℕ_discrete (entry_type fst i) 0) [
    | no directory ↦ (
      map,
      rw (ne→== (entry_type fst i) 0 directory) refl,
      λ r. (λ h. inl h, λ h. elim h [ inl a ↦ a | inr f ↦ absurd (directory f.0.0) ]),
    )
    | yes file ↦ elim (ℕ_discrete (file_length fst i) 0) [
      | yes empty ↦ (
        map,
        rw (eq→== (entry_type fst i) 0 file, eq→== (file_length fst i) 0 empty) refl,
        λ r. (λ h. inl h, λ h. elim h [ inl a ↦ a | inr f ↦ absurd (f.0.1 empty) ]),
      )
      | no some_bytes ↦
          let region = region_of fst start shift i in
          let (m, is, among) = data_map_add-Among map region.offset region.size some_bytes in
          (
            m,
            rw (eq→== (entry_type fst i) 0 file) is,
            λ r. (
              λ h. elim ((among r).0 h) [ inl a ↦ inl a | inr e ↦ inr ((file, some_bytes), e) ],
              λ h. (among r).1 (elim h [ inl a ↦ inl a | inr f ↦ inr f.1 ]),
            ),
          )
    ]
  ]

  add_entries-Among :
      (memory : ℕ → Bool) (rounds i : ℕ) (map : DataMap)
      → ((n : ℕ) → memory n ≡ true)
      → (m : DataMap) × (add_entries memory fst start shift rounds i (some map) ≡ some m)
        × ((r : Region) → Among r m.regions ↔ (Among r map.regions ⊎ FileIn i (i + rounds) r))
  unfolding add_entries
  add_entries-Among memory zero i map given = (
    map,
    refl,
    λ r. (λ h. inl h, λ h. elim h [ inl a ↦ a | inr f ↦ absurd (omega (arith, f.1, f.2)) ]),
  )
  add_entries-Among memory (suc rounds) i map given =
      let (m₁, is₁, among₁) = add_entry-Among map i in
      let (m, is, among) = add_entries-Among memory rounds (i + 1) m₁ given in
      (
        m,
        rw (add_entries, given i, is₁) is,
        λ r. (
          λ h. elim ((among r).0 h) [
            | inl a ↦ elim ((among₁ r).0 a) [
              | inl b ↦ inl b
              | inr f ↦ inr (i, omega arith, omega arith, f.0, f.1)
            ]
            | inr (k, from, to, file, e) ↦ inr (k, omega arith, omega arith, file, e)
          ],
          λ h. (among r).1 (elim h [
            | inl b ↦ inl ((among₁ r).1 (inl b))
            | inr (k, from, to, file, e) ↦ elim (ℕ_discrete k i) [
              | yes this ↦ inl (
                  (among₁ r).1 (
                    inr (subst (λ j. IsFile j) this file, e ∙ ap (region_of fst start shift) this)))
              | no other ↦ inr (k, omega arith, omega arith, file, e)
            ]
          ]),
        ),
      )

  -- The files among the first entries lie apart, or are the same bytes, and end below 2 ^ 64.
  pub record IsTidy (total : ℕ) : Type 0 where
    pub apart :
        (a b : Region)
        → FileIn 1 total a
        → FileIn 1 total b
        → a.offset < b.offset
        → a.offset + a.size ≤ b.offset
    pub same :
        (a b : Region) → FileIn 1 total a → FileIn 1 total b → a.offset ≡ b.offset → a.size ≡ b.size
    pub small : (a : Region) → FileIn 1 total a → a.offset + a.size < 2 ^ 64

  module _ (total : ℕ) (tidy : IsTidy total) (map : DataMap) (ordered : IsOrdered map.regions)
      (files : (r : Region) → Among r map.regions ↔ FileIn 1 total r) where
    file_at : (i : ℕ) → i < length map.regions → FileIn 1 total (get_or map.regions i no_region)
    file_at i i_in = (files (get_or map.regions i no_region)).0 (Among-get_or map.regions i i_in)

    stop_lem :
        (i : ℕ)
        → i < length map.regions
        → stop_at map.regions i
          ≡ (get_or map.regions i no_region).offset + (get_or map.regions i no_region).size
    stop_lem i i_in =
        let bound = tidy.small (get_or map.regions i no_region) (file_at i i_in) in
        omega (arith, bound)

    stops_up :
        (i j : ℕ) → i ≤ j → j < length map.regions → stop_at map.regions i ≤ stop_at map.regions j
    stops_up i j le j_in =
        let a = get_or map.regions i no_region in
        let b = get_or map.regions j no_region in
        let i_in : i < length map.regions = omega arith in
        let order : a.offset ≤ b.offset = starts_up map.regions ordered i j le j_in in
        let stop_a = stop_lem i i_in in
        let stop_b = stop_lem j j_in in
        elim (ℕ_discrete a.offset b.offset) [
          | yes e ↦ omega (arith, tidy.same a b (file_at i i_in) (file_at j j_in) e, stop_a, stop_b)
          | no ne ↦ omega (
            arith,
            tidy.apart a b (file_at i i_in) (file_at j j_in) (omega arith),
            stop_a,
            stop_b,
          )
        ]

    is_data_region-FileIn :
        (offset size : ℕ)
        → offset + size < 2 ^ 64
        → (is_data_region map offset size ≡ true) ↔ (
            (r : Region) × FileIn 1 total r
            × (offset < r.offset + r.size)
            × (r.offset < offset + size))
    unfolding is_data_region
    is_data_region-FileIn offset size small =
        let n = length map.regions in
        let xs = map.regions in
        let end : u64 (offset + size) ≡ offset + size = omega arith in
        let decided =
          overlap_loop-Decides (stop_at xs) (start_at xs) offset (u64 (offset + size)) n
            (starts_up xs ordered) stops_up n 0 n (omega arith) (omega arith) (omega arith)
            (λ j a. absurd (omega arith)) (λ j a b. absurd (omega arith)) in
        elim decided [
          | inl (is, (i, i_in, o)) ↦ (
            λ h. (
              get_or xs i no_region,
              file_at i i_in,
              omega (arith, o, stop_lem i i_in),
              omega (arith, o, end),
            ),
            λ h. is,
          )
          | inr (is, never) ↦ (
            λ h. absurd (cc),
            λ h.
                let (i, i_in, e) = place_of h.0 xs ((files h.0).1 h.1) in
                let start_is : start_at xs i ≡ h.0.offset = ap (λ (r : Region). r.offset) e in
                let size_is : (get_or xs i no_region).size ≡ h.0.size =
                  ap (λ (r : Region). r.size) e in
                absurd (
                  never i i_in (
                    omega (arith, h.2, stop_lem i i_in, start_is, size_is),
                    omega (arith, h.3, start_is, end),
                  )),
          )
        ]

  -- With memory for it and a table of entries that is whole, `ngc_build_data_map` builds a map; if
  -- the files lie apart or are the same bytes and no offset wraps, `ngc_is_data_region` on it answers
  -- whether some file of the table has a byte in the range.
  pub is_data_region-build_data_map :
      (memory : ℕ → Bool) (fst_size offset size : ℕ)
      → ((n : ℕ) → memory n ≡ true)
      → 12 ≤ fst_size
      → 0 < ngc_be32 fst 8
      → ngc_be32 fst 8 * 12 ≤ fst_size
      → IsTidy (ngc_be32 fst 8)
      → offset + size < 2 ^ 64
      → (map : DataMap) × (build_data_map memory (some fst) fst_size start shift ≡ some map)
        × ((is_data_region map offset size ≡ true) ↔ (
            (r : Region) × FileIn 1 (ngc_be32 fst 8) r
            × (offset < r.offset + r.size)
            × (r.offset < offset + size)))
  unfolding build_data_map sorted_map
  is_data_region-build_data_map memory fst_size offset size given whole some_entry room tidy small =
      let total = ngc_be32 fst 8 in
      let (m, is, among) = add_entries-Among memory (total - 1) 1 no_regions given in
      let all : 1 + (total - 1) ≡ total = omega arith in
      let sorted : DataMap = record m { regions = sort_regions m.regions } in
      let files : (r : Region) → Among r sorted.regions ↔ FileIn 1 total r = λ r. (
        λ (h : Among r sorted.regions). elim ((among r).0 ((Among-sort_regions r m.regions).0 h)) [
          | inl none_yet ↦ absurd none_yet
          | inr f ↦ subst (λ n. FileIn 1 n r) all f
        ],
        λ (f : FileIn 1 total r).
            (Among-sort_regions r m.regions).1
              ((among r).1 (inr (subst (λ n. FileIn 1 n r) (sym all) f))),
      ) in
      (
        sorted,
        rw (le→ltb fst_size 12 whole, le→ltb fst_size (total * 12) room, is, sorted_map) refl,
        is_data_region-FileIn total tidy sorted (sort_regions-IsOrdered m.regions) files offset size
            small,
      )
