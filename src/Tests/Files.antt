-- ===== src/Tests/Files.antt =====
-- A table of two files of a disc (src/lib/nintendo.c).
use obmafs.Prelude.{
  ℕ, ◌+◌, ◌<◌, ◌≡◌, ◌⊎◌, ◌↔◌, inl, inr, refl, ◌∙◌, ap, sym, subst, true, some, List, [], ◌∷◌, arith,
  ℕ_discrete,
}
use obmafs.DataMap.{Region, DataMap, ngc_be32, region_of, build_data_map, is_data_region}
use obmafs.DataMap.Build.{FileIn, IsTidy, is_data_region-build_data_map}

-- 16 bytes at 256 and 32 bytes at 512.
abbrev table : List ℕ
table =
    1 ∷ 0 ∷ 0 ∷ 0 ∷ 0 ∷ 0 ∷ 0 ∷ 0 ∷ 0 ∷ 0 ∷ 0 ∷ 3 ∷ 0 ∷ 0 ∷ 0 ∷ 0 ∷ 0 ∷ 0 ∷ 1 ∷ 0 ∷ 0 ∷ 0 ∷ 0 ∷ 16
    ∷ 0 ∷ 0 ∷ 0 ∷ 0 ∷ 0 ∷ 0 ∷ 2 ∷ 0 ∷ 0 ∷ 0 ∷ 0 ∷ 32 ∷ []

three_entries : ngc_be32 table 8 ≡ 3
unfolding ngc_be32
three_entries = refl

abbrev first : Region
first = record { offset = 256; size = 16 }

abbrev second : Region
second = record { offset = 512; size = 32 }

first_file : region_of table 0 0 1 ≡ first
unfolding ngc_be32
first_file = refl

second_file : region_of table 0 0 2 ≡ second
unfolding ngc_be32
second_file = refl

files : (r : Region) → FileIn table 0 0 1 3 r → (r ≡ first) ⊎ (r ≡ second)
files r (i, from, to, file, e) = elim (ℕ_discrete i 1) [
  | yes one ↦ inl (e ∙ ap (region_of table 0 0) one ∙ first_file)
  | no other ↦ let two : i ≡ 2 = omega arith in inr (e ∙ ap (region_of table 0 0) two ∙ second_file)
]

abbrev IsPlain : Region → Type 0
IsPlain r = ((r.offset ≡ 256) × (r.size ≡ 16)) ⊎ ((r.offset ≡ 512) × (r.size ≡ 32))

plain : (r : Region) → FileIn table 0 0 1 3 r → IsPlain r
plain r f = elim (files r f) [
  | inl e ↦ inl (ap (λ (q : Region). q.offset) e, ap (λ (q : Region). q.size) e)
  | inr e ↦ inr (ap (λ (q : Region). q.offset) e, ap (λ (q : Region). q.size) e)
]

table-IsTidy : IsTidy table 0 0 (ngc_be32 table 8)
table-IsTidy =
    subst (λ n. IsTidy table 0 0 n) (sym three_entries)
      (record {
        apart = λ a b in_a in_b lt. ground (arith, plain a in_a, plain b in_b);
        same = λ a b in_a in_b e. ground (arith, plain a in_a, plain b in_b);
        small = λ a in_a. ground (arith, plain a in_a);
      })

is_data_region-build_data_map_example :
    (map : DataMap) × (build_data_map (λ n. true) (some table) 36 0 0 ≡ some map)
    × ((is_data_region map 500 100 ≡ true) ↔ (
        (r : Region) × FileIn table 0 0 1 (ngc_be32 table 8) r
        × (500 < r.offset + r.size)
        × (r.offset < 500 + 100)))
is_data_region-build_data_map_example =
    is_data_region-build_data_map table 0 0 (λ n. true) 36 500 100 (λ n. refl) (omega arith)
      (omega (arith, three_entries)) (omega (arith, three_entries)) table-IsTidy (omega arith)
