-- ===== src/Cache/Subranges/Tests.antt =====
-- An object of five bytes, in subranges of two.
use promlts.Labelpb.{Bytes}
use promlts.Prelude.Dict.{nat_eq, get, put}
use promlts.Cache.Subranges.{
  Config, Hits, round_up, plan_range, offsets_from, missing_of, merge_from, merge_ranges,
  reduce_ranges, fetch_subranges, fetch_ranges, fetch_missing_subranges, read, read_all,
  cached_get_range,
}
use promlts.Cache.Subranges.Fetched.{part, AreParts}
use promlts.Cache.Subranges.Equal.{ReadsRange, cached_get_range-ReadsRange}
use promlts.Prelude.{
  ◌==◌, Bool-cases, ℕ, ◌≡◌, refl, ap, inl, inr, Option, none, some, [], ◌∷◌, arith,
}

abbrev object : Bytes
object = 10 ∷ 11 ∷ 12 ∷ 13 ∷ 14 ∷ []

abbrev config : Config
config = record { subrange_size = 2; max_sub_requests = 1 }

abbrev bucket_range : ℕ → ℕ → Option Bytes
bucket_range off len = some (part object off len)

abbrev cached : Hits
cached = (2, 12 ∷ 13 ∷ []) ∷ []

-- The first and the last subrange are missing, and fetched in one request over the middle.
merged_over :
    reduce_ranges 7 1 2 (record { start = 0; end = 2 } ∷ record { start = 4; end = 6 } ∷ [])
    ≡ some (record { start = 0; end = 6 } ∷ [])
unfolding reduce_ranges merge_ranges merge_from
merged_over = refl

read_four :
    (elim (cached_get_range bucket_range config 5 cached 1 9) [
      | none ↦ none
      | some c ↦ read_all 5 3 c
    ])
    ≡ some (11 ∷ 12 ∷ 13 ∷ 14 ∷ [])
unfolding cached_get_range plan_range round_up fetch_missing_subranges missing_of offsets_from
    merge_ranges merge_from reduce_ranges fetch_ranges fetch_subranges read_all read get put
read_four = refl

cached-AreParts : AreParts object 2 (plan_range config 5 1 9) cached
unfolding get
cached-AreParts off b h = elim (Bool-cases (2 == off)) [
  | inl p ↦ let q : 2 ≡ off = ground arith in ground (arith, ap (λ x. part object x 2) q)
  | inr p ↦ ground arith
]

cached_get_range-ReadsRange_example :
    ReadsRange object config
      (omega arith)
      bucket_range
      1
      9
      (cached_get_range bucket_range config 5 cached 1 9)
cached_get_range-ReadsRange_example =
    cached_get_range-ReadsRange object config (omega arith) bucket_range (λ off len. inr refl) 1 9
      cached (omega arith) cached-AreParts
