-- ===== src/Store/BlockSet/Tests.antt =====
-- pkg/store/bucket.go: `bucketBlockSet` at a concrete input.
use promlts.Store.BlockSet.{Block, Level, skip_levels, fill_level, get_from, get_for, Matcher}
use promlts.Store.BlockSet.Covers.{Gets, get_for-IsWanted}
use promlts.Prelude.Int.{pos, ◌-ℤ◌}
use promlts.Labelpb.{Bytes, bytes_eq}
use promlts.Prelude.{
  ◌==◌, if◌then◌else◌, length, ℕ, ◌≡◌, refl, Bool, true, false, some, List, [], ◌∷◌, arith,
}

abbrev block : ℕ → ℕ → ℕ → ℕ → Block
block id from to res = record {
  ulid = id;
  min_time = pos from;
  max_time = pos to;
  resolution = pos res;
}

abbrev levels : List Level
levels =
    (pos 3600000, block 1 0 100 3600000 ∷ [])
    ∷ (pos 300000, block 2 100 200 300000 ∷ [])
    ∷ (pos 0, block 3 200 300 0 ∷ [])
    ∷ []

abbrev all_match : Block → Bool
all_match b = true

get_for_runs :
    get_for all_match levels (pos 50) (pos 250) (pos 3600000)
    ≡ some (block 1 0 100 3600000 ∷ block 2 100 200 300000 ∷ block 3 200 300 0 ∷ [])
unfolding get_for get_from fill_level skip_levels ◌-ℤ◌
get_for_runs = refl

get_for-IsWanted_example :
    Gets all_match levels
      (pos 150)
      (pos 250)
      (pos 300000)
      (get_for all_match levels (pos 150) (pos 250) (pos 300000))
get_for-IsWanted_example =
    get_for-IsWanted all_match levels (pos 150) (pos 250) (pos 300000)
      ((refl, (refl, tt)), ((refl, tt), (tt, tt)))

abbrev set_label : Bytes → Bytes
set_label n = if bytes_eq n (1 ∷ []) then 7 ∷ [] else []

abbrev series_label : Bytes → Bytes
series_label n = if bytes_eq n (1 ∷ []) then 7 ∷ [] else 8 ∷ []

agree : (n : Bytes) → (length (set_label n) == 0) ≡ false → series_label n ≡ set_label n
agree n h = ground arith

abbrev two_matchers : List Matcher
two_matchers =
    record { name = 1 ∷ []; accepts = bytes_eq (7 ∷ []) }
    ∷ record { name = 2 ∷ []; accepts = bytes_eq (8 ∷ []) }
    ∷ []
