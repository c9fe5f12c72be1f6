-- ===== src/Compact/Planner/Tests.antt =====
-- pkg/compact/planner.go: a run, and the theorems at concrete inputs.
use promlts.Compact.Planner.{
  Meta, is_excluded, not_excluded, overlapping_from, select_overlapping_metas, range_start,
  take_group, split_from, split_by_range, first_segment, select_part, select_parts, select_ranges,
  select_metas, plan_usual, plan,
}
use promlts.Compact.Planner.Plan.{plan-Contains}
use promlts.Compact.Planner.Ranges.{AllInRanges, split-InRanges}
use promlts.Compact.SizeFilter.{index_filename}
use promlts.Prelude.Dict.{nat_eq, get}
use promlts.Prelude.Int.{ℤ, pos, ◌+ℤ◌, ◌-ℤ◌, ◌*ℤ◌, ◌/ℤ◌}
use promlts.Prelude.{ltb, All, Contains, ℕ, ◌*◌, ◌≡◌, refl, Bool, false, some, List, [], ◌∷◌, arith}

abbrev pub meta : ℕ → ℕ → ℕ → ℕ → Meta
meta id from to size = record {
  ulid = id;
  min_time = pos from;
  max_time = pos to;
  failed = false;
  num_tombstones = 0;
  num_series = 10;
  files = (index_filename, pos size) ∷ [];
}

abbrev pub metas : List Meta
metas = meta 1 0 20 50 ∷ meta 2 20 40 60 ∷ meta 3 40 60 70 ∷ meta 4 60 80 5 ∷ []

abbrev pub ranges : List ℤ
ranges = pos 20 ∷ pos 60 ∷ pos 180 ∷ []

abbrev pub few : ℕ → ℕ → Bool
few t s = ltb s (20 * t)

plan_runs :
    plan few ranges [] metas ≡ some (meta 1 0 20 50 ∷ meta 2 20 40 60 ∷ meta 3 40 60 70 ∷ [])
unfolding plan not_excluded select_overlapping_metas overlapping_from plan_usual select_metas
    select_ranges split_by_range split_from range_start take_group select_parts select_part
    first_segment get ◌+ℤ◌ ◌-ℤ◌ ◌*ℤ◌ ◌/ℤ◌
plan_runs = refl

plan-Contains_example :
    All
      (λ m. Contains m metas × (is_excluded [] m ≡ false))
      (meta 1 0 20 50 ∷ meta 2 20 40 60 ∷ meta 3 40 60 70 ∷ [])
plan-Contains_example =
    plan-Contains few ranges [] metas (meta 1 0 20 50 ∷ meta 2 20 40 60 ∷ meta 3 40 60 70 ∷ [])
      plan_runs

split-InRanges_example : AllInRanges (pos 60) metas (split_by_range metas (pos 60))
split-InRanges_example = split-InRanges metas 60 (omega arith)
