-- ===== src/Compact/SizeFilter.antt =====
-- pkg/compact/planner.go: `largeTotalIndexSizeFilter`, which plans again without the biggest block
-- of a plan whose indexes are too large together. The loop takes fuel. The bucket's answers are
-- parameters: the size of a block's index (`none` is an error), and whether a mark is written. Sizes
-- are added without a bound, where the code adds `int64`.
pub mod Unmarked
pub mod Limit
use promlts.Compact.Planner.{Meta, Marks, plan}
use promlts.Prelude.Dict.{nat_eq, put}
use promlts.Prelude.Int.{ℤ, pos, negsuc, ◌+ℤ◌, ltb_ℤ}
use promlts.Labelpb.{Bytes, bytes_eq}
use promlts.Prelude.{
  if◌then◌else◌, length, ℕ, zero, suc, ◌+◌, ◌-◌, ◌^◌, Bool, Option, none, some, List, [], ◌∷◌,
}

abbrev pub index_filename : Bytes
index_filename = 105 ∷ 110 ∷ 100 ∷ 101 ∷ 120 ∷ []

pub data Checked : Type 0 where
  fits : Checked
  oversized : ℕ → Checked
  no_attributes : Checked

pub data Planned : Type 0 where
  planned : List Meta → Planned
  attributes_failed : Planned
  mark_failed : Planned
  -- the planner accessed a slice out of range
  panicked : Planned
  out_of_fuel : Planned

-- The size in the block's metadata: that of the last file named as the index.
pub listed_size : ℤ → List (Bytes × ℤ) → ℤ
listed_size size [] = size
listed_size size ((path, bytes) ∷ files) =
    let named = listed_size bytes files in
    let others = listed_size size files in if bytes_eq path index_filename then named else others

module _ (attributes : ℕ → Option ℤ) (limit : ℤ) where
  pub index_size : Meta → Option ℤ
  unfolding listed_size
  index_size m =
      let size = listed_size (negsuc 0) m.files in
      if ltb_ℤ (pos 0) size then some size else attributes m.ulid

  -- The loop over a plan: the sum so far, the largest size so far and its block.
  pub check_from : ℤ → ℤ → Meta → List Meta → Checked
  unfolding index_size
  check_from total max_size biggest [] = fits
  check_from total max_size biggest (m ∷ plan) = elim (index_size m) [
    | none ↦ no_attributes
    | some size ↦
        let big = if ltb_ℤ max_size size then m else biggest in
        let rest =
          check_from (total +ℤ size) (if ltb_ℤ max_size size then size else max_size) big plan in
        if ltb_ℤ (total +ℤ size) limit then rest else oversized big.ulid
  ]

  pub check : List Meta → Checked
  unfolding check_from
  check [] = fits
  check (m ∷ plan) = check_from (pos 0) (negsuc (2 ^ 63 - 1)) m (m ∷ plan)

  module _ (many_tombstones : ℕ → ℕ → Bool) (mark_written : ℕ → Bool) (ranges : List ℤ) where
    pub plan_loop : ℕ → Marks → List Meta → Planned
    plan_loop zero marks metas = out_of_fuel
    plan_loop (suc fuel) marks metas = elim (plan many_tombstones ranges marks metas) [
      | none ↦ panicked
      | some res ↦ elim (check res) [
        | fits ↦ planned res
        | no_attributes ↦ attributes_failed
        | oversized id ↦
            if mark_written id then plan_loop fuel (put marks id tt) metas else mark_failed
      ]
    ]

    -- `Plan` of the filter.
    pub plan_within : Marks → List Meta → Planned
    unfolding plan_loop
    plan_within marks metas = plan_loop (length metas + 1) marks metas
