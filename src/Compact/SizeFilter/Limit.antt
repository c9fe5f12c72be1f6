-- ===== src/Compact/SizeFilter/Limit.antt =====
-- pkg/compact/planner.go: that the loop of `largeTotalIndexSizeFilter` ends, and its plan is small.
use promlts.Compact.Planner.{Meta, Marks, is_excluded}
use promlts.Compact.SizeFilter.{
  Checked, fits, oversized, no_attributes, Planned, planned, attributes_failed, mark_failed,
  panicked, out_of_fuel, index_size,
}
use promlts.Prelude.Dict.{nat_eq}
use promlts.Prelude.Int.{ℤ, pos, ◌+ℤ◌, ltb_ℤ}
use promlts.Prelude.{All, Contains, ℕ, ◌≡◌, Bool, true, false, Option, none, some, List, [], ◌∷◌}

module _ (attributes : ℕ → Option ℤ) (limit : ℤ) where
  -- The sum of the index sizes, if the bucket tells those that are not listed.
  abbrev pub total_size : ℤ → List Meta → Option ℤ
  total_size total [] = some total
  total_size total (m ∷ metas) = elim (index_size attributes limit m) [
    | none ↦ none
    | some size ↦ total_size (total +ℤ size) metas
  ]

  -- The block that is too much is one of the plan's.
  abbrev IsOneOf : (Meta → Type 0) → Checked → Type 0
  IsOneOf Q fits = Unit {0}
  IsOneOf Q no_attributes = Unit {0}
  IsOneOf Q (oversized id) = (m : Meta) × Q m × (m.ulid ≡ id)

  -- A plan that fits has a total index size below the limit.
  abbrev pub IsSmall : ℤ → List Meta → Checked → Type 0
  IsSmall total metas fits = (s : ℤ) × (total_size total metas ≡ some s) × (ltb_ℤ s limit ≡ true)
  IsSmall total metas no_attributes = Unit {0}
  IsSmall total metas (oversized id) = Unit {0}

  -- What the filter's plan promises: it is empty, or its index sizes add up to less than the limit.
  abbrev pub IsLimited : List Meta → Type 0
  IsLimited [] = Unit {0}
  IsLimited (m ∷ metas) =
      (s : ℤ) × (total_size (pos 0) (m ∷ metas) ≡ some s) × (ltb_ℤ s limit ≡ true)

  module _ (many_tombstones : ℕ → ℕ → Bool) (mark_written : ℕ → Bool) (ranges : List ℤ) where
    -- What a run of the filter may end in.
    abbrev pub Ends : Marks → List Meta → Planned → Type 0
    Ends marks metas out_of_fuel = ⊥
    Ends marks metas (planned res) =
        IsLimited res × All (λ m. Contains m metas × (is_excluded marks m ≡ false)) res
    Ends marks metas attributes_failed = Unit {0}
    Ends marks metas mark_failed = Unit {0}
    Ends marks metas panicked = Unit {0}
