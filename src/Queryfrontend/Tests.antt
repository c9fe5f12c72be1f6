-- ===== src/Queryfrontend/Tests.antt =====
-- A query over two days, in milliseconds of a smaller day.
use promlts.Queryfrontend.{
  range_request, other_request, next_interval_boundary, split_range, split_query,
}
use promlts.Queryfrontend.Steps.{HasSteps, split_query-HasSteps}
use promlts.Queryfrontend.Tiles.{HasTiles, split_query-HasTiles}
use promlts.Prelude.{suc, ◌-◌, ◌≡◌, refl, some, [], ◌∷◌, arith}

-- The first part ends at the last step of the first day, and the second begins with the next step.
two_days : split_query 20 (range_request 5 18 4) 10 ≡ some ((5, 9) ∷ (13, 18) ∷ [])
unfolding split_query split_range next_interval_boundary
two_days = refl

split_query-HasSteps_example :
    HasSteps 4 (5, 18) (split_query (suc (18 - 5)) (range_request 5 18 4) 10)
split_query-HasSteps_example = split_query-HasSteps 5 18 4 10 (omega arith) (omega arith)

split_query-HasTiles_example : HasTiles 5 18 10 (split_query (suc (18 - 5)) (other_request 5 18) 10)
split_query-HasTiles_example = split_query-HasTiles 5 18 10 (omega arith)
