-- ===== src/Queryfrontend.antt =====
-- pkg/queryfrontend/split_by_interval.go: the split of a query into one for each interval. Times are
-- milliseconds, from the epoch on. The step and the interval are divisors, so that a zero panics.
pub mod Steps
pub mod Tiles
mod Tests
use mathlib.Core.Option
use mathlib.Core.Option
use promlts.Prelude.{
  ltb, leb, ◌==◌, if◌then◌else◌, ℕ, zero, suc, ◌+◌, ◌-◌, ◌*◌, ◌/◌, ◌%◌, Option, none, some, List,
  [], ◌∷◌,
}

-- ThanosQueryRangeRequest, and the requests of labels and series, which have no step.
pub data Request : Type 0 where
  range_request : ℕ → ℕ → ℕ → Request
  other_request : ℕ → ℕ → Request

-- The start and the end of a part.
abbrev pub Span : Type 0
Span = ℕ × ℕ

-- `interval` is in milliseconds.
pub next_interval_boundary : ℕ → ℕ → ℕ → ℕ
next_interval_boundary t step interval =
    let start_of_next_interval = (t / interval + 1) * interval in
    let target = start_of_next_interval - (start_of_next_interval - t) % step in
    if target == start_of_next_interval then target - step else target

-- `none` runs out of fuel.
pub split_range : ℕ → ℕ → ℕ → ℕ → ℕ → Option (List Span)
split_range zero start end step interval = none
split_range (suc fuel) start end step interval =
    let boundary = next_interval_boundary start step interval in
    let rest = split_range fuel (boundary + step) end step interval in
    if ltb start end
    then Option.map (λ ss. (start, if leb end (boundary + step) then end else boundary) ∷ ss) rest
    else some []

pub split_other : ℕ → ℕ → ℕ → ℕ → Option (List Span)
split_other zero start end interval = none
split_other (suc fuel) start end interval =
    let rest = split_other fuel (start + interval) end interval in
    if ltb start end
    then Option.map
        (λ ss. (start, if ltb end (start + interval) then end else start + interval) ∷ ss) rest
    else some []

pub split_query : ℕ → Request → ℕ → Option (List Span)
split_query fuel (range_request start end step) interval =
    if start == end then some ((start, start) ∷ []) else split_range fuel start end step interval
split_query fuel (other_request start end) interval = split_other fuel start end interval
