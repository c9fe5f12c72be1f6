-- ===== src/Compact/Planner.antt =====
-- pkg/compact/planner.go: which blocks of a group to compact next. A block's ULID is a number, its
-- times are signed. A slice access out of range, at which Go panics, gives `none`. The results of
-- floating-point arithmetic are parameters: whether more than 5% of a block's series are tombstones,
-- and the limit of a plan's total index size. So are the bucket's answers.
pub mod Parts
pub mod Plan
pub mod Ranges
pub mod Overlap
pub mod Tests
use mathlib.Core.List.{reverse}
use mathlib.Core.Option
use promlts.Prelude.Dict.{nat_eq, Dict, get}
use promlts.Prelude.Int.{ℤ, pos, ◌+ℤ◌, ◌-ℤ◌, ◌*ℤ◌, ◌/ℤ◌, ltb_ℤ}
use promlts.Labelpb.{Bytes}
use promlts.Prelude.{
  ltb, ◌==◌, if◌then◌else◌, length, get_elem?, ℕ, zero, suc, ◌+◌, ◌/◌, Bool, true, false, ◌&&◌,
  ◌||◌, Option, none, some, List, [], ◌∷◌, ◌++◌,
}

pub record Meta : Type 0 where
  pub ulid : ℕ
  pub min_time : ℤ
  pub max_time : ℤ
  pub failed : Bool
  pub num_tombstones : ℕ
  pub num_series : ℕ
  -- relative path and size
  pub files : List (Bytes × ℤ)

-- The blocks that are marked to be left alone.
abbrev pub Marks : Type 0
Marks = Dict ℕ (Unit {0})

abbrev pub is_excluded : Marks → Meta → Bool
is_excluded marks m = elim (get marks m.ulid) [ none ↦ false | some mark ↦ true ]

pub not_excluded : Marks → List Meta → List Meta
not_excluded marks [] = []
not_excluded marks (m ∷ metas) =
    let rest = not_excluded marks metas in if is_excluded marks m then rest else m ∷ rest

-- The loop of `selectOverlappingMetas`, after the block `prev`.
pub overlapping_from : Meta → ℤ → List Meta → List Meta → List Meta
overlapping_from prev global_maxt found [] = found
overlapping_from prev global_maxt found (m ∷ metas) =
    let maxt = if ltb_ℤ global_maxt m.max_time then m.max_time else global_maxt in
    let first = overlapping_from m maxt (prev ∷ m ∷ []) metas in
    let next = overlapping_from m maxt (found ++ (m ∷ [])) metas in
    let none_yet = overlapping_from m maxt [] metas in
    if ltb_ℤ m.min_time global_maxt
    then (if length found == 0 then first else next)
    else (if length found == 0 then none_yet else found)

pub select_overlapping_metas : List Meta → List Meta
unfolding overlapping_from
select_overlapping_metas [] = []
select_overlapping_metas (m ∷ metas) = overlapping_from m m.max_time [] metas

-- The start of the range of size `tr` that the block starts in.
pub range_start : ℤ → ℤ → ℤ
range_start tr t = if ltb_ℤ t (pos 0) then tr *ℤ ((t -ℤ tr +ℤ pos 1) /ℤ tr) else tr *ℤ (t /ℤ tr)

-- The inner loop of `splitByRange`: the blocks that end by the end of the range, and the others.
pub take_group : ℤ → List Meta → List Meta × List Meta
take_group end [] = ([], [])
take_group end (m ∷ metas) =
    let (group, rest) = take_group end metas in
    if ltb_ℤ end m.max_time then ([], m ∷ metas) else (m ∷ group, rest)

-- The outer loop, with fuel.
pub split_from : ℕ → List Meta → ℤ → Option (List (List Meta))
unfolding take_group range_start
split_from zero metas tr = none
split_from (suc fuel) [] tr = some []
split_from (suc fuel) (m ∷ metas) tr =
    let end = range_start tr m.min_time +ℤ tr in
    let (group, rest) = take_group end (m ∷ metas) in
    let skipped = split_from fuel metas tr in
    let others = split_from fuel rest tr in
    if ltb_ℤ end m.max_time
    then skipped
    else Option.map (λ groups. if length group == 0 then groups else group ∷ groups) others

pub split_by_range : List Meta → ℤ → Option (List (List Meta))
unfolding split_from
split_by_range metas tr = split_from (length metas + 1) metas tr

-- The loop over a part that leaves the excluded blocks out; `segment` is what came since the last.
pub first_segment : Marks → List Meta → List Meta → Option (List Meta)
first_segment marks segment [] = if ltb 1 (length segment) then some segment else none
first_segment marks segment (m ∷ p) =
    let after = first_segment marks [] p in
    let more = first_segment marks (segment ++ (m ∷ [])) p in
    if is_excluded marks m then (if ltb 1 (length segment) then some segment else after) else more

abbrev pub any_failed : List Meta → Bool
any_failed [] = false
any_failed (m ∷ p) = m.failed || any_failed p

-- The time of the last block, or of `m`.
abbrev pub last_meta : Meta → List Meta → Meta
last_meta m [] = m
last_meta m (n ∷ p) = last_meta n p

pub select_part : ℤ → ℤ → Marks → List Meta → Option (List Meta)
unfolding first_segment
select_part iv high_time marks [] = none
select_part iv high_time marks (m ∷ p) =
    let maxt = (last_meta m p).max_time in
    let spans = maxt -ℤ m.min_time in
    if any_failed (m ∷ p)
    then none
    else if length p == 0
    then none
    else if (ltb_ℤ spans iv || ltb_ℤ iv spans) && ltb_ℤ high_time maxt
    then none
    else first_segment marks [] (m ∷ p)

pub select_parts : ℤ → ℤ → Marks → List (List Meta) → Option (List Meta)
unfolding select_part
select_parts iv high_time marks [] = none
select_parts iv high_time marks (p ∷ parts) =
    let rest = select_parts iv high_time marks parts in
    elim (select_part iv high_time marks p) [ some res ↦ some res | none ↦ rest ]

-- The loop over the ranges after the first. A result in an option: the outer one is `none` if the
-- fuel of `split_by_range` runs out.
pub select_ranges : List ℤ → ℤ → Marks → List Meta → Option (List Meta)
unfolding split_by_range select_parts
select_ranges [] high_time marks metas = some []
select_ranges (iv ∷ ranges) high_time marks metas =
    let rest = select_ranges ranges high_time marks metas in
    elim (split_by_range metas iv) [
      | none ↦ none
      | some parts ↦ elim (select_parts iv high_time marks parts) [
        | some res ↦ some res
        | none ↦ rest
      ]
    ]

pub select_metas : List ℤ → Marks → List Meta → Option (List Meta)
unfolding select_ranges
select_metas [] marks metas = some []
select_metas (iv ∷ ranges) marks [] = some []
select_metas (iv ∷ ranges) marks (m ∷ metas) =
    select_ranges ranges (last_meta m metas).min_time marks (m ∷ metas)

-- A slice without its last block.
abbrev pub init_metas : List Meta → List Meta
init_metas [] = []
init_metas (m ∷ []) = []
init_metas (m ∷ n ∷ metas) = m ∷ init_metas (n ∷ metas)

module _ (many_tombstones : ℕ → ℕ → Bool) where
  -- The loop over the blocks, from the last one, which are given in that order.
  pub tombstones_from : ℤ → List Meta → List Meta
  tombstones_from range [] = []
  tombstones_from range (m ∷ metas) =
      let rest = tombstones_from range metas in
      if ltb_ℤ (m.max_time -ℤ m.min_time) range
      then []
      else if many_tombstones m.num_tombstones (m.num_series + 1)
      then m ∷ []
      else rest

  -- The usual way, without overlapping blocks.
  pub plan_usual : List ℤ → Marks → Meta → List Meta → List Meta → Option (List Meta)
  unfolding select_metas tombstones_from
  plan_usual ranges marks m metas kept =
      let kept = if is_excluded marks (last_meta m metas) then kept else init_metas kept in
      elim (select_metas ranges marks (init_metas (m ∷ metas))) [
        | none ↦ none
        | some (x ∷ res) ↦ some (x ∷ res)
        | some [] ↦ elim (reverse kept) [
          | [] ↦ some []
          | y ∷ ys ↦ elim (get_elem? ranges (length ranges / 2)) [
            | none ↦ none
            | some range ↦ some (tombstones_from range (y ∷ ys))
          ]
        ]
      ]

  pub plan : List ℤ → Marks → List Meta → Option (List Meta)
  unfolding not_excluded select_overlapping_metas plan_usual
  plan ranges marks [] = none
  plan ranges marks (m ∷ metas) =
      let kept = not_excluded marks (m ∷ metas) in
      elim (select_overlapping_metas kept) [
        | x ∷ res ↦ some (x ∷ res)
        | [] ↦ plan_usual ranges marks m metas kept
      ]
