-- ===== src/Compact/Planner/Parts.antt =====
-- pkg/compact/planner.go: what holds for all blocks holds for those that the parts of the planner
-- select, and these are not marked.
use mathlib.Core.Option
use promlts.Compact.Planner.{
  Meta, Marks, is_excluded, not_excluded, overlapping_from, select_overlapping_metas, range_start,
  take_group, split_from, split_by_range, first_segment, any_failed, last_meta, select_part,
  select_parts, select_ranges, select_metas,
}
use promlts.Prelude.Dict.{nat_eq}
use promlts.Prelude.Int.{ℤ, ◌+ℤ◌, ltb_ℤ}
use promlts.Prelude.{
  ltb, ◌==◌, if◌then◌else◌, Bool-cases, if_both, length, All, All-append, ℕ, zero, suc, ◌+◌, ◌≡◌,
  inl, inr, false, Option, none, some, List, [], ◌∷◌, ◌++◌,
}

module _ (Q : Meta → Type 0) where
  pub All-not_excluded :
      (marks : Marks) (metas : List Meta)
      → All Q metas
      → All (λ m. Q m × (is_excluded marks m ≡ false)) (not_excluded marks metas)
  unfolding not_excluded
  All-not_excluded marks [] h = tt
  All-not_excluded marks (m ∷ metas) (q, h) = elim (Bool-cases (is_excluded marks m)) [
    | inl t ↦ rw t (All-not_excluded marks metas h)
    | inr t ↦ rw t ((q, t), All-not_excluded marks metas h)
  ]

  All-overlapping_from :
      (prev : Meta) (maxt : ℤ) (found metas : List Meta)
      → Q prev
      → All Q found
      → All Q metas
      → All Q (overlapping_from prev maxt found metas)
  unfolding overlapping_from
  All-overlapping_from prev maxt found [] p f h = f
  All-overlapping_from prev maxt found (m ∷ metas) p f (q, h) =
      let maxt' = if ltb_ℤ maxt m.max_time then m.max_time else maxt in
      let none_found = length found == 0 in
      let first = All-overlapping_from m maxt' (prev ∷ m ∷ []) metas q (p, (q, tt)) h in
      let next =
        All-overlapping_from m maxt' (found ++ (m ∷ [])) metas q
          (All-append Q found (m ∷ []) f (q, tt)) h in
      let again = All-overlapping_from m maxt' [] metas q tt h in
      if_both (All Q) (ltb_ℤ m.min_time maxt) _ _ (if_both (All Q) none_found _ _ first next)
        (if_both (All Q) none_found _ _ again f)

  pub All-select_overlapping :
      (metas : List Meta) → All Q metas → All Q (select_overlapping_metas metas)
  unfolding select_overlapping_metas
  All-select_overlapping [] h = tt
  All-select_overlapping (m ∷ metas) (q, h) = All-overlapping_from m m.max_time [] metas q tt h

  All-take_group :
      (end : ℤ) (metas : List Meta)
      → All Q metas
      → All Q (take_group end metas).0 × All Q (take_group end metas).1
  unfolding take_group
  All-take_group end [] h = (tt, tt)
  All-take_group end (m ∷ metas) (q, h) = elim (Bool-cases (ltb_ℤ end m.max_time)) [
    | inl t ↦ rw t (tt, (q, h))
    | inr t ↦ rw t ((q, (All-take_group end metas h).0), (All-take_group end metas h).1)
  ]

  abbrev AllGroups : Option (List (List Meta)) → Type 0
  AllGroups none = Unit {0}
  AllGroups (some groups) = All (All Q) groups

  All-cons_group :
      (group : List Meta) (o : Option (List (List Meta)))
      → All Q group
      → AllGroups o
      → AllGroups (Option.map (λ groups. if length group == 0 then groups else group ∷ groups) o)
  All-cons_group group none g h = tt
  All-cons_group group (some groups) g h =
      if_both (All (All Q)) (length group == 0) groups (group ∷ groups) h (g, h)

  All-split_from :
      (fuel : ℕ) (metas : List Meta) (tr : ℤ) → All Q metas → AllGroups (split_from fuel metas tr)
  unfolding split_from
  All-split_from zero metas tr h = tt
  All-split_from (suc fuel) [] tr h = tt
  All-split_from (suc fuel) (m ∷ metas) tr (q, h) =
      let end = range_start tr m.min_time +ℤ tr in
      let (g, r) = All-take_group end (m ∷ metas) (q, h) in
      if_both AllGroups (ltb_ℤ end m.max_time) _ _ (All-split_from fuel metas tr h) (
        All-cons_group (take_group end (m ∷ metas)).0
          (split_from fuel (take_group end (m ∷ metas)).1 tr) g
          (All-split_from fuel (take_group end (m ∷ metas)).1 tr r))

  abbrev pub AllOf : Option (List Meta) → Type 0
  AllOf none = Unit {0}
  AllOf (some res) = All Q res

module _ (Q : Meta → Type 0) (marks : Marks) where
  abbrev pub Kept : Meta → Type 0
  Kept m = Q m × (is_excluded marks m ≡ false)

  AllOf-first_segment :
      (segment p : List Meta)
      → All Kept segment
      → All Q p
      → AllOf Kept (first_segment marks segment p)
  unfolding first_segment
  AllOf-first_segment segment [] s h =
      if_both (AllOf Kept) (ltb 1 (length segment)) (some segment) none s tt
  AllOf-first_segment segment (m ∷ p) s (q, h) = elim (Bool-cases (is_excluded marks m)) [
    | inl t ↦ rw t (
        if_both (AllOf Kept) (ltb 1 (length segment)) (some segment) (first_segment marks [] p) s
          (AllOf-first_segment [] p tt h))
    | inr t ↦ rw t (
        AllOf-first_segment (segment ++ (m ∷ [])) p
          (All-append Kept segment (m ∷ []) s ((q, t), tt)) h)
  ]

  AllOf-select_part :
      (iv high_time : ℤ) (p : List Meta) → All Q p → AllOf Kept (select_part iv high_time marks p)
  unfolding select_part
  AllOf-select_part iv high_time [] h = tt
  AllOf-select_part iv high_time (m ∷ p) h = if_both (AllOf Kept) (any_failed (m ∷ p)) none _ tt (
      if_both (AllOf Kept) (length p == 0) none _ tt (
        if_both (AllOf Kept) _ none (first_segment marks [] (m ∷ p)) tt
          (AllOf-first_segment [] (m ∷ p) tt h)))

  or_else-AllOf :
      (o rest : Option (List Meta))
      → AllOf Kept o
      → AllOf Kept rest
      → AllOf Kept (elim o [ some res ↦ some res | none ↦ rest ])
  or_else-AllOf none rest h k = k
  or_else-AllOf (some res) rest h k = h

  AllOf-select_parts :
      (iv high_time : ℤ) (parts : List (List Meta))
      → All (All Q) parts
      → AllOf Kept (select_parts iv high_time marks parts)
  unfolding select_parts
  AllOf-select_parts iv high_time [] h = tt
  AllOf-select_parts iv high_time (p ∷ parts) (q, h) =
      or_else-AllOf (select_part iv high_time marks p) (select_parts iv high_time marks parts)
        (AllOf-select_part iv high_time p q) (AllOf-select_parts iv high_time parts h)

  by_parts-AllOf :
      (iv high_time : ℤ) (o : Option (List (List Meta))) (rest : Option (List Meta))
      → AllGroups Q o
      → AllOf Kept rest
      → AllOf Kept (elim o [
        | none ↦ none
        | some parts ↦ elim (select_parts iv high_time marks parts) [
          | some res ↦ some res
          | none ↦ rest
        ]
      ])
  by_parts-AllOf iv high_time none rest g h = tt
  by_parts-AllOf iv high_time (some parts) rest g h =
      or_else-AllOf (select_parts iv high_time marks parts) rest
        (AllOf-select_parts iv high_time parts g) h

  AllOf-select_ranges :
      (ranges : List ℤ) (high_time : ℤ) (metas : List Meta)
      → All Q metas
      → AllOf Kept (select_ranges ranges high_time marks metas)
  unfolding select_ranges split_by_range
  AllOf-select_ranges [] high_time metas h = tt
  AllOf-select_ranges (iv ∷ ranges) high_time metas h =
      by_parts-AllOf iv high_time (split_from (length metas + 1) metas iv)
        (select_ranges ranges high_time marks metas)
        (All-split_from Q (length metas + 1) metas iv h)
        (AllOf-select_ranges ranges high_time metas h)

  pub AllOf-select_metas :
      (ranges : List ℤ) (metas : List Meta)
      → All Q metas
      → AllOf Kept (select_metas ranges marks metas)
  unfolding select_metas
  AllOf-select_metas [] metas h = tt
  AllOf-select_metas (iv ∷ ranges) [] h = tt
  AllOf-select_metas (iv ∷ ranges) (m ∷ metas) h =
      AllOf-select_ranges ranges (last_meta m metas).min_time (m ∷ metas) h
