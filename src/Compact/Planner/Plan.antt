-- ===== src/Compact/Planner/Plan.antt =====
-- pkg/compact/planner.go: the blocks of a plan.
use mathlib.Core.Path.{subst}
use mathlib.Core.List.{reverse, reverse_aux}
use promlts.Compact.Planner.{
  Meta, Marks, is_excluded, not_excluded, select_overlapping_metas, last_meta, select_metas,
  init_metas, tombstones_from, plan_usual, plan,
}
use promlts.Compact.Planner.Parts.{
  All-not_excluded, All-select_overlapping, AllOf, Kept, AllOf-select_metas,
}
use promlts.Prelude.Int.{ℤ, ◌-ℤ◌, ltb_ℤ}
use promlts.Prelude.{
  if_both, length, get_elem?, All, Contains, ℕ, ◌+◌, ◌/◌, ◌≡◌, refl, inl, inr, Bool, false, Option,
  none, some, List, [], ◌∷◌,
}

All-init : (Q : Meta → Type 0) (metas : List Meta) → All Q metas → All Q (init_metas metas)
All-init Q [] h = tt
All-init Q (m ∷ []) h = tt
All-init Q (m ∷ n ∷ metas) (q, h) = (q, All-init Q (n ∷ metas) h)

All-reverse_aux :
    (Q : Meta → Type 0) (xs ys : List Meta) → All Q xs → All Q ys → All Q (reverse_aux xs ys)
All-reverse_aux Q [] ys h k = k
All-reverse_aux Q (x ∷ xs) ys (q, h) k = All-reverse_aux Q xs (x ∷ ys) h (q, k)

All-reverse : (Q : Meta → Type 0) (metas : List Meta) → All Q metas → All Q (reverse metas)
All-reverse Q metas h = All-reverse_aux Q metas [] h tt

module _ (many_tombstones : ℕ → ℕ → Bool) (Q : Meta → Type 0) where
  All-tombstones :
      (range : ℤ) (metas : List Meta)
      → All Q metas
      → All Q (tombstones_from many_tombstones range metas)
  unfolding tombstones_from
  All-tombstones range [] h = tt
  All-tombstones range (m ∷ metas) (q, h) =
      if_both (All Q) (ltb_ℤ (m.max_time -ℤ m.min_time) range) [] _ tt (
        if_both (All Q) (many_tombstones m.num_tombstones (m.num_series + 1)) (m ∷ [])
          (tombstones_from many_tombstones range metas) (q, tt) (All-tombstones range metas h))

  tombstones-AllOf :
      (o : Option ℤ) (metas : List Meta)
      → All Q metas
      → AllOf Q
          (elim o [ none ↦ none | some range ↦ some (tombstones_from many_tombstones range metas) ])
  tombstones-AllOf none metas h = tt
  tombstones-AllOf (some range) metas h = All-tombstones range metas h

  usual-AllOf :
      (ranges : List ℤ) (selected : Option (List Meta)) (backwards : List Meta)
      → AllOf Q selected
      → All Q backwards
      → AllOf Q (elim selected [
        | none ↦ none
        | some (x ∷ res) ↦ some (x ∷ res)
        | some [] ↦ elim backwards [
          | [] ↦ some []
          | y ∷ ys ↦ elim (get_elem? ranges (length ranges / 2)) [
            | none ↦ none
            | some range ↦ some (tombstones_from many_tombstones range (y ∷ ys))
          ]
        ]
      ])
  usual-AllOf ranges none backwards s h = tt
  usual-AllOf ranges (some (x ∷ res)) backwards s h = s
  usual-AllOf ranges (some []) [] s h = tt
  usual-AllOf ranges (some []) (y ∷ ys) s h =
      tombstones-AllOf (get_elem? ranges (length ranges / 2)) (y ∷ ys) h

module _ (many_tombstones : ℕ → ℕ → Bool) (Q : Meta → Type 0) (marks : Marks) where
  AllOf-plan_usual :
      (ranges : List ℤ) (m : Meta) (metas kept : List Meta)
      → All Q (m ∷ metas)
      → All (Kept Q marks) kept
      → AllOf (Kept Q marks) (plan_usual many_tombstones ranges marks m metas kept)
  unfolding plan_usual
  AllOf-plan_usual ranges m metas kept h k =
      usual-AllOf many_tombstones (Kept Q marks) ranges
        (select_metas ranges marks (init_metas (m ∷ metas))) _
        (AllOf-select_metas Q marks ranges (init_metas (m ∷ metas)) (All-init Q (m ∷ metas) h))
        (All-reverse (Kept Q marks) _ (
          if_both (All (Kept Q marks)) (is_excluded marks (last_meta m metas)) kept
            (init_metas kept) k (All-init (Kept Q marks) kept k)))

  overlap-AllOf :
      (found : List Meta) (rest : Option (List Meta))
      → All (Kept Q marks) found
      → AllOf (Kept Q marks) rest
      → AllOf (Kept Q marks) (elim found [ x ∷ res ↦ some (x ∷ res) | [] ↦ rest ])
  overlap-AllOf [] rest f h = h
  overlap-AllOf (x ∷ res) rest f h = f

  pub AllOf-plan :
      (ranges : List ℤ) (metas : List Meta)
      → All Q metas
      → AllOf (Kept Q marks) (plan many_tombstones ranges marks metas)
  unfolding plan
  AllOf-plan ranges [] h = tt
  AllOf-plan ranges (m ∷ metas) h =
      overlap-AllOf (select_overlapping_metas (not_excluded marks (m ∷ metas)))
        (plan_usual many_tombstones ranges marks m metas (not_excluded marks (m ∷ metas)))
        (All-select_overlapping (Kept Q marks) (not_excluded marks (m ∷ metas))
          (All-not_excluded Q marks (m ∷ metas) h))
        (AllOf-plan_usual ranges m metas (not_excluded marks (m ∷ metas)) h
          (All-not_excluded Q marks (m ∷ metas) h))

All-of : {P : Meta → Type 0} (xs : List Meta) → ((m : Meta) → Contains m xs → P m) → All P xs
All-of [] f = tt
All-of (x ∷ xs) f = (f x (inl refl), All-of xs (λ m h. f m (inr h)))

-- Every block of a plan is one of the given blocks, and is not marked to be left alone, whether the
-- plan is of overlapping blocks, of a range, or of a block with many tombstones.
pub plan-Contains :
    (many_tombstones : ℕ → ℕ → Bool) (ranges : List ℤ) (marks : Marks) (metas res : List Meta)
    → plan many_tombstones ranges marks metas ≡ some res
    → All (λ m. Contains m metas × (is_excluded marks m ≡ false)) res
plan-Contains many_tombstones ranges marks metas res e =
    subst (AllOf (Kept (λ m. Contains m metas) marks)) e (
      AllOf-plan many_tombstones (λ m. Contains m metas) marks ranges metas
        (All-of metas (λ m h. h)))
