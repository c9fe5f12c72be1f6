-- ===== src/Compact/Planner/Overlap.antt =====
-- pkg/compact/planner.go: `selectOverlappingMetas`.
use promlts.Prelude.Int.{ℤ, ltb_ℤ}
use promlts.Compact.Planner.{Meta, overlapping_from, select_overlapping_metas}
use promlts.Prelude.{
  if◌then◌else◌, Bool-cases, ◌≡◌, refl, sym, ◌∙◌, ◌↔◌, inl, inr, Bool, true, false, List, [], ◌∷◌,
  ◌++◌, arith,
}

-- No block starts before the latest end of the blocks before it, which is `maxt` at first.
abbrev pub NoOverlap : ℤ → List Meta → Type 0
NoOverlap maxt [] = Unit {0}
NoOverlap maxt (m ∷ metas) =
    (ltb_ℤ m.min_time maxt ≡ false)
    × NoOverlap (if ltb_ℤ maxt m.max_time then m.max_time else maxt) metas

found-overlapping :
    (prev : Meta) (maxt : ℤ) (x : Meta) (found metas : List Meta)
    → overlapping_from prev maxt (x ∷ found) metas ≡ []
    → ⊥
unfolding overlapping_from
found-overlapping prev maxt x found [] e = ground arith
found-overlapping prev maxt x found (m ∷ metas) e = ground (
  arith,
  found-overlapping m (if ltb_ℤ maxt m.max_time then m.max_time else maxt) x (found ++ (m ∷ []))
      metas,
)

both : {b : Bool} → b ≡ true → b ≡ false → ⊥
both p q = ground arith

first_overlap :
    (prev m : Meta) (maxt : ℤ) (metas : List Meta)
    → ltb_ℤ m.min_time maxt ≡ true
    → overlapping_from prev maxt [] (m ∷ metas)
      ≡ overlapping_from m
          (if ltb_ℤ maxt m.max_time then m.max_time else maxt)
          (prev ∷ m ∷ [])
          metas
unfolding overlapping_from
first_overlap prev m maxt metas t = rw t refl

overlapping-NoOverlap :
    (prev : Meta) (maxt : ℤ) (metas : List Meta)
    → (overlapping_from prev maxt [] metas ≡ []) ↔ NoOverlap maxt metas
unfolding overlapping_from
overlapping-NoOverlap prev maxt [] = (λ e. tt, λ h. refl)
overlapping-NoOverlap prev maxt (m ∷ metas) = elim (Bool-cases (ltb_ℤ m.min_time maxt)) [
  | inl t ↦ (
    λ e. absurd (
        found-overlapping m (if ltb_ℤ maxt m.max_time then m.max_time else maxt) prev (m ∷ []) metas
          (sym (first_overlap prev m maxt metas t) ∙ e)),
    λ h. absurd (both t h.0),
  )
  | inr t ↦
      (let ih =
          overlapping-NoOverlap m (if ltb_ℤ maxt m.max_time then m.max_time else maxt) metas in
        rw t (λ e. (refl, ih.0 e), λ h. ih.1 h.1))
]

-- `selectOverlappingMetas` finds nothing exactly if no block starts before the latest end of the
-- blocks before it.
pub select-NoOverlap :
    (m : Meta) (metas : List Meta)
    → (select_overlapping_metas (m ∷ metas) ≡ []) ↔ NoOverlap m.max_time metas
unfolding select_overlapping_metas
select-NoOverlap m metas = overlapping-NoOverlap m m.max_time metas
