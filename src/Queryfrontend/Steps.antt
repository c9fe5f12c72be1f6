-- ===== src/Queryfrontend/Steps.antt =====
-- pkg/queryfrontend/split_by_interval.go: the parts of a range query have its steps.
use mathlib.Core.List.{append-nil}
use native.Mathlib.Nat.{
  add-mul-div_right, div-eq_of_lt, div-mul-le_self, lt-div-mul-add, mod-eq-sub-div-mul,
}
use mathlib.Core.Option
use promlts.Queryfrontend.{range_request, Span, next_interval_boundary, split_range, split_query}
use promlts.Prelude.{
  ltb, leb, ◌==◌, if◌then◌else◌, ==_iff, Bool-cases, ℕ, zero, suc, ◌+◌, ◌-◌, ◌*◌, ◌/◌, ◌%◌, ◌≤◌,
  ◌<◌, ◌≡◌, refl, sym, ap, ◌∙◌, inl, inr, true, false, Option, none, some, List, [], ◌∷◌, ◌++◌,
  arith,
}

-- So many times, a step apart.
abbrev pub points : ℕ → ℕ → ℕ → List ℕ
points start step zero = []
points start step (suc n) = start ∷ points (start + step) step n

-- How many steps a query has.
abbrev pub steps_in : ℕ → ℕ → ℕ → ℕ
steps_in start end step = if leb start end then (end - start) / step + 1 else 0

-- The times at which a query from `start` to `end` is evaluated.
abbrev pub evaluated : ℕ → Span → List ℕ
evaluated step (start, end) = points start step (steps_in start end step)

abbrev pub evaluated_all : ℕ → List Span → List ℕ
evaluated_all step [] = []
evaluated_all step (s ∷ ss) = evaluated step s ++ evaluated_all step ss

points-add :
    (start step a b : ℕ)
    → points start step (a + b) ≡ points start step a ++ points (start + a * step) step b
points-add start step zero b =
    let e : start ≡ start + 0 * step = omega arith in
    let z : 0 + b ≡ b = omega arith in ap (points start step) z ∙ ap (λ s. points s step b) e
points-add start step (suc a) b =
    let e : start + step + a * step ≡ start + suc a * step = omega arith in
    let z : suc a + b ≡ suc (a + b) = omega arith in
    ap (points start step) z
    ∙ ap (◌∷◌ start) (
        points-add (start + step) step a b
        ∙ ap (λ s. points (start + step) step a ++ points s step b) e)

back_one :
    (t step next k : ℕ) → t < next → next - t ≡ k * step → (j : ℕ) × (next - step ≡ t + j * step)
back_one t step next zero h e = absurd (omega arith)
back_one t step next (suc k) h e = (k, omega arith)

-- How the boundary lies: some steps on, and before the end of the interval.
pub boundary-steps :
    (t step interval : ℕ)
    → 0 < step
    → 0 < interval
    → (k : ℕ) × (next_interval_boundary t step interval ≡ t + k * step)
unfolding next_interval_boundary
boundary-steps t step interval p q =
    let next = (t / interval + 1) * interval in
    let high : t < t / interval * interval + interval = lt-div-mul-add q in
    let after : t < next = omega (arith, high) in
    let d = next - t in
    let k = d / step in
    let down : k * step ≤ d = div-mul-le_self d step in
    let rest : d % step ≡ d - k * step = mod-eq-sub-div-mul d step in
    let target : next - d % step ≡ t + k * step = omega (arith, after, down, rest) in
    let same : next ≡ next - d % step → next - t ≡ k * step =
      λ x. omega (arith, after, down, rest, x) in
    elim (Bool-cases ((next - d % step) == next)) [
      | inr x ↦ (k, rw (next_interval_boundary, x) target)
      | inl x ↦
          let e : next - d % step ≡ next = (==_iff _ _).0 x in
          let (j, l) = back_one t step next k after (same (sym e)) in
          (j, rw (next_interval_boundary, x) (ap (λ z. z - step) e ∙ l))
    ]

-- The result of a split: it has the steps of the query.
abbrev pub HasSteps : ℕ → Span → Option (List Span) → Type 0
HasSteps step s none = ⊥
HasSteps step s (some ss) = evaluated_all step ss ≡ evaluated step s

evaluated-multiple : (start step k : ℕ) → 0 < step → steps_in start (start + k * step) step ≡ k + 1
evaluated-multiple start step k p =
    let e : start + k * step - start ≡ 0 + k * step = omega arith in
    let z : 0 / step ≡ 0 = div-eq_of_lt p in
    let d : (start + k * step - start) / step ≡ 0 / step + k =
      ap (λ n. n / step) e ∙ add-mul-div_right 0 k p in
    let l : leb start (start + k * step) ≡ true = ground arith in rw l (omega (arith, d, z))

steps_in-later :
    (start step k end : ℕ)
    → 0 < step
    → start + k * step + step ≤ end
    → steps_in start end step ≡ k + 1 + steps_in (start + k * step + step) end step
steps_in-later start step k end p h =
    let later = start + k * step + step in
    let e : end - start ≡ end - later + (k + 1) * step = omega arith in
    let d : (end - start) / step ≡ (end - later) / step + (k + 1) =
      ap (λ n. n / step) e ∙ add-mul-div_right (end - later) (k + 1) p in
    let l : leb later end ≡ true = ground arith in
    let m : leb start end ≡ true = ground arith in rw (l, m) (omega (arith, d))

evaluated-join :
    (start step k end : ℕ)
    → 0 < step
    → start + k * step + step ≤ end
    → evaluated step (start, start + k * step) ++ evaluated step (start + k * step + step, end)
      ≡ evaluated step (start, end)
evaluated-join start step k end p h =
    let later = start + k * step + step in
    let e : start + (k + 1) * step ≡ later = omega arith in
    sym (
      ap (points start step) (steps_in-later start step k end p h)
      ∙ points-add start step (k + 1) (steps_in later end step)
      ∙ ap (λ s. points start step (k + 1) ++ points s step (steps_in later end step)) e
      ∙ ap (λ n. points start step n ++ evaluated step (later, end))
          (sym (evaluated-multiple start step k p)))

joined :
    (step : ℕ) (s t u : Span) (o : Option (List Span))
    → evaluated step s ++ evaluated step t ≡ evaluated step u
    → HasSteps step t o
    → HasSteps step u (Option.map (λ ss. s ∷ ss) o)
joined step s t u none e h = h
joined step s t u (some ss) e h = ap (λ l. evaluated step s ++ l) h ∙ e

split_range-done :
    (fuel start end step interval : ℕ)
    → 0 < fuel
    → end ≤ start
    → split_range fuel start end step interval ≡ some []
unfolding split_range
split_range-done zero start end step interval p h = absurd (omega arith)
split_range-done (suc fuel) start end step interval p h =
    let x : ltb start end ≡ false = ground arith in rw x refl

split_range-HasSteps :
    (fuel start end step interval : ℕ)
    → 0 < step
    → 0 < interval
    → start < end
    → end < start + fuel
    → HasSteps step (start, end) (split_range fuel start end step interval)
unfolding split_range
split_range-HasSteps zero start end step interval p q h f = absurd (omega arith)
split_range-HasSteps (suc fuel) start end step interval p q h f =
    let (k, e) = boundary-steps start step interval p q in
    let x : ltb start end ≡ true = ground arith in
    elim (Bool-cases (leb end (start + k * step + step))) [
      | inl y ↦
          let d =
            split_range-done fuel (start + k * step + step) end step interval (omega arith)
              (ground arith) in
          rw (split_range, x, e, y, d) (append-nil (evaluated step (start, end)))
      | inr y ↦
          rw (split_range, x, e, y)
            (joined step (start, start + k * step) (start + k * step + step, end) (start, end) _
              (evaluated-join start step k end p (ground arith))
              (split_range-HasSteps fuel (start + k * step + step) end step interval p q
                (ground arith) (omega arith)))
    ]

-- The split ends, with fuel for the length of the query, and the parts of a range query are
-- evaluated at the same times, in the same order, as the query: no step is lost and none is
-- evaluated twice.
pub split_query-HasSteps :
    (start end step interval : ℕ)
    → 0 < step
    → 0 < interval
    → HasSteps step
        (start, end)
        (split_query (suc (end - start)) (range_request start end step) interval)
unfolding split_query
split_query-HasSteps start end step interval p q = elim (Bool-cases (start == end)) [
  | inl x ↦
      let e : start ≡ end = (==_iff start end).0 x in
      rw (split_query, x)
        (append-nil (evaluated step (start, start)) ∙ ap (λ z. evaluated step (start, z)) e)
  | inr x ↦ elim (Bool-cases (ltb start end)) [
    | inl y ↦
        rw (split_query, x)
          (split_range-HasSteps (suc (end - start)) start end step interval p q (ground arith)
            (omega arith))
    | inr y ↦
        let d =
          split_range-done (suc (end - start)) start end step interval (omega arith)
            (ground arith) in
        let l : leb start end ≡ false = ground arith in rw (split_query, x, d, l) refl
  ]
]
