-- ===== src/Queryfrontend/Tiles.antt =====
-- pkg/queryfrontend/split_by_interval.go: the parts of a query without a step.
use mathlib.Core.Option
use promlts.Queryfrontend.{other_request, Span, split_other, split_query}
use promlts.Prelude.{
  ltb, Bool-cases, ℕ, zero, suc, ◌+◌, ◌-◌, ◌≤◌, ◌<◌, ◌≡◌, refl, inl, inr, false, Option, none, some,
  List, [], ◌∷◌, arith,
}

-- The parts follow each other from the start to the end, none is empty, and none is longer than the
-- interval.
abbrev pub Tiles : ℕ → ℕ → ℕ → List Span → Type 0
Tiles start end interval [] = end ≤ start
Tiles start end interval ((s, e) ∷ ss) =
    (s ≡ start) × (s < e) × (e ≤ s + interval) × (e ≤ end) × Tiles e end interval ss

abbrev pub HasTiles : ℕ → ℕ → ℕ → Option (List Span) → Type 0
HasTiles start end interval none = ⊥
HasTiles start end interval (some ss) = Tiles start end interval ss

tile :
    (start e end interval : ℕ) (o : Option (List Span))
    → start < e
    → e ≤ start + interval
    → e ≤ end
    → HasTiles e end interval o
    → HasTiles start end interval (Option.map (λ ss. (start, e) ∷ ss) o)
tile start e end interval none p q r h = h
tile start e end interval (some ss) p q r h = (refl, p, q, r, h)

-- After the last part the start is beyond the end.
past :
    (start end next interval : ℕ) (o : Option (List Span))
    → end ≤ next
    → o ≡ some []
    → HasTiles end end interval o
past start end next interval none p q = absurd (ground arith)
past start end next interval (some []) p q = omega arith
past start end next interval (some (s ∷ ss)) p q = absurd (ground arith)

split_other-done :
    (fuel start end interval : ℕ)
    → 0 < fuel
    → end ≤ start
    → split_other fuel start end interval ≡ some []
unfolding split_other
split_other-done zero start end interval p h = absurd (omega arith)
split_other-done (suc fuel) start end interval p h =
    let x : ltb start end ≡ false = ground arith in rw x refl

split_other-HasTiles :
    (fuel start end interval : ℕ)
    → 0 < interval
    → end < start + fuel
    → 0 < fuel
    → HasTiles start end interval (split_other fuel start end interval)
unfolding split_other
split_other-HasTiles zero start end interval p h f = absurd (omega arith)
split_other-HasTiles (suc fuel) start end interval p h f = elim (Bool-cases (ltb start end)) [
  | inr x ↦ rw (split_other, x) (ground arith)
  | inl x ↦ elim (Bool-cases (ltb end (start + interval))) [
    | inl y ↦
        let d =
          split_other-done fuel (start + interval) end interval (ground arith) (ground arith) in
        rw (split_other, x, y)
          (tile start end end interval _ (ground arith) (ground arith) (omega arith)
            (past start end (start + interval) interval _ (ground arith) d))
    | inr y ↦
        rw (split_other, x, y)
          (tile start (start + interval) end interval _ (omega arith) (omega arith) (ground arith) (
            split_other-HasTiles fuel (start + interval) end interval p (omega arith)
              (ground arith)))
  ]
]

-- The split ends, with fuel for the length of the query, and the parts of a query of labels or series
-- follow each other from its start to its end, none of them empty or longer than the interval.
pub split_query-HasTiles :
    (start end interval : ℕ)
    → 0 < interval
    → HasTiles start end interval
        (split_query (suc (end - start)) (other_request start end) interval)
unfolding split_query
split_query-HasTiles start end interval p =
    split_other-HasTiles (suc (end - start)) start end interval p (omega arith) (omega arith)
