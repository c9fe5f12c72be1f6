-- ===== src/Sorted/Any.antt =====
-- What some element of a merge has, some element of its two parts has.
use promlts.Prelude.Order.{Order}
use promlts.Sorted.{merge}
use promlts.Prelude.{◌≡◌, ◌↔◌, ◌⊎◌, inl, inr, List, [], ◌∷◌, arith}

abbrev pub Any : {E : Type 0} → (E → Type 0) → List E → Type 0
Any P [] = ⊥
Any P (x ∷ xs) = P x ⊎ Any P xs

module _ {K E : Type 0} (o : Order K) (key : E → K) (combine : E → E → E) (P : E → Type 0)
    (split : (x y : E) → key x ≡ key y → P (combine x y) ↔ (P x ⊎ P y)) where
  pub Any-merge : (xs ys : List E) → Any P (merge o key combine xs ys) ↔ (Any P xs ⊎ Any P ys)
  unfolding merge
  Any-merge [] ys = (λ h. inr h, λ h. elim h [ inl p ↦ absurd p | inr q ↦ q ])
  Any-merge (x ∷ xs) [] = (λ h. inl h, λ h. elim h [ inl p ↦ p | inr q ↦ absurd q ])
  Any-merge (x ∷ xs) (y ∷ ys) = ground (
    arith,
    o.eq_of (key x) (key y),
    split x y,
    Any-merge xs (y ∷ ys),
    Any-merge xs ys,
    Any-merge (x ∷ xs) ys,
  )
