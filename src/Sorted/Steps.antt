-- ===== src/Sorted/Steps.antt =====
-- The equations of the merge, for proofs that keep it shut.
use Prim.Native.Nat.{lt, eq, gt}
use promlts.Prelude.Order.{Order}
use promlts.Sorted.{merge}
use promlts.Prelude.{◌≡◌, refl, List, [], ◌∷◌}

module _ {K E : Type 0} (o : Order K) (key : E → K) (combine : E → E → E) where
  pub nil-merge : (ys : List E) → merge o key combine [] ys ≡ ys
  unfolding merge
  nil-merge ys = refl

  pub merge-nil : (xs : List E) → merge o key combine xs [] ≡ xs
  unfolding merge
  merge-nil [] = refl
  merge-nil (x ∷ xs) = refl

  module _ (x y : E) (xs ys : List E) where
    pub merge-lt :
        o.compare (key x) (key y) ≡ lt
        → merge o key combine (x ∷ xs) (y ∷ ys) ≡ x ∷ merge o key combine xs (y ∷ ys)
    unfolding merge
    merge-lt e = rw (e, merge)

    pub merge-eq :
        o.compare (key x) (key y) ≡ eq
        → merge o key combine (x ∷ xs) (y ∷ ys) ≡ combine x y ∷ merge o key combine xs ys
    unfolding merge
    merge-eq e = rw (e, merge)

    pub merge-gt :
        o.compare (key x) (key y) ≡ gt
        → merge o key combine (x ∷ xs) (y ∷ ys) ≡ y ∷ merge o key combine (x ∷ xs) ys
    unfolding merge
    merge-gt e = rw (e, merge)
