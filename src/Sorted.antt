-- ===== src/Sorted.antt =====
-- Sorted lists as finite maps, and the merge of two of them: what the sorted merges of the program
-- (strings, labels, series, chunks) have in common.
pub mod Any
pub mod Lookup
pub mod Steps
use Prim.Native.Nat.{lt, eq, gt}
use promlts.Prelude.Order.{Order}
use promlts.Prelude.{All, ◌≡◌, Option, none, some, List, [], ◌∷◌}

module _ {K E : Type 0} (o : Order K) (key : E → K) where
  abbrev pub Before : K → E → Type 0
  Before k e = o.compare k (key e) ≡ lt

  -- Strictly ascending keys.
  abbrev pub IsSorted : List E → Type 0
  IsSorted [] = Unit {0}
  IsSorted (x ∷ xs) = All (Before (key x)) xs × IsSorted xs

  pub lookup : K → List E → Option E
  lookup k [] = none
  lookup k (x ∷ xs) = elim (o.compare k (key x)) [ eq ↦ some x | _ ↦ lookup k xs ]

  module _ (combine : E → E → E) where
    pub merge : List E → List E → List E
    merge [] ys = ys
    merge (x ∷ xs) [] = x ∷ xs
    merge (x ∷ xs) (y ∷ ys) = elim (o.compare (key x) (key y)) [
      | lt ↦ x ∷ merge xs (y ∷ ys)
      | eq ↦ combine x y ∷ merge xs ys
      | gt ↦ y ∷ merge (x ∷ xs) ys
    ]

    abbrev pub union : Option E → Option E → Option E
    union none b = b
    union (some x) none = some x
    union (some x) (some y) = some (combine x y)
