-- ===== src/Strutil/Merge.antt =====
-- pkg/strutil/merge.go: the merge holds exactly the strings of the inputs, in ascending order.
use mathlib.Core.Path.{subst}
use Prim.Native.Nat.{lt, gt}
use promlts.Prelude.Order.{Ordering-cases}
use promlts.Strutil.{
  Bytes, string_order, merge_two_string_slices, merge_slices_from, merge_slices, insert_string,
  sort_strings, strings_are_sorted, sort_each, merge_unsorted_slices,
}
use promlts.Prelude.{
  Bool-cases, length, All, All-split, take, drop, take-append-drop, length-take, length-drop,
  Contains, ℕ, zero, suc, ◌+◌, ◌/◌, ◌<◌, ◌≡◌, refl, ◌≢◌, ◌↔◌, ◌⊎◌, inl, inr, true, some, List, [],
  ◌∷◌, ◌++◌, arith,
}

-- Not above; equal strings may follow one another.
abbrev pub AtMost : Bytes → Bytes → Type 0
AtMost x y = string_order.compare x y ≢ gt

abbrev pub IsAscending : List Bytes → Type 0
IsAscending [] = Unit {0}
IsAscending (x ∷ xs) = All (AtMost x) xs × IsAscending xs

abbrev pub ContainsAny : Bytes → List (List Bytes) → Type 0
ContainsAny k [] = ⊥
ContainsAny k (a ∷ rest) = Contains k a ⊎ ContainsAny k rest

AtMost-trans : (x y z : Bytes) → AtMost x y → AtMost y z → AtMost x z
AtMost-trans x y z h k = grind (
  arith,
  string_order.trans x y z,
  string_order.eq_of x y,
  string_order.eq_of y z,
  Ordering-cases (string_order.compare x y),
  Ordering-cases (string_order.compare y z),
)

AtMost-of_lt : (x y : Bytes) → string_order.compare x y ≡ lt → AtMost x y
AtMost-of_lt x y e g = cc

All-AtMost : (x y : Bytes) (l : List Bytes) → AtMost x y → All (AtMost y) l → All (AtMost x) l
All-AtMost x y [] h g = tt
All-AtMost x y (z ∷ l) h g = (AtMost-trans x y z h g.0, All-AtMost x y l h g.1)

All-merge_two :
    (P : Bytes → Type 0) (a b : List Bytes)
    → All P a
    → All P b
    → All P (merge_two_string_slices a b)
unfolding merge_two_string_slices
All-merge_two P [] b h g = g
All-merge_two P (x ∷ a) [] h g = h
All-merge_two P (x ∷ a) (y ∷ b) h g = elim (Ordering-cases (string_order.compare x y)) [
  | inl e ↦ rw (e, merge_two_string_slices) (h.0, All-merge_two P a (y ∷ b) h.1 g)
  | inr (inl e) ↦ rw (e, merge_two_string_slices) (h.0, All-merge_two P a b h.1 g.1)
  | inr (inr e) ↦ rw (e, merge_two_string_slices) (g.0, All-merge_two P (x ∷ a) b h g.1)
]

merge_two-IsAscending :
    (a b : List Bytes) → IsAscending a → IsAscending b → IsAscending (merge_two_string_slices a b)
unfolding merge_two_string_slices
merge_two-IsAscending [] b h g = g
merge_two-IsAscending (x ∷ a) [] h g = h
merge_two-IsAscending (x ∷ a) (y ∷ b) h g = elim (Ordering-cases (string_order.compare x y)) [
  | inl e ↦
      let le = AtMost-of_lt x y e in
      rw (e, merge_two_string_slices)
        (
          All-merge_two (AtMost x) a (y ∷ b) h.0 (le, All-AtMost x y b le g.0),
          merge_two-IsAscending a (y ∷ b) h.1 g,
        )
  | inr (inl e) ↦
      let le : AtMost x y = λ p. cc in
      rw (e, merge_two_string_slices)
        (
          All-merge_two (AtMost x) a b h.0 (All-AtMost x y b le g.0),
          merge_two-IsAscending a b h.1 g.1,
        )
  | inr (inr e) ↦
      let le = AtMost-of_lt y x (string_order.flip_gt x y e) in
      rw (e, merge_two_string_slices)
        (
          All-merge_two (AtMost y) (x ∷ a) b (le, All-AtMost y x a le h.0) g.0,
          merge_two-IsAscending (x ∷ a) b h g.1,
        )
]

Contains-merge_two :
    (k : Bytes) (a b : List Bytes)
    → Contains k (merge_two_string_slices a b) ↔ (Contains k a ⊎ Contains k b)
unfolding merge_two_string_slices
Contains-merge_two k [] b = (λ h. inr h, λ h. elim h [ inl p ↦ absurd p | inr q ↦ q ])
Contains-merge_two k (x ∷ a) [] = (λ h. inl h, λ h. elim h [ inl p ↦ p | inr q ↦ absurd q ])
Contains-merge_two k (x ∷ a) (y ∷ b) = ground (
  arith,
  string_order.eq_of x y,
  Contains-merge_two k a (y ∷ b),
  Contains-merge_two k a b,
  Contains-merge_two k (x ∷ a) b,
)

ContainsAny-append :
    (k : Bytes) (a b : List (List Bytes))
    → ContainsAny k (a ++ b) ↔ (ContainsAny k a ⊎ ContainsAny k b)
ContainsAny-append k [] b = (λ h. inr h, λ h. elim h [ inl p ↦ absurd p | inr q ↦ q ])
ContainsAny-append k (s ∷ a) b = ground (arith, ContainsAny-append k a b)

-- What a merge of the slices `a` is.
abbrev pub IsMergeOf : List (List Bytes) → List Bytes → Type 0
IsMergeOf a r = (All IsAscending a → IsAscending r) × ((k : Bytes) → Contains k r ↔ ContainsAny k a)

IsMergeOf-one : (a : List Bytes) → IsMergeOf (a ∷ []) a
IsMergeOf-one a = (λ h. h.0, λ k. (λ h. inl h, λ h. elim h [ inl p ↦ p | inr q ↦ absurd q ]))

IsMergeOf-two :
    (a b : List (List Bytes)) (r s : List Bytes)
    → IsMergeOf a r
    → IsMergeOf b s
    → IsMergeOf (a ++ b) (merge_two_string_slices r s)
IsMergeOf-two a b r s h g = (
  λ asc.
      let (asc_a, asc_b) = All-split IsAscending a b asc in
      merge_two-IsAscending r s (h.0 asc_a) (g.0 asc_b),
  λ k. ground (arith, Contains-merge_two k r s, ContainsAny-append k a b, h.1 k, g.1 k),
)

merge_slices_from-IsMergeOf :
    (fuel : ℕ) (a : List (List Bytes))
    → length a < fuel
    → (r : List Bytes) × (merge_slices_from fuel a ≡ some r) × IsMergeOf a r
unfolding merge_slices_from
merge_slices_from-IsMergeOf zero a h = absurd (omega arith)
merge_slices_from-IsMergeOf (suc fuel) [] h =
    ([], refl, (λ h. tt, λ k. (λ h. absurd h, λ h. absurd h)))
merge_slices_from-IsMergeOf (suc fuel) (a ∷ []) h = (a, refl, IsMergeOf-one a)
merge_slices_from-IsMergeOf (suc fuel) (a ∷ b ∷ rest) h =
    let all : List (List Bytes) = a ∷ b ∷ rest in
    let l : ℕ = length all / 2 in
    let (r, e, low) =
      merge_slices_from-IsMergeOf fuel (take l all) (omega (arith, length-take l all)) in
    let (s, g, high) =
      merge_slices_from-IsMergeOf fuel (drop l all) (omega (arith, length-drop l all)) in
    (
      merge_two_string_slices r s,
      rw (e, g),
      subst (λ x. IsMergeOf x (merge_two_string_slices r s)) (take-append-drop l all)
          (IsMergeOf-two (take l all) (drop l all) r s low high),
    )

-- `MergeSlices` returns; if every input slice is in ascending order, so is the result, and it
-- holds exactly the strings that some input slice holds.
pub merge_slices-IsMergeOf :
    (a : List (List Bytes)) → (r : List Bytes) × (merge_slices a ≡ some r) × IsMergeOf a r
unfolding merge_slices
merge_slices-IsMergeOf a = merge_slices_from-IsMergeOf (length a + 1) a (omega arith)

All-insert :
    (P : Bytes → Type 0) (x : Bytes) (ys : List Bytes) → P x → All P ys → All P (insert_string x ys)
unfolding insert_string
All-insert P x [] h g = (h, tt)
All-insert P x (y ∷ ys) h g = elim (Ordering-cases (string_order.compare x y)) [
  | inl e ↦ rw (e, insert_string) (h, g)
  | inr (inl e) ↦ rw (e, insert_string) (h, g)
  | inr (inr e) ↦ rw (e, insert_string) (g.0, All-insert P x ys h g.1)
]

insert-IsAscending :
    (x : Bytes) (ys : List Bytes) → IsAscending ys → IsAscending (insert_string x ys)
unfolding insert_string
insert-IsAscending x [] h = (tt, tt)
insert-IsAscending x (y ∷ ys) h = elim (Ordering-cases (string_order.compare x y)) [
  | inl e ↦ let le = AtMost-of_lt x y e in rw (e, insert_string) ((le, All-AtMost x y ys le h.0), h)
  | inr (inl e) ↦
      let le : AtMost x y = λ p. cc in rw (e, insert_string) ((le, All-AtMost x y ys le h.0), h)
  | inr (inr e) ↦
      let le = AtMost-of_lt y x (string_order.flip_gt x y e) in
      rw (e, insert_string) (All-insert (AtMost y) x ys le h.0, insert-IsAscending x ys h.1)
]

Contains-insert :
    (k x : Bytes) (ys : List Bytes) → Contains k (insert_string x ys) ↔ ((k ≡ x) ⊎ Contains k ys)
unfolding insert_string
Contains-insert k x [] = (λ h. h, λ h. h)
Contains-insert k x (y ∷ ys) = ground (arith, Contains-insert k x ys)

sort-IsAscending : (xs : List Bytes) → IsAscending (sort_strings xs)
unfolding sort_strings
sort-IsAscending [] = tt
sort-IsAscending (x ∷ xs) = insert-IsAscending x (sort_strings xs) (sort-IsAscending xs)

Contains-sort : (k : Bytes) (xs : List Bytes) → Contains k (sort_strings xs) ↔ Contains k xs
unfolding sort_strings
Contains-sort k [] = (λ h. h, λ h. h)
Contains-sort k (x ∷ xs) = ground (arith, Contains-insert k x (sort_strings xs), Contains-sort k xs)

-- The test reads neighbours only.
sorted-IsAscending : (xs : List Bytes) → strings_are_sorted xs ≡ true → IsAscending xs
unfolding strings_are_sorted
sorted-IsAscending [] h = tt
sorted-IsAscending (x ∷ []) h = (tt, tt)
sorted-IsAscending (x ∷ y ∷ ys) h =
    let rest : IsAscending (y ∷ ys) = sorted-IsAscending (y ∷ ys) (ground arith) in
    let le : AtMost x y = λ p. ground (arith, string_order.flip_gt x y p) in
    ((le, All-AtMost x y ys le rest.0), rest)

sort_each-IsAscending : (a : List (List Bytes)) → All IsAscending (sort_each a)
unfolding sort_each
sort_each-IsAscending [] = tt
sort_each-IsAscending (s ∷ rest) = elim (Bool-cases (strings_are_sorted s)) [
  | inl t ↦ rw t (sorted-IsAscending s t, sort_each-IsAscending rest)
  | inr t ↦ rw t (sort-IsAscending s, sort_each-IsAscending rest)
]

ContainsAny-sort_each :
    (k : Bytes) (a : List (List Bytes)) → ContainsAny k (sort_each a) ↔ ContainsAny k a
unfolding sort_each
ContainsAny-sort_each k [] = (λ h. h, λ h. h)
ContainsAny-sort_each k (s ∷ rest) = elim (Bool-cases (strings_are_sorted s)) [
  | inl t ↦ rw t (ground (arith, ContainsAny-sort_each k rest))
  | inr t ↦ rw t (ground (arith, Contains-sort k s, ContainsAny-sort_each k rest))
]

-- `MergeUnsortedSlices` returns, for slices in any order, an ascending slice that holds exactly
-- the strings that some input slice holds.
pub merge_unsorted-IsMergeOf :
    (a : List (List Bytes))
    → (r : List Bytes) × (merge_unsorted_slices a ≡ some r)
      × IsAscending r
      × ((k : Bytes) → Contains k r ↔ ContainsAny k a)
unfolding merge_unsorted_slices
merge_unsorted-IsMergeOf a =
    let (r, e, h) = merge_slices-IsMergeOf (sort_each a) in
    (r, e, h.0 (sort_each-IsAscending a), λ k. ground (arith, h.1 k, ContainsAny-sort_each k a))
