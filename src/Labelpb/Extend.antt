-- ===== src/Labelpb/Extend.antt =====
-- pkg/store/labelpb/label.go: `ExtendSortedLabels` and `ZLabel.Compare`.
use promlts.Prelude.Order.{Ordering-cases, keys_order, IsTotal, IsTotal-of_eq}
use promlts.Labelpb.{Bytes, string_order, Label, label_compare, extend_sorted_labels}
use promlts.Sorted.{IsSorted, lookup, merge, union}
use promlts.Sorted.Steps.{nil-merge, merge-nil, merge-lt, merge-eq, merge-gt}
use promlts.Sorted.Lookup.{merge-IsSorted, lookup-merge}
use promlts.Prelude.{◌≡◌, refl, sym, ap, ◌∙◌, inl, inr, Option, none, some, List, [], ◌∷◌, arith}

abbrev pub IsSortedByName : List Label → Type 0
IsSortedByName = IsSorted string_order (λ l. l.name)

abbrev pub label_at : Bytes → List Label → Option Label
label_at = lookup string_order (λ l. l.name)

-- The external label wins.
abbrev pub or_else : Option Label → Option Label → Option Label
or_else (some x) l = some x
or_else none l = l

abbrev second : Label → Label → Label
second l x = x

extend-merge :
    (lset extend : List Label)
    → extend_sorted_labels lset extend ≡ merge string_order (λ l. l.name) second lset extend
unfolding extend_sorted_labels
extend-merge [] extend = sym (nil-merge string_order (λ l. l.name) second extend)
extend-merge (l ∷ lset) [] = sym (merge-nil string_order (λ l. l.name) second (l ∷ lset))
extend-merge (l ∷ lset) (x ∷ extend) = elim (Ordering-cases (string_order.compare l.name x.name)) [
  | inl e ↦
      rw (e, extend_sorted_labels)
        (rw (merge-lt string_order (λ l. l.name) second l x lset extend e)
          (ap (λ r. l ∷ r) (extend-merge lset (x ∷ extend))))
  | inr (inl e) ↦
      rw (e, extend_sorted_labels)
        (rw (merge-eq string_order (λ l. l.name) second l x lset extend e)
          (ap (λ r. x ∷ r) (extend-merge lset extend)))
  | inr (inr e) ↦
      rw (e, extend_sorted_labels)
        (rw (merge-gt string_order (λ l. l.name) second l x lset extend e)
          (ap (λ r. x ∷ r) (extend-merge (l ∷ lset) extend)))
]

union-second : (a b : Option Label) → union string_order (λ l. l.name) second a b ≡ or_else b a
union-second none none = refl
union-second none (some x) = refl
union-second (some l) none = refl
union-second (some l) (some x) = refl

-- For label sets that are sorted by name with each name once, `ExtendSortedLabels` gives such a
-- label set; under every name it has the label of `extend`, if that has one, and else that of
-- `lset`.
pub extend-IsSortedByName :
    (lset extend : List Label)
    → IsSortedByName lset
    → IsSortedByName extend
    → IsSortedByName (extend_sorted_labels lset extend)
      × ((name : Bytes)
          → label_at name (extend_sorted_labels lset extend)
            ≡ or_else (label_at name extend) (label_at name lset))
extend-IsSortedByName lset extend h g = rw (extend-merge lset extend) (
  merge-IsSorted string_order (λ l. l.name) second (λ l x e. sym e) lset extend h g,
  λ name.
      lookup-merge string_order (λ l. l.name) second (λ l x e. sym e) name lset extend h g
      ∙ union-second (label_at name lset) (label_at name extend),
)

label_apart : (a b : Label) → a.name ≡ b.name → a.value ≡ b.value → a ≡ b
label_apart a b e f = cc

label_compare-order :
    (a b : Label)
    → label_compare a b
      ≡ (keys_order string_order string_order (λ l. l.name) (λ l. l.value) label_apart).compare a b
unfolding label_compare
label_compare-order a b = ground arith

-- `ZLabel.Compare` is a total order: 0 exactly for equal labels, opposite signs for opposite
-- arguments, and both signs carry over along a chain.
pub label_compare-IsTotal : IsTotal label_compare
label_compare-IsTotal =
    IsTotal-of_eq (keys_order string_order string_order (λ l. l.name) (λ l. l.value) label_apart)
      label_compare label_compare-order
