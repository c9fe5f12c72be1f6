-- ===== src/Storepb/SeriesSet/Contents/Group.antt =====
-- pkg/store/storepb/custom.go: `uniqueSeriesSet` joins the parts of a series and loses no chunk.
use mathlib.Core.Path.{subst}
use Prim.Native.Nat.{lt, eq, gt}
use promlts.Prelude.Order.{Order, Ordering-cases}
use promlts.Storepb.{AggrChunk}
use promlts.Storepb.SeriesSet.{Series, same_labels}
use promlts.Storepb.SeriesSet.View.{HasChunk, LabelsAscend, LabelsSorted}
use promlts.Storepb.SeriesSet.Contents.{group}
use promlts.Prelude.{
  Bool-cases, All, Contains, ◌≡◌, ◌≢◌, ◌↔◌, ◌⊎◌, inl, inr, false, none, some, List, [], ◌∷◌, ◌++◌,
  arith,
}

module _ {L : Type 0} (lo : Order L) (nil : L) where
  Contains-append :
      (c : AggrChunk) (as' bs : List AggrChunk)
      → Contains c (as' ++ bs) ↔ (Contains c as' ⊎ Contains c bs)
  Contains-append c [] bs = (λ h. inr h, λ h. elim h [ inl p ↦ absurd p | inr q ↦ q ])
  Contains-append c (a ∷ as') bs = ground (arith, Contains-append c as' bs)

  HasChunk-group-some :
      (l : L) (c : AggrChunk) (p : Series L) (xs : List (Series L))
      → HasChunk lo l c (group lo nil (some p) xs) ↔ HasChunk lo l c (p ∷ xs)
  unfolding group
  HasChunk-group-some l c p [] = (λ h. h, λ h. h)
  HasChunk-group-some l c p (x ∷ xs) = ground (
    arith,
    lo.eq_of x.labels p.labels,
    Contains-append c p.chunks x.chunks,
    HasChunk-group-some l c (record p { chunks = p.chunks ++ x.chunks }) xs,
    HasChunk-group-some l c x xs,
  )

  pub HasChunk-group :
      (l : L) (c : AggrChunk) (xs : List (Series L))
      → HasChunk lo l c (group lo nil none xs) ↔ HasChunk lo l c xs
  unfolding group
  HasChunk-group l c [] = (λ h. h, λ h. h)
  HasChunk-group l c (x ∷ xs) = HasChunk-group-some l c x xs

  All-group :
      (P : L → Type 0) (p : Series L) (xs : List (Series L))
      → P p.labels
      → All (λ s. P s.labels) xs
      → All (λ s. P s.labels) (group lo nil (some p) xs)
  unfolding group
  All-group P p [] h g = (h, tt)
  All-group P p (x ∷ xs) h g = elim (Bool-cases (same_labels lo nil x.labels p.labels)) [
    | inl t ↦ rw t (All-group P (record p { chunks = p.chunks ++ x.chunks }) xs h g.1)
    | inr t ↦ rw t (h, All-group P x xs g.0 g.1)
  ]

  -- What is not before `x`, which comes after `p`, comes after `p`.
  after : (p x y : L) → lo.compare p x ≡ lt → lo.compare x y ≢ gt → lo.compare p y ≡ lt
  after p x y h g = elim (Ordering-cases (lo.compare x y)) [
    | inl e ↦ lo.trans p x y h e
    | inr (inl e) ↦ subst (λ y. lo.compare p y ≡ lt) (lo.eq_of x y e) h
    | inr (inr e) ↦ absurd (g e)
  ]

  All-after :
      (p x : L) (xs : List (Series L))
      → lo.compare p x ≡ lt
      → All (λ t. lo.compare x t.labels ≢ gt) xs
      → All (λ t. lo.compare p t.labels ≡ lt) xs
  All-after p x [] h g = tt
  All-after p x (y ∷ xs) h g = (after p x y.labels h g.0, All-after p x xs h g.1)

  differ : (p x : L) → lo.compare p x ≢ gt → same_labels lo nil x p ≡ false → lo.compare p x ≡ lt
  differ p x h t = elim (Ordering-cases (lo.compare p x)) [
    | inl e ↦ e
    | inr (inl e) ↦
        let q : lo.compare x p ≡ eq =
          subst (λ y. lo.compare y p ≡ eq) (lo.eq_of p x e) (lo.same p) in
        absurd (ground arith)
    | inr (inr e) ↦ absurd (h e)
  ]

  group-some-LabelsSorted :
      (p : Series L) (xs : List (Series L))
      → LabelsAscend lo (p ∷ xs)
      → LabelsSorted lo (group lo nil (some p) xs)
  unfolding group
  group-some-LabelsSorted p [] h = (tt, tt)
  group-some-LabelsSorted p (x ∷ xs) h = elim (Bool-cases (same_labels lo nil x.labels p.labels)) [
    | inl t ↦
        rw t
          (group-some-LabelsSorted (record p { chunks = p.chunks ++ x.chunks }) xs (h.0.1, h.1.1))
    | inr t ↦
        let first = differ p.labels x.labels h.0.0 t in
        rw t (
          All-group (λ l. lo.compare p.labels l ≡ lt) x xs first
              (All-after p.labels x.labels xs first h.1.0),
          group-some-LabelsSorted x xs h.1,
        )
  ]

  pub group-LabelsSorted :
      (xs : List (Series L)) → LabelsAscend lo xs → LabelsSorted lo (group lo nil none xs)
  unfolding group
  group-LabelsSorted [] h = tt
  group-LabelsSorted (x ∷ xs) h = group-some-LabelsSorted x xs h
