-- ===== src/Storepb/SeriesSet/Contents.antt =====
-- pkg/store/storepb/custom.go: what a series set has still to return, as a list, and that `Next`
-- takes the head of that list.
pub mod Group
use promlts.Prelude.Order.{Order}
use promlts.Sorted
use promlts.Storepb.SeriesSet.{
  Series, Source, Unique, SeriesSet, empty, unique, merged, source_err, at, err, flush, same_labels,
  gather, next_unique, both, new_unique_series_set,
}
use promlts.Prelude.{
  if◌then◌else◌, Bool-cases, ◌≡◌, refl, inl, inr, Bool, true, false, Option, none, some, List, [],
  ◌∷◌, ◌++◌, arith,
}

module _ {L : Type 0} (lo : Order L) (nil : L) where
  abbrev pub labels_of : Series L → L
  labels_of s = s.labels

  -- Series in a row with the same labels are one series.
  pub group : Option (Series L) → List (Series L) → List (Series L)
  group none [] = []
  group (some p) [] = p ∷ []
  group none (x ∷ xs) = group (some x) xs
  group (some p) (x ∷ xs) =
      if same_labels lo nil x.labels p.labels
      then group (some (record p { chunks = p.chunks ++ x.chunks })) xs
      else p ∷ group (some x) xs

  abbrev pub left : Option (Series L) → List (Series L)
  left none = []
  left (some p) = p ∷ []

  -- The series that the calls of `Next` to come will return.
  pub contents : SeriesSet L → List (Series L)
  contents empty = []
  contents (unique u) = if u.done then left u.peek else group u.peek u.wrapped.rest
  contents (merged a b current adone bdone) =
      let xs = contents a in
      let ys = contents b in
      Sorted.merge lo labels_of (both lo nil) (if adone then [] else at lo nil a ∷ xs)
        (if bdone then [] else at lo nil b ∷ ys)

  -- No set from outside fails.
  abbrev pub NoFailure : SeriesSet L → Type 0
  NoFailure empty = Unit {0}
  NoFailure (unique u) = u.wrapped.failure ≡ none
  NoFailure (merged a b current adone bdone) = NoFailure a × NoFailure b

  pub NoFailure-err : (s : SeriesSet L) → NoFailure s → err lo nil s ≡ none
  unfolding err source_err
  NoFailure-err empty h = refl
  NoFailure-err (unique u) h = ground arith
  NoFailure-err (merged a b current adone bdone) h =
      ground (arith, NoFailure-err a h.0, NoFailure-err b h.1)

  -- What a call of `Next` that returned `r` did with the list `l`.
  abbrev pub Takes : List (Series L) → SeriesSet L × Bool → Type 0
  Takes l (s, true) = (l ≡ at lo nil s ∷ contents s) × NoFailure s
  Takes l (s, false) = (l ≡ []) × (contents s ≡ []) × NoFailure s

  abbrev pub wrap : Unique L × Bool → SeriesSet L × Bool
  wrap (u, more) = (unique u, more)

  flush-Takes :
      (u : Unique L) (p : Option (Series L))
      → u.done ≡ true
      → u.peek ≡ p
      → u.wrapped.failure ≡ none
      → Takes (left p) (wrap (flush lo nil u p))
  unfolding contents at
  flush-Takes u none d e h = (refl, rw (d, e), h)
  flush-Takes u (some p) d e h = (rw d, h)

  gather-Takes :
      (l : List (Series L)) (u : Unique L) (p : Option (Series L))
      → u.done ≡ false
      → u.wrapped.failure ≡ none
      → Takes (group p l) (wrap (gather lo nil l u p))
  unfolding gather group contents at
  gather-Takes [] u none d h = (refl, refl, h)
  gather-Takes [] u (some p) d h = (refl, h)
  gather-Takes (x ∷ xs) u none d h = gather-Takes xs u (some x) d h
  gather-Takes (x ∷ xs) u (some p) d h = elim (Bool-cases (same_labels lo nil x.labels p.labels)) [
    | inl t ↦ rw t (gather-Takes xs u (some (record p { chunks = p.chunks ++ x.chunks })) d h)
    | inr t ↦ rw t (rw d, h)
  ]

  next_unique_done :
      (u : Unique L)
      → u.wrapped.failure ≡ none
      → u.done ≡ true
      → next_unique lo nil u ≡ flush lo nil u u.peek
  unfolding next_unique source_err
  next_unique_done u h d = ground arith

  next_unique_more :
      (u : Unique L)
      → u.wrapped.failure ≡ none
      → u.done ≡ false
      → next_unique lo nil u ≡ gather lo nil u.wrapped.rest u u.peek
  unfolding next_unique source_err
  next_unique_more u h d = ground arith

  contents_done : (u : Unique L) → u.done ≡ true → contents (unique u) ≡ left u.peek
  unfolding contents
  contents_done u d = rw d

  contents_more :
      (u : Unique L) → u.done ≡ false → contents (unique u) ≡ group u.peek u.wrapped.rest
  unfolding contents
  contents_more u d = rw d

  pub next_unique-Takes :
      (u : Unique L)
      → u.wrapped.failure ≡ none
      → Takes (contents (unique u)) (wrap (next_unique lo nil u))
  next_unique-Takes u h = elim (Bool-cases u.done) [
    | inl d ↦ rw (contents_done u d, next_unique_done u h d) (flush-Takes u u.peek d refl h)
    | inr d ↦
        rw (contents_more u d, next_unique_more u h d) (gather-Takes u.wrapped.rest u u.peek d h)
  ]

  -- What a merged set still has of one of its parts.
  abbrev pub pending : SeriesSet L → Bool → List (Series L)
  pending s done = if done then [] else at lo nil s ∷ contents s

  abbrev pub merge_series : List (Series L) → List (Series L) → List (Series L)
  merge_series = Sorted.merge lo labels_of (both lo nil)

  pub contents_merged :
      (a b : SeriesSet L) (current : Series L) (adone bdone : Bool)
      → contents (merged a b current adone bdone) ≡ merge_series (pending a adone) (pending b bdone)
  unfolding contents
  contents_merged a b current adone bdone = refl

  pub contents_empty : contents empty ≡ []
  unfolding contents
  contents_empty = refl

  pub contents_unique :
      (src : Source L) → contents (new_unique_series_set lo nil src) ≡ group none src.rest
  unfolding contents new_unique_series_set
  contents_unique src = refl

  pub at_merged :
      (a b : SeriesSet L) (current : Series L) (adone bdone : Bool)
      → at lo nil (merged a b current adone bdone) ≡ current
  unfolding at
  at_merged a b current adone bdone = refl
