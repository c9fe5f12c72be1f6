-- ===== src/Storepb/SeriesSet/Next.antt =====
-- pkg/store/storepb/custom.go: `Next` of the merged set, and of every set that `MergeSeriesSets`
-- builds.
use promlts.Prelude.Order.{Order, Ordering-cases}
use promlts.Sorted.Steps
use promlts.Storepb.SeriesSet.Contents.{
  labels_of, contents, NoFailure, NoFailure-err, Takes, next_unique-Takes, pending, merge_series,
  contents_merged, contents_empty, at_merged,
}
use promlts.Storepb.SeriesSet.{
  Series, SeriesSet, empty, unique, merged, at, err, next_unique, both, step_merged, next,
}
use promlts.Prelude.{
  Bool-cases, ℕ, ◌≡◌, refl, sym, ◌∙◌, inl, inr, Bool, true, false, ◌&&◌, not, none, some, List, [],
  ◌∷◌, arith,
}

module _ {L : Type 0} (lo : Order L) (nil : L) where
  pub pending-Takes :
      (l : List (Series L)) (s : SeriesSet L) (more : Bool)
      → Takes lo nil l (s, more)
      → (pending lo nil s (not more) ≡ l) × NoFailure lo nil s
  pending-Takes l s true t = (sym t.0, t.1)
  pending-Takes l s false t = (sym t.0, t.2)

  merged-Takes :
      (l : List (Series L)) (a b : SeriesSet L) (current : Series L) (adone bdone : Bool)
      → l ≡ current ∷ merge_series lo nil (pending lo nil a adone) (pending lo nil b bdone)
      → NoFailure lo nil a
      → NoFailure lo nil b
      → Takes lo nil l (merged a b current adone bdone, true)
  merged-Takes l a b current adone bdone e f g = (
    rw (contents_merged lo nil a b current adone bdone, at_merged lo nil a b current adone bdone) e,
    (f, g),
  )

  step_merged-Takes :
      (a b : SeriesSet L) (current : Series L) (adone bdone : Bool) (na nb : SeriesSet L × Bool)
      → (adone && bdone) ≡ false
      → NoFailure lo nil (merged a b current adone bdone)
      → Takes lo nil (contents lo nil a) na
      → Takes lo nil (contents lo nil b) nb
      → Takes lo nil
          (merge_series lo nil (pending lo nil a adone) (pending lo nil b bdone))
          (step_merged lo nil a b current adone bdone na nb)
  unfolding step_merged
  step_merged-Takes a b current true true na nb e h ta tb = absurd (ground arith)
  step_merged-Takes a b current true false (a', amore) (b', bmore) e h ta tb =
      let (pb, fb) = pending-Takes (contents lo nil b) b' bmore tb in
      merged-Takes _ a b' (at lo nil b) true (not bmore) (rw (pb, Steps.nil-merge, Steps.nil-merge))
        h.0 fb
  step_merged-Takes a b current false true (a', amore) (b', bmore) e h ta tb =
      let (pa, fa) = pending-Takes (contents lo nil a) a' amore ta in
      merged-Takes _ a' b (at lo nil a) (not amore) true (rw (pa, Steps.merge-nil, Steps.merge-nil))
        fa h.1
  step_merged-Takes a b current false false (a', amore) (b', bmore) e h ta tb =
      let (pa, fa) = pending-Takes (contents lo nil a) a' amore ta in
      let (pb, fb) = pending-Takes (contents lo nil b) b' bmore tb in
      let x = at lo nil a in
      let y = at lo nil b in
      let xs = contents lo nil a in
      let ys = contents lo nil b in
      elim (Ordering-cases (lo.compare x.labels y.labels)) [
        | inl c ↦
            rw (c, step_merged)
              (merged-Takes _ a' b x (not amore) false
                (rw pa (Steps.merge-lt lo (labels_of lo nil) (both lo nil) x y xs ys c)) fa h.1)
        | inr (inl c) ↦
            rw (c, step_merged)
              (merged-Takes _ a' b' (both lo nil x y) (not amore) (not bmore)
                (rw (pa, pb) (Steps.merge-eq lo (labels_of lo nil) (both lo nil) x y xs ys c)) fa
                fb)
        | inr (inr c) ↦
            rw (c, step_merged)
              (merged-Takes _ a b' y false (not bmore)
                (rw pb (Steps.merge-gt lo (labels_of lo nil) (both lo nil) x y xs ys c)) h.0 fb)
      ]

  none_pending :
      (a b : SeriesSet L) (adone bdone : Bool)
      → (adone && bdone) ≡ true
      → merge_series lo nil (pending lo nil a adone) (pending lo nil b bdone) ≡ []
  none_pending a b true true e = Steps.nil-merge lo (labels_of lo nil) (both lo nil) []
  none_pending a b true false e = cc
  none_pending a b false bdone e = cc

  next_both_done :
      (a b : SeriesSet L) (current : Series L) (adone bdone : Bool)
      → (adone && bdone) ≡ true
      → next lo nil (merged a b current adone bdone) ≡ (merged a b current adone bdone, false)
  unfolding next
  next_both_done a b current adone bdone e = rw e

  next_step :
      (a b : SeriesSet L) (current : Series L) (adone bdone : Bool)
      → (adone && bdone) ≡ false
      → err lo nil (merged a b current adone bdone) ≡ none
      → next lo nil (merged a b current adone bdone)
        ≡ step_merged lo nil a b current adone bdone (next lo nil a) (next lo nil b)
  unfolding next
  next_step a b current adone bdone e h = rw (e, h)

  -- Without a failure, a call of `Next` that says true takes the first of the series that the set
  -- has still to return, and `At` then returns it; a call that says false finds none left, and
  -- neither does a later one.
  pub next-Takes :
      (s : SeriesSet L) → NoFailure lo nil s → Takes lo nil (contents lo nil s) (next lo nil s)
  next-Takes empty h = unfold next in (contents_empty lo nil, contents_empty lo nil, tt)
  next-Takes (unique u) h = unfold next in next_unique-Takes lo nil u h
  next-Takes (merged a b current adone bdone) h = elim (Bool-cases (adone && bdone)) [
    | inl e ↦
        let gone =
          contents_merged lo nil a b current adone bdone ∙ none_pending a b adone bdone e in
        rw (next_both_done a b current adone bdone e) (gone, gone, h)
    | inr e ↦
        rw
          (
            contents_merged lo nil a b current adone bdone,
            next_step a b current adone bdone e
                (NoFailure-err lo nil (merged a b current adone bdone) h),
          )
          (step_merged-Takes a b current adone bdone (next lo nil a) (next lo nil b) e h
            (next-Takes a h.0) (next-Takes b h.1))
  ]

  -- A set that has failed returns nothing more, and stays as it is.
  pub next_failed : (s : SeriesSet L) (e : ℕ) → err lo nil s ≡ some e → next lo nil s ≡ (s, false)
  unfolding next
  next_failed empty e h = refl
  next_failed (unique u) e h = unfold err next_unique in rw (h, next_unique)
  next_failed (merged a b current adone bdone) e h = rw h (ground arith)
