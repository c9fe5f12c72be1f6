-- ===== src/Storepb/SeriesSet/Drain.antt =====
-- pkg/store/storepb/custom.go: all that the set of `MergeSeriesSets` returns, against its sources.
use mathlib.Core.Path.{subst, ap₂}
use promlts.Prelude.Order.{Order}
use promlts.Sorted.Any.{Any-merge}
use promlts.Sorted.Lookup.{merge-IsSorted}
use promlts.Storepb.{AggrChunk}
use promlts.Storepb.SeriesSet.View.{HasChunk, AnyHasChunk, LabelsAscend, LabelsSorted}
use promlts.Storepb.SeriesSet.Chunks.{Contains-merge_chunks}
use promlts.Storepb.SeriesSet.Contents.{
  contents, NoFailure, Takes, merge_series, contents_merged, contents_empty, contents_unique,
}
use promlts.Storepb.SeriesSet.Contents.Group.{HasChunk-group, group-LabelsSorted}
use promlts.Storepb.SeriesSet.Next.{pending-Takes, next-Takes}
use promlts.Storepb.SeriesSet.{
  Series, Source, SeriesSet, empty, no_series, at, both, next, new_unique_series_set,
  new_merged_series_set, merge_series_sets_from, merge_series_sets,
}
use promlts.Prelude.{
  if◌then◌else◌, length, All, All-split, take, drop, take-append-drop, length-take, length-drop,
  Contains, ℕ, zero, suc, ◌+◌, ◌/◌, ◌<◌, ◌≡◌, refl, sym, ◌∙◌, ◌↔◌, ◌⊎◌, inl, inr, Bool, true, false,
  not, Option, none, some, List, [], ◌∷◌, ◌++◌, arith,
}

module _ {L : Type 0} (lo : Order L) (nil : L) where
  abbrev cons_some : Series L → Option (List (Series L)) → Option (List (Series L))
  cons_some x none = none
  cons_some x (some l) = some (x ∷ l)

  -- `for set.Next() { … set.At() … }`, for at most so many rounds; `none` means that there are more.
  pub drain : ℕ → SeriesSet L → Option (List (Series L))
  drain zero s = none
  drain (suc rounds) s =
      let (s', more) = next lo nil s in
      let rest = cons_some (at lo nil s') (drain rounds s') in if more then rest else some []

  HasChunk-merge :
      (l : L) (c : AggrChunk) (xs ys : List (Series L))
      → HasChunk lo l c (merge_series lo nil xs ys) ↔ (HasChunk lo l c xs ⊎ HasChunk lo l c ys)
  HasChunk-merge l c xs ys =
      Any-merge lo (λ s. s.labels) (both lo nil) (λ s. (l ≡ s.labels) × Contains c s.chunks)
        (λ x y e. ground (arith, Contains-merge_chunks c x.chunks y.chunks)) xs ys

  AnyHasChunk-append :
      (l : L) (c : AggrChunk) (a b : List (Source L))
      → AnyHasChunk lo l c (a ++ b) ↔ (AnyHasChunk lo l c a ⊎ AnyHasChunk lo l c b)
  AnyHasChunk-append l c [] b = (λ h. inr h, λ h. elim h [ inl p ↦ absurd p | inr q ↦ q ])
  AnyHasChunk-append l c (s ∷ a) b = ground (arith, AnyHasChunk-append l c a b)

  -- What is asked of a set from outside: it has not been read yet, and it does not fail.
  abbrev pub IsFresh : Source L → Type 0
  IsFresh src = (src.ended ≡ false) × (src.failure ≡ none)

  -- The set still has what the merge of the sources is.
  record Holds (sources : List (Source L)) (s : SeriesSet L) : Type 0 where
    ready : NoFailure lo nil s
    sorted : All (λ src. LabelsAscend lo src.rest) sources → LabelsSorted lo (contents lo nil s)
    chunks :
        (l : L) (c : AggrChunk) → HasChunk lo l c (contents lo nil s) ↔ AnyHasChunk lo l c sources

  Holds-empty : Holds [] empty
  Holds-empty = record {
    ready = tt;
    sorted = λ h. rw (contents_empty lo nil) tt;
    chunks = λ l c. rw (contents_empty lo nil) (λ h. h, λ h. h);
  }

  Holds-one : (src : Source L) → IsFresh src → Holds (src ∷ []) (new_unique_series_set lo nil src)
  Holds-one src h = record {
    ready = unfold new_unique_series_set in h.1;
    sorted = λ asc. rw (contents_unique lo nil src) (group-LabelsSorted lo nil src.rest asc.0);
    chunks =
        λ l c. rw (contents_unique lo nil src) (ground (arith, HasChunk-group lo nil l c src.rest));
  }

  new_merged_lem :
      (a b : SeriesSet L)
      → NoFailure lo nil a
      → NoFailure lo nil b
      → NoFailure lo nil (new_merged_series_set lo nil a b)
        × (contents lo nil (new_merged_series_set lo nil a b)
            ≡ merge_series lo nil (contents lo nil a) (contents lo nil b))
  unfolding new_merged_series_set
  new_merged_lem a b h g =
      let na = next lo nil a in
      let nb = next lo nil b in
      let (pa, fa) = pending-Takes lo nil (contents lo nil a) na.0 na.1 (next-Takes lo nil a h) in
      let (pb, fb) = pending-Takes lo nil (contents lo nil b) nb.0 nb.1 (next-Takes lo nil b g) in
      (
        (fa, fb),
        contents_merged lo nil na.0 nb.0 (no_series lo nil) (not na.1) (not nb.1)
            ∙ ap₂ (merge_series lo nil) pa pb,
      )

  Holds-two :
      (as' bs : List (Source L)) (a b : SeriesSet L)
      → Holds as' a
      → Holds bs b
      → Holds (as' ++ bs) (new_merged_series_set lo nil a b)
  Holds-two as' bs a b h g =
      let (ready, e) = new_merged_lem a b h.ready g.ready in
      record {
        ready = ready;
        sorted = λ asc.
            let (asc_a, asc_b) = All-split (λ src. LabelsAscend lo src.rest) as' bs asc in
            rw e (
              merge-IsSorted lo (λ s. s.labels) (both lo nil) (λ x y p. refl) _ _ (h.sorted asc_a)
                (g.sorted asc_b));
        chunks = λ l c. rw e (
            ground (
              arith,
              HasChunk-merge l c (contents lo nil a) (contents lo nil b),
              AnyHasChunk-append l c as' bs,
              h.chunks l c,
              g.chunks l c,
            ));
      }

  merge_from-Holds :
      (fuel : ℕ) (all : List (Source L))
      → length all < fuel
      → All IsFresh all
      → (s : SeriesSet L) × (merge_series_sets_from lo nil fuel all ≡ some s) × Holds all s
  unfolding merge_series_sets_from
  merge_from-Holds zero all h fresh = absurd (omega arith)
  merge_from-Holds (suc fuel) [] h fresh = (empty, refl, Holds-empty)
  merge_from-Holds (suc fuel) (src ∷ []) h fresh =
      (new_unique_series_set lo nil src, refl, Holds-one src fresh.0)
  merge_from-Holds (suc fuel) (x ∷ y ∷ rest) h fresh =
      let all : List (Source L) = x ∷ y ∷ rest in
      let m : ℕ = length all / 2 in
      let (low, high) =
        All-split IsFresh (take m all) (drop m all)
          (subst (λ l. All IsFresh l) (sym (take-append-drop m all)) fresh) in
      let (a, e, ha) = merge_from-Holds fuel (take m all) (omega (arith, length-take m all)) low in
      let (b, f, hb) = merge_from-Holds fuel (drop m all) (omega (arith, length-drop m all)) high in
      let whole = Holds-two (take m all) (drop m all) a b ha hb in
      (
        new_merged_series_set lo nil a b,
        rw (e, f),
        subst (λ l. Holds l (new_merged_series_set lo nil a b)) (take-append-drop m all) whole,
      )

  drain_empty :
      (rounds : ℕ) (s : SeriesSet L) (r : SeriesSet L × Bool)
      → next lo nil s ≡ r
      → Takes lo nil [] r
      → drain (suc rounds) s ≡ some []
  unfolding drain
  drain_empty rounds s (s', true) e t = absurd (ground (arith, t.0))
  drain_empty rounds s (s', false) e t = rw (e, drain)

  drain_cons :
      (rounds : ℕ) (s : SeriesSet L) (r : SeriesSet L × Bool) (x : Series L) (l : List (Series L))
      → next lo nil s ≡ r
      → Takes lo nil (x ∷ l) r
      → ((s' : SeriesSet L)
          → NoFailure lo nil s'
          → contents lo nil s' ≡ l
          → drain rounds s' ≡ some l)
      → drain (suc rounds) s ≡ some (x ∷ l)
  unfolding drain
  drain_cons rounds s (s', true) x l e t ih =
      let rest : contents lo nil s' ≡ l = ground (arith, t.0) in
      let first : at lo nil s' ≡ x = ground (arith, t.0) in
      rw (e, drain) (rw (ih s' t.1 rest, first))
  drain_cons rounds s (s', false) x l e t ih = absurd (ground (arith, t.0))

  -- The loop ends after as many rounds as the set still has series, and returns those.
  drain-contents :
      (l : List (Series L)) (s : SeriesSet L)
      → NoFailure lo nil s
      → contents lo nil s ≡ l
      → drain (suc (length l)) s ≡ some l
  drain-contents [] s h e =
      drain_empty 0 s (next lo nil s) refl
        (subst (λ l. Takes lo nil l (next lo nil s)) e (next-Takes lo nil s h))
  drain-contents (x ∷ l) s h e =
      drain_cons (suc (length l)) s (next lo nil s) x l refl
        (subst (λ l. Takes lo nil l (next lo nil s)) e (next-Takes lo nil s h))
        (λ s' h' e'. drain-contents l s' h' e')

  -- For any number of series sets that do not fail, `MergeSeriesSets` returns a set, and the loop
  -- over it ends. What it returns has a chunk under some labels exactly if one of the sets has it
  -- under these labels; and if every set ascends by its labels, with series that may come in parts,
  -- then each label set comes once, in strict order.
  pub merge_series_sets-drain :
      (all : List (Source L))
      → All IsFresh all
      → (s : SeriesSet L) × (rounds : ℕ) × (l : List (Series L)) × (merge_series_sets lo nil all
          ≡ some s)
        × (drain rounds s ≡ some l)
        × (All (λ src. LabelsAscend lo src.rest) all → LabelsSorted lo l)
        × ((k : L) (c : AggrChunk) → HasChunk lo k c l ↔ AnyHasChunk lo k c all)
  unfolding merge_series_sets
  merge_series_sets-drain all fresh =
      let (s, e, h) = merge_from-Holds (length all + 1) all (omega arith) fresh in
      let l = contents lo nil s in
      (s, suc (length l), l, e, drain-contents l s h.ready refl, h.sorted, h.chunks)
