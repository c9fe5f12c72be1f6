-- ===== src/Storepb/SeriesSet/View.antt =====
-- pkg/store/storepb/custom.go: what a client sees of a list of series.
use Prim.Native.Nat.{gt}
use promlts.Prelude.Order.{Order}
use promlts.Sorted.{IsSorted}
use promlts.Sorted.Any.{Any}
use promlts.Storepb.{AggrChunk}
use promlts.Storepb.SeriesSet.{Series, Source}
use promlts.Prelude.{All, Contains, ◌≡◌, ◌≢◌, List, [], ◌∷◌}

module _ {L : Type 0} (lo : Order L) where
  -- Some series of the list has the labels and the chunk.
  abbrev pub HasChunk : L → AggrChunk → List (Series L) → Type 0
  HasChunk l c = Any (λ s. (l ≡ s.labels) × Contains c s.chunks)

  abbrev pub AnyHasChunk : L → AggrChunk → List (Source L) → Type 0
  AnyHasChunk l c = Any (λ src. HasChunk l c src.rest)

  -- A source in the order of labels, in which a series may come in parts.
  abbrev pub LabelsAscend : List (Series L) → Type 0
  LabelsAscend [] = Unit {0}
  LabelsAscend (s ∷ ss) = All (λ t. lo.compare s.labels t.labels ≢ gt) ss × LabelsAscend ss

  -- Every label set once, in strict order.
  abbrev pub LabelsSorted : List (Series L) → Type 0
  LabelsSorted = IsSorted lo (λ s. s.labels)
