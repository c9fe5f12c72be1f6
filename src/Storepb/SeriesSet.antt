-- ===== src/Storepb/SeriesSet.antt =====
-- pkg/store/storepb/custom.go: `MergeSeriesSets` and the series sets that it builds.
-- Labels and `labels.Compare` are Prometheus': a type and a total order. A set that comes from
-- outside is a list of series with an error, if any, that it has once the list is used up. The
-- iterators are values, and `next` returns the iterator after the call. The recursion of
-- `MergeSeriesSets` takes fuel; `none` means that it ran out.
pub mod Chunks
pub mod View
pub mod Contents
pub mod Next
pub mod Drain
mod Tests
use Prim.Native.Nat.{lt, eq, gt, Ordering}
use promlts.Prelude.Order.{Order}
use promlts.Storepb.{AggrChunk, aggr_compare}
use promlts.Prelude.{
  if◌then◌else◌, length, take, drop, ℕ, zero, suc, ◌+◌, ◌/◌, Bool, true, false, ◌&&◌, not, Option,
  none, some, List, [], ◌∷◌, ◌++◌,
}

pub record Series (L : Type 0) : Type 0 where
  pub labels : L
  pub chunks : List AggrChunk

-- A series set from outside; `current` is what `At` returns.
pub record Source (L : Type 0) : Type 0 where
  pub rest : List (Series L)
  pub current : Series L
  pub ended : Bool
  pub failure : Option ℕ

-- `current` holds the fields `lset` and `chunks`.
pub record Unique (L : Type 0) : Type 0 where
  pub wrapped : Source L
  pub done : Bool
  pub peek : Option (Series L)
  pub current : Series L

pub data SeriesSet (L : Type 0) : Type 0 where
  empty : SeriesSet L
  unique : Unique L → SeriesSet L
  -- `a`, `b`, `lset` with `chunks`, `adone`, `bdone`
  merged : SeriesSet L → SeriesSet L → Series L → Bool → Bool → SeriesSet L

pub source_err : {L : Type 0} → Source L → Option ℕ
source_err src = if src.ended then src.failure else none

-- The chunks of one series that both sets have.
pub merge_chunks : List AggrChunk → List AggrChunk → List AggrChunk
merge_chunks [] bs = bs
merge_chunks (a ∷ as') [] = a ∷ as'
merge_chunks (a ∷ as') (b ∷ bs) = elim (aggr_compare a b) [
  | gt ↦ a ∷ merge_chunks as' (b ∷ bs)
  | lt ↦ b ∷ merge_chunks (a ∷ as') bs
  | eq ↦ merge_chunks (a ∷ as') bs
]

module _ {L : Type 0} (lo : Order L) (nil : L) where
  -- `At` before the first `Next`, and of the empty set.
  abbrev pub no_series : Series L
  no_series = record { labels = nil; chunks = [] }

  pub at : SeriesSet L → Series L
  at empty = no_series
  at (unique u) = u.current
  at (merged a b current adone bdone) = current

  pub err : SeriesSet L → Option ℕ
  err empty = none
  err (unique u) = source_err u.wrapped
  err (merged a b current adone bdone) = elim (err a) [ some e ↦ some e | none ↦ err b ]

  -- What follows the loop of `uniqueSeriesSet.Next`.
  abbrev pub flush : Unique L → Option (Series L) → Unique L × Bool
  flush u none = (u, false)
  flush u (some p) = (record u { current = p; peek = none }, true)

  abbrev pub same_labels : L → L → Bool
  same_labels a b = elim (lo.compare a b) [ eq ↦ true | _ ↦ false ]

  -- The loop, over what the wrapped set still has.
  pub gather : List (Series L) → Unique L → Option (Series L) → Unique L × Bool
  gather [] u peek =
      let src = record u.wrapped { rest = []; ended = true } in
      flush (record u { wrapped = src; done = true; peek = peek }) peek
  gather (x ∷ xs) u none = gather xs u (some x)
  gather (x ∷ xs) u (some p) =
      let more = gather xs u (some (record p { chunks = p.chunks ++ x.chunks })) in
      let src = record u.wrapped { rest = xs; current = x } in
      if same_labels x.labels p.labels
      then more
      else (record u { wrapped = src; current = p; peek = some x }, true)

  pub next_unique : Unique L → Unique L × Bool
  next_unique u = elim (source_err u.wrapped) [
    | some e ↦ (u, false)
    | none ↦ if u.done then flush u u.peek else gather u.wrapped.rest u u.peek
  ]

  abbrev pub compare_sets : SeriesSet L → SeriesSet L → Bool → Bool → Ordering
  compare_sets a b adone bdone =
      if adone then gt else if bdone then lt else lo.compare (at a).labels (at b).labels

  abbrev pub both : Series L → Series L → Series L
  both x y = record { labels = x.labels; chunks = merge_chunks x.chunks y.chunks }

  -- `Next` of the merged set, given the calls of `Next` on its parts.
  pub step_merged :
      SeriesSet L
      → SeriesSet L
      → Series L
      → Bool
      → Bool
      → SeriesSet L × Bool
      → SeriesSet L × Bool
      → SeriesSet L × Bool
  step_merged a b current adone bdone (a', amore) (b', bmore) =
      elim (compare_sets a b adone bdone) [
        | gt ↦ (merged a b' (at b) adone (not bmore), true)
        | lt ↦ (merged a' b (at a) (not amore) bdone, true)
        | eq ↦ (merged a' b' (both (at a) (at b)) (not amore) (not bmore), true)
      ]

  pub next : SeriesSet L → SeriesSet L × Bool
  next empty = (empty, false)
  next (unique u) = let (u', more) = next_unique u in (unique u', more)
  next (merged a b current adone bdone) =
      let na = next a in
      let nb = next b in
      let stay : SeriesSet L × Bool = (merged a b current adone bdone, false) in
      if adone && bdone then stay else elim (err (merged a b current adone bdone)) [
        | some e ↦ stay
        | none ↦ step_merged a b current adone bdone na nb
      ]

  pub new_unique_series_set : Source L → SeriesSet L
  new_unique_series_set src =
      unique (record { wrapped = src; done = false; peek = none; current = no_series })

  pub new_merged_series_set : SeriesSet L → SeriesSet L → SeriesSet L
  new_merged_series_set a b =
      let (a', amore) = next a in
      let (b', bmore) = next b in merged a' b' no_series (not amore) (not bmore)

  abbrev pub merge_results : Option (SeriesSet L) → Option (SeriesSet L) → Option (SeriesSet L)
  merge_results none b = none
  merge_results (some a) none = none
  merge_results (some a) (some b) = some (new_merged_series_set a b)

  pub merge_series_sets_from : ℕ → List (Source L) → Option (SeriesSet L)
  merge_series_sets_from zero all = none
  merge_series_sets_from (suc fuel) [] = some empty
  merge_series_sets_from (suc fuel) (s ∷ []) = some (new_unique_series_set s)
  merge_series_sets_from (suc fuel) (s ∷ t ∷ rest) =
      let h = length (s ∷ t ∷ rest) / 2 in
      merge_results (merge_series_sets_from fuel (take h (s ∷ t ∷ rest)))
        (merge_series_sets_from fuel (drop h (s ∷ t ∷ rest)))

  pub merge_series_sets : List (Source L) → Option (SeriesSet L)
  unfolding merge_series_sets_from
  merge_series_sets all = merge_series_sets_from (length all + 1) all
