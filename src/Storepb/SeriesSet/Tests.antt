-- ===== src/Storepb/SeriesSet/Tests.antt =====
-- pkg/store/storepb/custom.go: runs, and the theorems at concrete inputs. Label sets are numbers.
use Prim.Native.Nat.{lt, gt}
use promlts.Prelude.Order.{nat_order}
use promlts.Prelude.Int.{pos}
use promlts.Storepb.{AggrChunk, aggr_compare}
use promlts.Storepb.SeriesSet.{
  Series, Source, SeriesSet, unique, merged, merge_chunks, new_unique_series_set, merge_series_sets,
}
use promlts.Storepb.SeriesSet.Chunks.{Contains-merge_chunks}
use promlts.Storepb.SeriesSet.View.{HasChunk, AnyHasChunk, LabelsAscend, LabelsSorted}
use promlts.Storepb.SeriesSet.Drain.{drain, merge_series_sets-drain}
use promlts.Prelude.{
  All, Contains, ℕ, ◌≡◌, refl, ◌↔◌, ◌⊎◌, true, false, Option, none, some, List, [], ◌∷◌,
}

abbrev raw_chunk : ℕ → ℕ → ℕ → AggrChunk
raw_chunk from to byte = record {
  min_time = pos from;
  max_time = pos to;
  raw = some (record { encoding = 0; payload = byte ∷ [] });
  count = none;
  sum = none;
  min = none;
  max = none;
  counter = none;
}

abbrev c1 : AggrChunk
c1 = raw_chunk 0 10 7

abbrev c2 : AggrChunk
c2 = raw_chunk 10 20 7

abbrev c3 : AggrChunk
c3 = raw_chunk 10 20 8

-- An earlier chunk is "greater"; for equal times the bytes decide the other way round.
compare_runs : (aggr_compare c1 c2 ≡ gt) × (aggr_compare c2 c3 ≡ lt)
unfolding aggr_compare
compare_runs = (refl, refl)

merge_runs : merge_chunks (c1 ∷ c3 ∷ []) (c1 ∷ c2 ∷ []) ≡ c1 ∷ c3 ∷ c2 ∷ []
unfolding merge_chunks aggr_compare
merge_runs = refl

Contains-merge_chunks_example :
    Contains c2 (merge_chunks (c1 ∷ []) (c2 ∷ [])) ↔ (Contains c2 (c1 ∷ []) ⊎ Contains c2 (c2 ∷ []))
Contains-merge_chunks_example = Contains-merge_chunks c2 (c1 ∷ []) (c2 ∷ [])

abbrev one_series : ℕ → AggrChunk → Series ℕ
one_series l c = record { labels = l; chunks = c ∷ [] }

abbrev source : List (Series ℕ) → Option ℕ → Source ℕ
source l failure = record {
  rest = l;
  current = record { labels = 0; chunks = [] };
  ended = false;
  failure = failure;
}

abbrev sources : List (Source ℕ)
sources =
    source (one_series 1 c1 ∷ one_series 1 c2 ∷ one_series 3 c1 ∷ []) none
    ∷ source (one_series 1 c1 ∷ one_series 2 c1 ∷ []) none
    ∷ source (one_series 2 c2 ∷ []) none
    ∷ []

merge_series_sets-drain_example :
    (s : SeriesSet ℕ) × (rounds : ℕ) × (l : List (Series ℕ)) × (merge_series_sets nat_order 0
        sources
      ≡ some s)
    × (drain nat_order 0 rounds s ≡ some l)
    × (All (λ src. LabelsAscend nat_order src.rest) sources → LabelsSorted nat_order l)
    × ((k : ℕ) (c : AggrChunk) → HasChunk nat_order k c l ↔ AnyHasChunk nat_order k c sources)
merge_series_sets-drain_example =
    merge_series_sets-drain nat_order 0 sources ((refl, refl), ((refl, refl), ((refl, refl), tt)))

abbrev two_sets : SeriesSet ℕ
two_sets =
    merged (new_unique_series_set nat_order 0 (source [] none))
      (new_unique_series_set nat_order 0 (source (one_series 2 c2 ∷ []) none)) (one_series 1 c1)
      true false

abbrev failed : SeriesSet ℕ
failed = unique (record {
  wrapped = record (source [] (some 5)) { ended = true };
  done = true;
  peek = some (one_series 1 c1);
  current = one_series 1 c1;
})
