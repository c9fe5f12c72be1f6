-- ===== src/Dedup/Tests.antt =====
-- Two replicas, and the series of a store.
use promlts.Labelpb.{Bytes, Label}
use promlts.Dedup.Iter.{Sample, new_dedup_series_iterator, drain}
use promlts.Dedup.Iter.Rising.{Merges, new_iterator-Merges}
use promlts.Dedup.Iter.Same.{new_iterator-same}
use promlts.Dedup.Series.{Series, new_series_set, all_series}
use promlts.Dedup.Series.Gathered.{GroupedAll}
use promlts.Dedup.Series.Groups.{ReplicasLast, own_of, new_series_set-Grouped}
use promlts.Prelude.{
  ◌==◌, length, All, ℕ, suc, ◌+◌, ◌≡◌, refl, Bool, true, false, none, some, List, [], ◌∷◌, arith,
}

abbrev first_replica : List (Sample Bool)
first_replica = (1000, true) ∷ (2000, true) ∷ (30000, true) ∷ []

abbrev second_replica : List (Sample Bool)
second_replica = (1100, false) ∷ (2100, false) ∷ (12000, false) ∷ (22000, false) ∷ []

new_iterator-Merges_example : Merges first_replica second_replica none (
    drain
      (suc (length first_replica + length second_replica))
      (new_dedup_series_iterator first_replica second_replica))
new_iterator-Merges_example = new_iterator-Merges first_replica second_replica

new_iterator-same_example :
    drain
      (suc (length first_replica + length first_replica))
      (new_dedup_series_iterator first_replica first_replica)
    ≡ some first_replica
new_iterator-same_example = new_iterator-same first_replica (tt, (omega arith, (omega arith, tt)))

-- Labels are compared by their number.
abbrev same_number : List Label → List Label → Bool
same_number a b = length a == length b

abbrev label : ℕ → Label
label n = record { name = n ∷ []; value = [] }

-- The name of the replica label is 114.
abbrev replica_name : Bytes → Bool
replica_name [] = false
replica_name (x ∷ xs) = x == 114

abbrev three_series : List (Series ℕ)
three_series =
    (label 97 ∷ label 114 ∷ [], 1)
    ∷ (label 97 ∷ label 114 ∷ [], 2)
    ∷ (label 97 ∷ label 98 ∷ label 114 ∷ [], 3)
    ∷ []

three_series-ReplicasLast : All (ReplicasLast same_number replica_name 1) three_series
three_series-ReplicasLast = (
  (label 97 ∷ [], label 114 ∷ [], refl, (refl, tt), (refl, tt), omega arith),
  (
    (label 97 ∷ [], label 114 ∷ [], refl, (refl, tt), (refl, tt), omega arith),
    (
      (label 97 ∷ label 98 ∷ [], label 114 ∷ [], refl, (refl, (refl, tt)), (refl, tt), omega arith),
      tt,
    ),
  ),
)

new_series_set-Grouped_example :
    GroupedAll same_number (own_of same_number replica_name 1) three_series (
      all_series same_number replica_name 1 4
        (new_series_set same_number replica_name 1 three_series))
new_series_set-Grouped_example =
    new_series_set-Grouped same_number replica_name 1 three_series three_series-ReplicasLast
