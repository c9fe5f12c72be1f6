-- ===== src/Labelpb/Tests.antt =====
-- Examples for Labelpb.
use promlts.Labelpb.{Bytes, Label, extend_sorted_labels, XxHash, sep, hash_with_prefix}
use promlts.Labelpb.Extend.{IsSortedByName, label_at, or_else, extend-IsSortedByName}
use promlts.Labelpb.Hash.{HashesWrites, label_bytes, hash_with_prefix_lem}
use promlts.Prelude.{ℕ, ◌+◌, ◌≡◌, refl, List, [], ◌∷◌, ◌++◌}

abbrev label : ℕ → ℕ → Label
label n v = record { name = n ∷ []; value = v ∷ [] }

abbrev series_labels : List Label
series_labels = label 1 10 ∷ label 3 30 ∷ []

abbrev external_labels : List Label
external_labels = label 2 20 ∷ label 3 31 ∷ []

extended :
    extend_sorted_labels series_labels external_labels ≡ label 1 10 ∷ label 2 20 ∷ label 3 31 ∷ []
unfolding extend_sorted_labels
extended = refl

extend-IsSortedByName_example :
    IsSortedByName (extend_sorted_labels series_labels external_labels)
    × ((name : Bytes)
        → label_at name (extend_sorted_labels series_labels external_labels)
          ≡ or_else (label_at name external_labels) (label_at name series_labels))
extend-IsSortedByName_example =
    extend-IsSortedByName series_labels external_labels ((refl, tt), (tt, tt))
      ((refl, tt), (tt, tt))

abbrev sum_bytes : Bytes → ℕ
sum_bytes [] = 0
sum_bytes (x ∷ b) = x + sum_bytes b

-- A hash that adds up the bytes, for the examples.
abbrev add_up : XxHash
add_up = record {
  sum64 = sum_bytes;
  Digest = Bytes;
  new = [];
  write = λ h b. h ++ b;
  sum = sum_bytes;
}

add_up-HashesWrites : HashesWrites add_up (λ h. h)
add_up-HashesWrites = record { nothing = refl; more = λ h b. refl; summed = λ h. refl }

hash_with_prefix_lem_example :
    hash_with_prefix add_up (λ n. n) (5 ∷ []) series_labels
    ≡ sum_bytes ((5 ∷ []) ++ (sep ++ label_bytes series_labels))
hash_with_prefix_lem_example =
    hash_with_prefix_lem add_up (λ h. h) add_up-HashesWrites (λ n. n) (5 ∷ []) series_labels
