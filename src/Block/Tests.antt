-- ===== src/Block/Tests.antt =====
-- The filters and the remover of replica labels on three blocks.
use promlts.Prelude.Dict.{nat_eq, get}
use promlts.Prelude.Int.{pos}
use promlts.Labelpb.{bytes_key}
use promlts.Block.Filters.Kept.{filtered, SharesTime, IsRelabelled, IsRipe, get-filtered}
use promlts.Block.Replicas.{modify_labels}
use promlts.Block.Replicas.Removed.{Modifies, modify_labels-Modifies}
use promlts.Block.Samples.{compacted, bucket, bucket-IsMap}
use promlts.Prelude.{◌≡◌, refl, ◌↔◌, some, [], ◌∷◌, arith}

get-filtered_example :
    (get (filtered (pos 0) (pos 50) (λ id. []) (λ l. l) 100 10 bucket) 3 ≡ some compacted) ↔ (
      (get bucket 3 ≡ some compacted)
      × SharesTime (pos 0) (pos 50) (λ id. []) (λ l. l) 100 10 compacted
      × IsRelabelled (pos 0) (pos 50) (λ id. []) (λ l. l) 100 10 3 compacted
      × IsRipe (pos 0) (pos 50) (λ id. []) (λ l. l) 100 10 3 compacted.source)
get-filtered_example =
    get-filtered (pos 0) (pos 50) (λ id. []) (λ l. l) 100 10 bucket 3 compacted bucket-IsMap refl
      refl (omega arith) (omega arith) (omega arith)

modify_labels-Modifies_example :
    Modifies
      (97 ∷ [])
      ((97 ∷ []) ∷ [])
      ((97 ∷ [], 98 ∷ []) ∷ [])
      (modify_labels (97 ∷ []) ((97 ∷ []) ∷ []) (some ((97 ∷ [], 98 ∷ []) ∷ [])))
modify_labels-Modifies_example =
    modify_labels-Modifies (97 ∷ []) ((97 ∷ []) ∷ []) ((97 ∷ [], 98 ∷ []) ∷ [])
