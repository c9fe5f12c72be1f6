-- ===== src/Block/Replicas.antt =====
-- pkg/block/fetcher.go: ReplicaLabelRemover. A write to a nil map panics, which gives `none`.
pub mod Removed
use promlts.Prelude.Dict.{Dict, get, put, remove}
use promlts.Labelpb.{Bytes, bytes_key}
use promlts.Block.Metas.{Metas}
use promlts.Prelude.{◌==◌, if◌then◌else◌, length, Option, none, some, List, [], ◌∷◌}

-- `deduped`
abbrev pub deduped : Bytes
deduped = 100 ∷ 101 ∷ 100 ∷ 117 ∷ 112 ∷ 101 ∷ 100 ∷ []

pub remove_replica_labels : List Bytes → Dict Bytes Bytes → Dict Bytes Bytes
remove_replica_labels [] l = l
remove_replica_labels (replica_label ∷ replica_labels) l = elim (get l replica_label) [
  | none ↦ remove_replica_labels replica_labels l
  | some v ↦ remove_replica_labels replica_labels (remove l replica_label)
]

-- The labels of a block, when `first` is the first replica label.
pub modify_labels :
    Bytes → List Bytes → Option (Dict Bytes Bytes) → Option (Option (Dict Bytes Bytes))
modify_labels first replica_labels none = none
modify_labels first replica_labels (some l) =
    let left = remove_replica_labels replica_labels l in
    some (some (if length left == 0 then put left first deduped else left))

pub modify_each : Bytes → List Bytes → Metas → Option Metas
modify_each first replica_labels [] = some []
modify_each first replica_labels ((id, m) ∷ metas) =
    let rest = modify_each first replica_labels metas in
    elim (modify_labels first replica_labels m.labels) [
      | none ↦ none
      | some l ↦ elim rest [
        | none ↦ none
        | some metas' ↦ some ((id, record m { labels = l }) ∷ metas')
      ]
    ]

pub modify : List Bytes → Metas → Option Metas
modify [] metas = some metas
modify (first ∷ rest) metas = modify_each first (first ∷ rest) metas
