-- ===== src/Block/Filters.antt =====
-- pkg/block/fetcher.go: the filters by time, by labels and by age. Relabelling is a library.
pub mod Kept
use promlts.Prelude.Dict.{nat_eq, Dict}
use promlts.Prelude.Int.{ℤ, leb_ℤ}
use promlts.Labelpb.{Bytes, Label}
use promlts.Block.Metas.{
  SourceType, compactor_source, compactor_repair_source, bucket_repair_source, Meta, Metas,
  ulid_time, retain,
}
use promlts.Pool.{u64}
use promlts.Prelude.{
  ltb, ◌==◌, length, ℕ, ◌+◌, ◌-◌, ◌^◌, Bool, true, false, ◌&&◌, not, Option, none, some, List, [],
  ◌∷◌,
}

-- TimePartitionMetaFilter: the block overlaps the range of time.
pub in_partition : ℤ → ℤ → ℕ → Meta → Bool
in_partition min_time max_time id m = leb_ℤ min_time m.max_time && leb_ℤ m.min_time max_time

pub filter_time_partition : ℤ → ℤ → Metas → Metas
filter_time_partition min_time max_time metas = retain (in_partition min_time max_time) metas

-- `__block_id`
abbrev pub block_id_label : Bytes
block_id_label = 95 ∷ 95 ∷ 98 ∷ 108 ∷ 111 ∷ 99 ∷ 107 ∷ 95 ∷ 105 ∷ 100 ∷ []

abbrev pub to_labels : Dict Bytes Bytes → List Label
to_labels [] = []
to_labels ((k, v) ∷ m) = record { name = k; value = v } ∷ to_labels m

-- A nil map has no entries.
abbrev pub label_map : Option (Dict Bytes Bytes) → Dict Bytes Bytes
label_map none = []
label_map (some m) = m

-- LabelShardedMetaFilter: labels are left after relabelling.
pub in_shard : (ℕ → Bytes) → (List Label → List Label) → ℕ → Meta → Bool
in_shard ulid_text process id m = not (
    length (
      process
        (record { name = block_id_label; value = ulid_text id } ∷ to_labels (label_map m.labels)))
    == 0)

pub filter_label_sharded : (ℕ → Bytes) → (List Label → List Label) → Metas → Metas
filter_label_sharded ulid_text process metas = retain (in_shard ulid_text process) metas

abbrev pub is_repaired : SourceType → Bool
is_repaired bucket_repair_source = true
is_repaired compactor_source = true
is_repaired compactor_repair_source = true
is_repaired s = false

-- ConsistencyDelayMetaFilter: the age, a `uint64` of milliseconds, is not below the delay, or the
-- block comes from a compaction or a repair.
pub is_consistent : ℕ → ℕ → ℕ → Meta → Bool
is_consistent now delay id m =
    not (ltb (u64 (now + 2 ^ 64 - ulid_time id)) delay && not (is_repaired m.source))

pub filter_consistency_delay : ℕ → ℕ → Metas → Metas
filter_consistency_delay now delay metas = retain (is_consistent now delay) metas
