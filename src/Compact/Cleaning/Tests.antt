-- ===== src/Compact/Cleaning/Tests.antt =====
-- Two blocks that are cleaned.
use promlts.Prelude.Dict.{nat_eq, Dict}
use promlts.Prelude.Int.{ℤ, pos}
use promlts.Block.Metas.{Metas}
use promlts.Block.Marks.{DeletionMark}
use promlts.Block.Deletion.{Bucket, Faults, no_entries, file, BlockDir}
use promlts.Block.Samples.{compacted}
use promlts.Compact.Cleaning.{apply_retention, garbage_collect, delete_marked_blocks}
use promlts.Compact.Cleaning.Marking.{time_of, Collected}
use promlts.Compact.Cleaning.Choosing.{
  is_garbage, garbage_collect-Collected, is_over_id, Retains, apply_retention-Retains,
}
use promlts.Compact.Cleaning.Deleting.{CleansMarked, delete_marked_blocks-CleansMarked}
use promlts.Prelude.{◌==◌, if◌then◌else◌, ℕ, refl, Bool, true, false, [], ◌∷◌}

abbrev faults : Faults
faults = record { exists_fails = λ id. false; upload_fails = λ id. id == 2 }

abbrev bucket_marks : Bucket
bucket_marks = record { marks = (3, pos 5) ∷ [] }

abbrev clock : ℕ → ℕ
clock id = 9000000000000

abbrev blocks : Metas
blocks = (1, compacted) ∷ (2, compacted) ∷ (3, compacted) ∷ []

abbrev none_cancelled : ℕ → Bool
none_cancelled id = false

abbrev mark : ℕ → ℕ → DeletionMark
mark id time = record { id = id; version = 1; deletion_time = pos time }

abbrev three_marked : Dict ℕ DeletionMark
three_marked = (3, mark 3 5) ∷ []

garbage_collect-Collected_example :
    Collected (is_garbage three_marked (1 ∷ 3 ∷ 2 ∷ [])) (time_of clock) bucket_marks blocks (
      garbage_collect faults none_cancelled clock three_marked (1 ∷ 3 ∷ 2 ∷ []) bucket_marks blocks)
garbage_collect-Collected_example =
    garbage_collect-Collected faults none_cancelled clock three_marked (1 ∷ 3 ∷ 2 ∷ []) bucket_marks
      blocks

abbrev retentions : ℤ → ℕ
retentions resolution = 1000000000

apply_retention-Retains_example :
    Retains
      (is_over_id clock retentions blocks)
      (time_of clock)
      bucket_marks
      (apply_retention faults clock retentions bucket_marks blocks)
apply_retention-Retains_example =
    apply_retention-Retains faults clock retentions bucket_marks blocks

abbrev dirs : ℕ → BlockDir
dirs id = record { has_meta = id == 1; has_mark = true; objects = file (48 ∷ []) no_entries }

abbrev calls : ℕ → ℕ
calls id = if id == 1 then 3 else 9

-- The mark of the second block stands with the first.
abbrev two_marked : Dict ℕ DeletionMark
two_marked = (1, mark 2 4) ∷ (2, mark 1 5) ∷ []

delete_marked_blocks-CleansMarked_example :
    CleansMarked calls clock 1000000000 dirs two_marked
      (delete_marked_blocks calls clock 1000000000 dirs two_marked)
delete_marked_blocks-CleansMarked_example =
    delete_marked_blocks-CleansMarked calls clock 1000000000 dirs two_marked (refl, (refl, tt))
