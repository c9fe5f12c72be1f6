-- ===== src/Compact/Cleaning.antt =====
-- pkg/compact/retention.go, blocks_cleaner.go and clean.go, and the garbage collection of
-- pkg/compact/compact.go. The clock is read once for each block, in nanoseconds or, for the age of a
-- partial upload, in milliseconds. A directory that a bucket does not have is an empty one.
pub mod Choosing
pub mod Marking
pub mod Deleting
mod Tests
use promlts.Prelude.Dict.{nat_eq, Dict, get, remove}
use promlts.Prelude.Int.{ℤ, pos, negsuc}
use promlts.Pool.{u64}
use promlts.Block.Metas.{Meta, Metas, ulid_time}
use promlts.Block.Marks.{DeletionMark, is_older}
use promlts.Block.Deletion.{Bucket, Faults, mark_for_deletion, BlockDir, delete_block}
use promlts.Prelude.{
  ltb, ◌==◌, if◌then◌else◌, ℕ, suc, ◌+◌, ◌-◌, ◌*◌, ◌/◌, ◌^◌, Bool, true, false, ◌&&◌, not, none,
  some, List, [], ◌∷◌,
}

-- How far the age of a partial upload has to be, in milliseconds.
abbrev pub partial_upload_threshold_age : ℕ
partial_upload_threshold_age = 172800000

-- The end of a block, cut to seconds, and the retention, in nanoseconds, are over.
pub is_over : ℕ → ℤ → ℕ → Bool
is_over now (pos n) retention = ltb (n / 1000 * 10 ^ 9 + retention) now
is_over now (negsuc n) retention = ltb retention (now + suc n / 1000 * 10 ^ 9)

-- A resolution that has no retention has 0, which disables it.
pub exceeds_retention : (ℕ → ℕ) → (ℤ → ℕ) → ℕ → Meta → Bool
exceeds_retention clock retentions id m =
    let retention = retentions m.resolution in
    not (retention == 0) && is_over (clock id) m.max_time retention

-- The bucket, and whether there was no error.
pub apply_retention : Faults → (ℕ → ℕ) → (ℤ → ℕ) → Bucket → Metas → Bucket × Bool
apply_retention faults clock retentions b [] = (b, true)
apply_retention faults clock retentions b ((id, m) ∷ metas) =
    elim (exceeds_retention clock retentions id m) [
      | false ↦ apply_retention faults clock retentions b metas
      | true ↦ elim (mark_for_deletion faults b id (pos (clock id / 10 ^ 9))) [
        | none ↦ (b, false)
        | some b' ↦ apply_retention faults clock retentions b' metas
      ]
    ]

-- The duplicates that the map of marks does not have.
pub garbage_ids : Dict ℕ DeletionMark → List ℕ → List ℕ
garbage_ids marks [] = []
garbage_ids marks (id ∷ ids) =
    let rest = garbage_ids marks ids in elim (get marks id) [ some m ↦ rest | none ↦ id ∷ rest ]

-- Marks the blocks and forgets them. `cancelled` says before which the context is done.
pub collect : Faults → (ℕ → Bool) → (ℕ → ℕ) → Bucket → Metas → List ℕ → Bucket × Metas × Bool
collect faults cancelled clock b blocks [] = (b, blocks, true)
collect faults cancelled clock b blocks (id ∷ ids) = elim (cancelled id) [
  | true ↦ (b, blocks, false)
  | false ↦ elim (mark_for_deletion faults b id (pos (clock id / 10 ^ 9))) [
    | none ↦ (b, blocks, false)
    | some b' ↦ collect faults cancelled clock b' (remove blocks id) ids
  ]
]

pub garbage_collect :
    Faults
    → (ℕ → Bool)
    → (ℕ → ℕ)
    → Dict ℕ DeletionMark
    → List ℕ
    → Bucket
    → Metas
    → Bucket × Metas × Bool
garbage_collect faults cancelled clock marks duplicate_ids b blocks =
    collect faults cancelled clock b blocks (garbage_ids marks duplicate_ids)

abbrev pub with_dir : (ℕ → BlockDir) → ℕ → BlockDir → ℕ → BlockDir
with_dir dirs id d j = if id == j then d else dirs j

-- Deletes the blocks that the marks name, where a mark is older than the delay; the first block that
-- cannot be deleted ends the cleaning. `calls` says how many calls of the bucket go through for a
-- block.
pub delete_marked_blocks :
    (ℕ → ℕ) → (ℕ → ℕ) → ℕ → (ℕ → BlockDir) → Dict ℕ DeletionMark → (ℕ → BlockDir) × Bool
delete_marked_blocks calls clock delay dirs [] = (dirs, true)
delete_marked_blocks calls clock delay dirs ((key, m) ∷ marks) =
    elim (is_older (clock key) delay m.deletion_time) [
      | false ↦ delete_marked_blocks calls clock delay dirs marks
      | true ↦
          let r = delete_block (calls m.id) (dirs m.id) in
          elim r.1 [
            | none ↦ (with_dir dirs m.id r.0, false)
            | some n ↦ delete_marked_blocks calls clock delay (with_dir dirs m.id r.0) marks
          ]
    ]

-- The age of the upload is a `uint64`.
pub is_aborted : ℕ → ℕ → Bool
is_aborted now id = ltb partial_upload_threshold_age (u64 (now + 2 ^ 64 - ulid_time id))

-- BestEffortCleanAbortedPartialUploads: goes on when a block cannot be deleted.
pub clean_partial_uploads : (ℕ → ℕ) → (ℕ → ℕ) → (ℕ → BlockDir) → List ℕ → ℕ → BlockDir
clean_partial_uploads clock calls dirs [] = dirs
clean_partial_uploads clock calls dirs (id ∷ ids) = elim (is_aborted (clock id) id) [
  | false ↦ clean_partial_uploads clock calls dirs ids
  | true ↦
      clean_partial_uploads clock calls (with_dir dirs id (delete_block (calls id) (dirs id)).0) ids
]
