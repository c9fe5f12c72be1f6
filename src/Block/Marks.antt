-- ===== src/Block/Marks.antt =====
-- pkg/block/metadata/markers.go, and the filter of deletion marks in pkg/block/fetcher.go. The marks
-- of the blocks in the bucket are a parameter, and so are the clock when a block is looked at and
-- before which block the context is done. Clock and delay are in nanoseconds, the time of a mark in
-- seconds; they are compared exactly, where the code rounds the seconds to floating-point numbers.
pub mod Ignored
pub mod Age
pub mod Reading
mod Tests
use promlts.Prelude.Dict.{nat_eq, Dict, put, remove}
use promlts.Prelude.Int.{ℤ, pos, negsuc}
use promlts.Block.Metas.{Metas}
use promlts.Prelude.{
  ltb, ◌==◌, if◌then◌else◌, ℕ, suc, ◌+◌, ◌*◌, Bool, true, false, Option, none, some, List, [], ◌∷◌,
}

-- Without the details, which are only for readers.
pub record DeletionMark : Type 0 where
  pub id : ℕ
  pub version : ℕ
  pub deletion_time : ℤ

pub data MarkAnswer : Type 0 where
  mark_object : DeletionMark → MarkAnswer
  mark_absent mark_get_failed mark_read_failed mark_bad_json : MarkAnswer

-- A mark, the two errors that have a name, and any other error.
pub data MarkResult : Type 0 where
  marked : DeletionMark → MarkResult
  marker_not_found unmarshal_marker marker_failed : MarkResult

-- `DeletionMarkVersion1`
abbrev pub mark_version : ℕ
mark_version = 1

pub read_marker : MarkAnswer → MarkResult
read_marker mark_absent = marker_not_found
read_marker mark_get_failed = marker_failed
read_marker mark_read_failed = marker_failed
read_marker mark_bad_json = unmarshal_marker
read_marker (mark_object m) = if m.version == mark_version then marked m else marker_failed

-- More time than the delay has passed since then.
pub is_older : ℕ → ℕ → ℤ → Bool
is_older now delay (pos t) = ltb (t * 1000000000 + delay) now
is_older now delay (negsuc t) = ltb delay (now + suc t * 1000000000)

pub record MarkState : Type 0 where
  pub deletion_mark_map : Dict ℕ DeletionMark
  pub metas : Metas
  -- A worker had an error other than the two with a name, or the context was done.
  pub last_err : Bool

-- What a worker does for a block.
pub note_mark : ℕ → ℕ → MarkState → ℕ → MarkResult → MarkState
note_mark now delay s id marker_not_found = s
note_mark now delay s id unmarshal_marker = s
note_mark now delay s id marker_failed = record s { last_err = true }
note_mark now delay s id (marked m) = record s {
  deletion_mark_map = put s.deletion_mark_map id m;
  metas = if is_older now delay m.deletion_time then remove s.metas id else s.metas;
}

-- The blocks are given to the workers until the context is done.
pub note_marks : (ℕ → MarkAnswer) → (ℕ → ℕ) → ℕ → (ℕ → Bool) → MarkState → List ℕ → MarkState
note_marks bucket clock delay cancelled s [] = s
note_marks bucket clock delay cancelled s (id ∷ ids) = elim (cancelled id) [
  | true ↦ record s { last_err = true }
  | false ↦
      note_marks bucket clock delay cancelled
        (note_mark (clock id) delay s id (read_marker (bucket id))) ids
]

abbrev pub keys_of : {V : Type 0} → Dict ℕ V → List ℕ
keys_of [] = []
keys_of ((id, v) ∷ m) = id ∷ keys_of m

-- The new map of marks, and the metadata, or `none` for an error.
pub filter_marked :
    (ℕ → MarkAnswer) → (ℕ → ℕ) → ℕ → (ℕ → Bool) → Metas → Dict ℕ DeletionMark × Option Metas
filter_marked bucket clock delay cancelled metas =
    let s =
      note_marks bucket clock delay cancelled
        (record { deletion_mark_map = []; metas = metas; last_err = false }) (keys_of metas) in
    (s.deletion_mark_map, if s.last_err then none else some s.metas)
