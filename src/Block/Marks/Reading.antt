-- ===== src/Block/Marks/Reading.antt =====
-- pkg/block/metadata/markers.go: which marks can be read.
use promlts.Block.Marks.{
  DeletionMark, MarkAnswer, mark_object, mark_absent, mark_get_failed, mark_read_failed,
  mark_bad_json, MarkResult, marked, marker_failed, read_marker,
}
use promlts.Prelude.{
  ◌==◌, if◌then◌else◌, Bool-cases, ◌≡◌, refl, inl, inr, Bool, true, false, not, Option, none, some,
}

-- The mark in an object of the bucket, if it can be read.
abbrev pub mark_in : MarkAnswer → Option DeletionMark
mark_in (mark_object m) = if m.version == 1 then some m else none
mark_in answer = none

-- A mark that is there, but could not be got, or has a version that is not supported.
abbrev pub is_unreadable : MarkAnswer → Bool
is_unreadable mark_absent = false
is_unreadable mark_bad_json = false
is_unreadable mark_get_failed = true
is_unreadable mark_read_failed = true
is_unreadable (mark_object m) = not (m.version == 1)

abbrev pub mark_time : MarkResult → Option DeletionMark
mark_time (marked m) = some m
mark_time r = none

abbrev pub failed : MarkResult → Bool
failed marker_failed = true
failed r = false

pub read_marker-mark_in : (answer : MarkAnswer) → mark_time (read_marker answer) ≡ mark_in answer
unfolding read_marker
read_marker-mark_in (mark_object m) = elim (Bool-cases (m.version == 1)) [
  | inl p ↦ rw (read_marker, p) refl
  | inr p ↦ rw (read_marker, p) refl
]
read_marker-mark_in mark_absent = refl
read_marker-mark_in mark_get_failed = refl
read_marker-mark_in mark_read_failed = refl
read_marker-mark_in mark_bad_json = refl

pub read_marker-unreadable :
    (answer : MarkAnswer) → failed (read_marker answer) ≡ is_unreadable answer
unfolding read_marker
read_marker-unreadable (mark_object m) = elim (Bool-cases (m.version == 1)) [
  | inl p ↦ rw (read_marker, p) refl
  | inr p ↦ rw (read_marker, p) refl
]
read_marker-unreadable mark_absent = refl
read_marker-unreadable mark_get_failed = refl
read_marker-unreadable mark_read_failed = refl
read_marker-unreadable mark_bad_json = refl
