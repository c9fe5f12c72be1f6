-- ===== src/Block/Deletion.antt =====
-- pkg/block/block.go: the marking of blocks, and the deletion of a block, which can be cut short. A
-- bucket is the marks in it; the directory of a block is its metadata, its mark and its other
-- objects. The number of calls of the bucket that go through is a parameter.
pub mod Order
mod Tests
use promlts.Prelude.Dict.{nat_eq, Dict, get, put}
use promlts.Prelude.Int.{ℤ}
use promlts.Labelpb.{Bytes}
use promlts.Prelude.{if◌then◌else◌, ℕ, zero, suc, Bool, true, false, Option, none, some}

pub record Bucket : Type 0 where
  -- The time of deletion in the mark of a block.
  pub marks : Dict ℕ ℤ

pub record Faults : Type 0 where
  pub exists_fails : ℕ → Bool
  pub upload_fails : ℕ → Bool

-- `none` is an error; a block that has a mark keeps it.
unfoldable pub mark_for_deletion : Faults → Bucket → ℕ → ℤ → Option Bucket
mark_for_deletion faults b id now = if faults.exists_fails id then none else elim (get b.marks id) [
  | some time ↦ some b
  | none ↦ if faults.upload_fails id then none else some (record { marks = put b.marks id now })
]

-- What a directory holds: files, and directories with what they hold.
pub data Entries : Type 0 where
  no_entries : Entries
  file : Bytes → Entries → Entries
  directory : Bytes → Entries → Entries → Entries

pub record BlockDir : Type 0 where
  pub has_meta : Bool
  pub has_mark : Bool
  -- All but the metadata and the mark.
  pub objects : Entries

-- The entries of a directory that is listed: a file takes a call to delete it, a directory one to
-- list it. What is left, and how many calls are, or `none` when the one that was due failed.
pub delete_entries : ℕ → Entries → Entries × Option ℕ
delete_entries left no_entries = (no_entries, some left)
delete_entries zero (file name rest) = (file name rest, none)
delete_entries (suc left) (file name rest) = delete_entries left rest
delete_entries zero (directory name inside rest) = (directory name inside rest, none)
delete_entries (suc left) (directory name inside rest) =
    let r = delete_entries left inside in
    elim r.1 [ none ↦ (directory name r.0 rest, none) | some n ↦ delete_entries n rest ]

-- The directory, and the calls that are left.
abbrev pub Deleted : Type 0
Deleted = BlockDir × Option ℕ

-- Asks for the mark, and deletes it.
pub delete_mark : Deleted → Deleted
delete_mark (d, none) = (d, none)
delete_mark (d, some zero) = (d, none)
delete_mark (d, some (suc left)) = elim d.has_mark [
  | false ↦ (d, some left)
  | true ↦ elim left [ zero ↦ (d, none) | suc rest ↦ (record d { has_mark = false }, some rest) ]
]

-- Lists the directory of the block and deletes what it holds.
pub delete_dir_rec : ℕ → BlockDir → Deleted
delete_dir_rec zero d = (d, none)
delete_dir_rec (suc left) d =
    let r = delete_entries left d.objects in (record d { objects = r.0 }, r.1)

-- Asks for the metadata and deletes it, then the objects, then the mark.
pub delete_block : ℕ → BlockDir → Deleted
delete_block zero d = (d, none)
delete_block (suc left) d = elim d.has_meta [
  | false ↦ delete_mark (delete_dir_rec left d)
  | true ↦ elim left [
    | zero ↦ (d, none)
    | suc rest ↦ delete_mark (delete_dir_rec rest (record d { has_meta = false }))
  ]
]
