-- ===== src/Strutil.antt =====
-- pkg/strutil/merge.go. A string is the list of its bytes, compared as `strings.Compare` does.
-- The recursion of `MergeSlices` takes fuel; `none` means that it ran out.
pub mod Merge
mod Tests
use Prim.Native.Nat.{lt, eq, gt}
use promlts.Prelude.Order.{Order, nat_order, list_order}
use promlts.Prelude.{
  if◌then◌else◌, length, take, drop, ℕ, zero, suc, ◌+◌, ◌/◌, Bool, true, false, Option, none, some,
  List, [], ◌∷◌,
}

abbrev pub Bytes : Type 0
Bytes = List ℕ

abbrev pub string_order : Order Bytes
string_order = list_order nat_order

pub merge_two_string_slices : List Bytes → List Bytes → List Bytes
merge_two_string_slices [] b = b
merge_two_string_slices (x ∷ a) [] = x ∷ a
merge_two_string_slices (x ∷ a) (y ∷ b) = elim (string_order.compare x y) [
  | eq ↦ x ∷ merge_two_string_slices a b
  | lt ↦ x ∷ merge_two_string_slices a (y ∷ b)
  | gt ↦ y ∷ merge_two_string_slices (x ∷ a) b
]

abbrev merge_results : Option (List Bytes) → Option (List Bytes) → Option (List Bytes)
merge_results none b = none
merge_results (some a) none = none
merge_results (some a) (some b) = some (merge_two_string_slices a b)

pub merge_slices_from : ℕ → List (List Bytes) → Option (List Bytes)
merge_slices_from zero a = none
merge_slices_from (suc fuel) [] = some []
merge_slices_from (suc fuel) (a ∷ []) = some a
merge_slices_from (suc fuel) (a ∷ b ∷ rest) =
    let l = length (a ∷ b ∷ rest) / 2 in
    merge_results (merge_slices_from fuel (take l (a ∷ b ∷ rest)))
      (merge_slices_from fuel (drop l (a ∷ b ∷ rest)))

pub merge_slices : List (List Bytes) → Option (List Bytes)
unfolding merge_slices_from
merge_slices a = merge_slices_from (length a + 1) a

-- `sort.Strings`: equal strings are the same, so every sort has this result.
pub insert_string : Bytes → List Bytes → List Bytes
insert_string x [] = x ∷ []
insert_string x (y ∷ ys) = elim (string_order.compare x y) [
  | gt ↦ y ∷ insert_string x ys
  | _ ↦ x ∷ y ∷ ys
]

pub sort_strings : List Bytes → List Bytes
unfolding insert_string
sort_strings [] = []
sort_strings (x ∷ xs) = insert_string x (sort_strings xs)

pub strings_are_sorted : List Bytes → Bool
strings_are_sorted [] = true
strings_are_sorted (x ∷ []) = true
strings_are_sorted (x ∷ y ∷ ys) = elim (string_order.compare y x) [
  | lt ↦ false
  | _ ↦ strings_are_sorted (y ∷ ys)
]

pub sort_each : List (List Bytes) → List (List Bytes)
unfolding sort_strings strings_are_sorted
sort_each [] = []
sort_each (s ∷ rest) = (if strings_are_sorted s then s else sort_strings s) ∷ sort_each rest

pub merge_unsorted_slices : List (List Bytes) → Option (List Bytes)
unfolding sort_each
merge_unsorted_slices a = merge_slices (sort_each a)
