-- ===== src/Strutil/Tests.antt =====
-- pkg/strutil/merge.go: runs, and the theorems at concrete inputs.
use promlts.Strutil.{Bytes, merge_two_string_slices, merge_slices}
use promlts.Prelude.{◌≡◌, refl, some, List, [], ◌∷◌}

abbrev three : List (List Bytes)
three =
    ((b'a' ∷ []) ∷ (b'c' ∷ []) ∷ [])
    ∷ ((b'b' ∷ []) ∷ [])
    ∷ ((b'a' ∷ []) ∷ (b'a' ∷ b'b' ∷ []) ∷ [])
    ∷ []

merge_three :
    merge_slices three ≡ some ((b'a' ∷ []) ∷ (b'a' ∷ b'b' ∷ []) ∷ (b'b' ∷ []) ∷ (b'c' ∷ []) ∷ [])
unfolding merge_slices merge_two_string_slices
merge_three = refl

-- A string that one input holds twice stays twice.
duplicates_stay :
    merge_slices (((b'a' ∷ []) ∷ (b'a' ∷ []) ∷ []) ∷ ((b'a' ∷ []) ∷ []) ∷ [])
    ≡ some ((b'a' ∷ []) ∷ (b'a' ∷ []) ∷ [])
unfolding merge_slices merge_two_string_slices
duplicates_stay = refl

abbrev unsorted : List (List Bytes)
unsorted = ((b'c' ∷ []) ∷ (b'a' ∷ []) ∷ []) ∷ ((b'b' ∷ []) ∷ []) ∷ []
