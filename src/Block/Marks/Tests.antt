-- ===== src/Block/Marks/Tests.antt =====
-- The filter of deletion marks on two blocks.
use promlts.Prelude.Dict.{nat_eq, get}
use promlts.Prelude.Int.{pos}
use promlts.Block.Metas.{Metas}
use promlts.Block.Samples.{compacted}
use promlts.Block.Marks.{MarkAnswer, mark_object, mark_bad_json, keys_of, filter_marked}
use promlts.Block.Marks.Ignored.{
  mark_of, listed_id, reached, any_failed, Ignores, filter_marked-Ignores,
}
use promlts.Prelude.{◌==◌, if◌then◌else◌, ℕ, ◌+◌, ◌≡◌, Bool, false, none, [], ◌∷◌}

abbrev two_blocks : Metas
two_blocks = (1, compacted) ∷ (2, compacted) ∷ []

-- The first block has a mark, the mark of the second is partial.
abbrev bucket_marks : ℕ → MarkAnswer
bucket_marks id =
    if id == 1
    then mark_object (record { id = 1; version = 1; deletion_time = pos 7 })
    else mark_bad_json

abbrev clock : ℕ → ℕ
clock id = 8000000000 + id

abbrev never_done : ℕ → Bool
never_done id = false

filter_marked-Ignores_example :
    Ignores bucket_marks clock 1000000000 never_done two_blocks
      (any_failed bucket_marks clock 1000000000 never_done (keys_of two_blocks))
      (filter_marked bucket_marks clock 1000000000 never_done two_blocks).1
    × ((id : ℕ)
        → get (filter_marked bucket_marks clock 1000000000 never_done two_blocks).0 id ≡ (
            if listed_id bucket_marks clock 1000000000 never_done
              (reached bucket_marks clock 1000000000 never_done (keys_of two_blocks))
              id
            then mark_of bucket_marks clock 1000000000 never_done id
            else none))
filter_marked-Ignores_example =
    filter_marked-Ignores bucket_marks clock 1000000000 never_done two_blocks
