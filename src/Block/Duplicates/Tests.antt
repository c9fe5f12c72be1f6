-- ===== src/Block/Duplicates/Tests.antt =====
-- The filter of duplicates on three blocks.
use promlts.Prelude.Dict.{nat_eq, get, remove}
use promlts.Prelude.Int.{pos}
use promlts.Block.Metas.{Meta}
use promlts.Block.Duplicates.{
  has_id, contains, append_child, add_node_by_sources, add_to_children, children_to_ulids,
  all_to_ulids, remove_id, non_root_from, get_non_root_ids, sorts_before, insert_meta, sort_metas,
  add_all, drop_duplicates, filter_for_resolution, metas_of_resolution, filter_resolutions,
  filter_duplicates,
}
use promlts.Block.Duplicates.Groups.{filter_duplicates-KeepsData}
use promlts.Block.Samples.{block, compacted, bucket, bucket-IsMap, bucket-KeysMatch}
use promlts.Prelude.{◌≡◌, refl, true, some, [], ◌∷◌}

-- The two small blocks are duplicates.
dropped : filter_duplicates (pos 0 ∷ []) bucket ≡ ((3, compacted) ∷ [], 1 ∷ 2 ∷ [])
unfolding filter_duplicates filter_resolutions filter_for_resolution metas_of_resolution sort_metas
    insert_meta sorts_before add_all add_to_children add_node_by_sources contains has_id
    append_child get_non_root_ids non_root_from remove_id children_to_ulids all_to_ulids
    drop_duplicates get remove
dropped = refl

filter_duplicates-KeepsData_example :
    (r : Meta) × (get (filter_duplicates (pos 0 ∷ []) bucket).0 r.ulid ≡ some r)
    × (r.resolution ≡ pos 0)
    × (contains r.sources (1 ∷ []) ≡ true)
unfolding get
filter_duplicates-KeepsData_example =
    filter_duplicates-KeepsData (pos 0 ∷ []) bucket 1 (block 1 (1 ∷ [])) bucket-KeysMatch
      bucket-IsMap refl
