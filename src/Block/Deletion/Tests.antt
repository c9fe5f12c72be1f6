-- ===== src/Block/Deletion/Tests.antt =====
-- The deletion of a block that is cut short.
use promlts.Block.Deletion.{
  no_entries, file, directory, BlockDir, delete_entries, delete_mark, delete_dir_rec, delete_block,
}
use promlts.Block.Deletion.Order.{Ends, delete_block-Ends}
use promlts.Prelude.{◌≡◌, refl, true, false, none, [], ◌∷◌}

abbrev block_dir : BlockDir
block_dir = record {
  has_meta = true;
  has_mark = true;
  objects =
      directory (99 ∷ []) (file (48 ∷ []) (file (49 ∷ []) no_entries)) (file (105 ∷ []) no_entries);
}

-- The last file of the directory of chunks is left, and so are the index and the mark.
cut_short : delete_block 5 block_dir ≡ (
  record {
    has_meta = false;
    has_mark = true;
    objects = directory (99 ∷ []) (file (49 ∷ []) no_entries) (file (105 ∷ []) no_entries);
  },
  none,
)
unfolding delete_block delete_dir_rec delete_entries delete_mark
cut_short = refl

delete_block-Ends_example : Ends 5 block_dir (delete_block 5 block_dir)
delete_block-Ends_example = delete_block-Ends 5 block_dir
