-- ===== src/Block/Duplicates.antt =====
-- pkg/block/fetcher.go, pkg/block/node.go: the filter of the blocks whose data other blocks have.
-- A node of the tree and its children are two types. The goroutines, one for each resolution, work
-- on blocks of their own, so they are one after the other here, in an order that is a parameter.
pub mod Tree
pub mod Survivors
pub mod Growth
pub mod Groups
mod Tests
use promlts.Prelude.Dict.{nat_eq, get, remove}
use promlts.Prelude.Int.{ℤ, pos, leb_ℤ}
use promlts.Block.Metas.{unknown_source, Meta, Metas}
use promlts.Prelude.{
  ltb, ◌==◌, if◌then◌else◌, length, ℕ, Bool, true, false, ◌&&◌, ◌||◌, none, some, List, [], ◌∷◌,
  ◌++◌,
}

mutual
  pub data Node : Type 0 where
    node : Meta → Children → Node

  pub data Children : Type 0 where
    no_children : Children
    child : Node → Children → Children

abbrev pub new_node : Meta → Node
new_node m = node m no_children

abbrev pub meta_of : Node → Meta
meta_of (node m ns) = m

pub has_id : ℕ → List ℕ → Bool
has_id a [] = false
has_id a (x ∷ xs) = a == x || has_id a xs

-- Every ULID of the second list is in the first.
unfoldable pub contains : List ℕ → List ℕ → Bool
unfolding has_id
contains s1 [] = true
contains s1 (a ∷ s2) = has_id a s1 && contains s1 s2

pub append_child : Children → Node → Children
append_child no_children add = child add no_children
append_child (child n ns) add = child n (append_child ns add)

abbrev pub with_child : Node → Node → Node
with_child (node m ns) add = node m (append_child ns add)

-- The first child that contains the sources of the block: it has the same sources, and the block
-- becomes its child; or the block goes further down. Without such a child, it comes last.
mutual
  pub add_node_by_sources : Node → Node → Node
  add_node_by_sources (node m ns) add = node m (add_to_children ns add)

  pub add_to_children : Children → Node → Children
  add_to_children no_children add = child add no_children
  add_to_children (child n ns) add =
      let further = child (add_node_by_sources n add) ns in
      let later = child n (add_to_children ns add) in
      let parent_sources = (meta_of n).sources in
      let child_sources = (meta_of add).sources in
      if contains parent_sources child_sources && contains child_sources parent_sources
      then child (with_child n add) ns
      else if contains parent_sources child_sources
      then further
      else later

mutual
  pub children_to_ulids : Node → List ℕ
  children_to_ulids (node m ns) = m.ulid ∷ all_to_ulids ns

  pub all_to_ulids : Children → List ℕ
  all_to_ulids no_children = []
  all_to_ulids (child n ns) = children_to_ulids n ++ all_to_ulids ns

pub remove_id : List ℕ → ℕ → List ℕ
remove_id [] item = []
remove_id (i ∷ items) item = let rest = remove_id items item in if i == item then rest else i ∷ rest

pub non_root_from : List ℕ → Children → List ℕ
non_root_from ulids no_children = ulids
non_root_from ulids (child n ns) =
    non_root_from (remove_id (ulids ++ children_to_ulids n) (meta_of n).ulid) ns

pub get_non_root_ids : Node → List ℕ
get_non_root_ids (node m ns) = non_root_from [] ns

-- The order of the sort: more sources first, then the smaller ULID.
pub sorts_before : Meta → Meta → Bool
sorts_before a b =
    if length a.sources == length b.sources
    then ltb a.ulid b.ulid
    else ltb (length b.sources) (length a.sources)

pub insert_meta : Meta → List Meta → List Meta
insert_meta m [] = m ∷ []
insert_meta m (x ∷ xs) =
    let rest = insert_meta m xs in if sorts_before x m then x ∷ rest else m ∷ x ∷ xs

pub sort_metas : List Meta → List Meta
sort_metas [] = []
sort_metas (m ∷ ms) = insert_meta m (sort_metas ms)

pub add_all : Node → List Meta → Node
add_all root [] = root
add_all root (m ∷ ms) = add_all (add_node_by_sources root (new_node m)) ms

-- Deletes the duplicates from the map, and notes those that were in it.
pub drop_duplicates : List ℕ → Metas → List ℕ → Metas × List ℕ
drop_duplicates [] metas duplicate_ids = (metas, duplicate_ids)
drop_duplicates (id ∷ ids) metas duplicate_ids = elim (get metas id) [
  | none ↦ drop_duplicates ids (remove metas id) duplicate_ids
  | some m ↦ drop_duplicates ids (remove metas id) (duplicate_ids ++ (id ∷ []))
]

pub filter_for_resolution : Node → List Meta → Metas → List ℕ → Metas × List ℕ
filter_for_resolution root meta_slice metas duplicate_ids =
    drop_duplicates (get_non_root_ids (add_all root (sort_metas meta_slice))) metas duplicate_ids

abbrev pub same_ℤ : ℤ → ℤ → Bool
same_ℤ a b = leb_ℤ a b && leb_ℤ b a

-- The blocks of a resolution.
pub metas_of_resolution : ℤ → Metas → List Meta
metas_of_resolution res [] = []
metas_of_resolution res ((id, m) ∷ metas) =
    let rest = metas_of_resolution res metas in if same_ℤ m.resolution res then m ∷ rest else rest

-- The root of a tree is a block of its own that is no block of the bucket: only its children count.
abbrev pub root_meta : Meta
root_meta = record {
  ulid = 0;
  min_time = pos 0;
  max_time = pos 0;
  sources = [];
  labels = none;
  resolution = pos 0;
  source = unknown_source;
}

-- `all` is the map at the start, and the list has the resolutions in it.
pub filter_resolutions : List ℤ → Metas → Metas → List ℕ → Metas × List ℕ
filter_resolutions [] all metas duplicate_ids = (metas, duplicate_ids)
filter_resolutions (res ∷ resolutions) all metas duplicate_ids =
    let (rest, found) =
      filter_for_resolution (new_node root_meta) (metas_of_resolution res all) metas
        duplicate_ids in
    filter_resolutions resolutions all rest found

pub filter_duplicates : List ℤ → Metas → Metas × List ℕ
filter_duplicates resolutions metas = filter_resolutions resolutions metas metas []
