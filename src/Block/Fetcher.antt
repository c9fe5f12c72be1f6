-- ===== src/Block/Fetcher.antt =====
-- pkg/block/fetcher.go: the loading of all metadata of a bucket, and the fetch through the filters.
-- What the bucket and the local directory answer is a parameter, as is the order of the blocks, in
-- which the answers of the workers arrive. What is written to the local directory is listed.
pub mod Complete
pub mod Sound
mod Tests
use promlts.Prelude.Dict.{nat_eq, Dict, get, put}
use promlts.Block.Metas.{Meta, Metas}
use promlts.Prelude.{
  ◌==◌, if◌then◌else◌, length, ℕ, ◌+◌, Bool, true, false, Option, none, some, List, [], ◌∷◌, ◌++◌,
}

pub data LoadError : Type 0 where
  meta_not_found meta_corrupted load_failed : LoadError

pub data ExistsAnswer : Type 0 where
  exists_failed absent present : ExistsAnswer

pub data LocalAnswer : Type 0 where
  local_meta : Meta → LocalAnswer
  local_missing local_broken : LocalAnswer

-- An object without an error has a version and the metadata.
pub data GetAnswer : Type 0 where
  object_meta : ℕ → Meta → GetAnswer
  object_not_found get_failed read_failed bad_json : GetAnswer

pub data DirAction : Type 0 where
  dir_removed : ℕ → DirAction
  meta_written : ℕ → Meta → DirAction

pub record Storage : Type 0 where
  pub has_cache_dir : Bool
  pub exists_meta : ℕ → ExistsAnswer
  pub read_local : ℕ → LocalAnswer
  pub get_meta : ℕ → GetAnswer

pub data Loaded : Type 0 where
  loaded : Meta → Loaded
  not_loaded : LoadError → Loaded

-- `TSDBVersion1`
abbrev pub tsdb_version : ℕ
tsdb_version = 1

abbrev pub written : Bool → ℕ → Meta → List DirAction
written true id m = meta_written id m ∷ []
written false id m = []

pub load_object : Bool → ℕ → GetAnswer → List DirAction × Loaded
load_object dir id object_not_found = ([], not_loaded meta_not_found)
load_object dir id get_failed = ([], not_loaded load_failed)
load_object dir id read_failed = ([], not_loaded load_failed)
load_object dir id bad_json = ([], not_loaded meta_corrupted)
load_object dir id (object_meta version m) =
    if version == tsdb_version then (written dir id m, loaded m) else ([], not_loaded load_failed)

-- The local directory first, when there is one; a broken copy in it is removed.
pub load_uncached : Storage → ℕ → List DirAction × Loaded
unfolding load_object
load_uncached s id = elim s.has_cache_dir [
  | false ↦ load_object false id (s.get_meta id)
  | true ↦ elim (s.read_local id) [
    | local_meta m ↦ ([], loaded m)
    | local_missing ↦ load_object true id (s.get_meta id)
    | local_broken ↦
        let (actions, r) = load_object true id (s.get_meta id) in (dir_removed id ∷ actions, r)
  ]
]

pub load_meta : Storage → Metas → ℕ → List DirAction × Loaded
unfolding load_uncached
load_meta s cached id = elim (s.exists_meta id) [
  | exists_failed ↦ ([], not_loaded load_failed)
  | absent ↦ ([], not_loaded meta_not_found)
  | present ↦ elim (get cached id) [ some m ↦ ([], loaded m) | none ↦ load_uncached s id ]
]

pub record Response : Type 0 where
  pub metas : Metas
  pub partial : Dict ℕ LoadError
  pub meta_errs : List LoadError
  pub no_metas : ℕ
  pub corrupted_metas : ℕ

abbrev pub empty_response : Response
empty_response = record {
  metas = [];
  partial = [];
  meta_errs = [];
  no_metas = 0;
  corrupted_metas = 0;
}

-- What a worker does with the answer for a block.
pub note_loaded : Response → ℕ → Loaded → Response
note_loaded resp id (loaded m) = record resp { metas = put resp.metas id m }
note_loaded resp id (not_loaded load_failed) = record resp {
  meta_errs = resp.meta_errs ++ (load_failed ∷ []);
}
note_loaded resp id (not_loaded meta_not_found) = record resp {
  no_metas = resp.no_metas + 1;
  partial = put resp.partial id meta_not_found;
}
note_loaded resp id (not_loaded meta_corrupted) = record resp {
  corrupted_metas = resp.corrupted_metas + 1;
  partial = put resp.partial id meta_corrupted;
}

pub load_all : Storage → Metas → Response → List ℕ → List DirAction × Response
load_all s cached resp [] = ([], resp)
load_all s cached resp (id ∷ ids) =
    let (actions, r) = load_meta s cached id in
    let (later, resp') = load_all s cached (note_loaded resp id r) ids in (actions ++ later, resp')

-- The local directories, by id, of blocks that are gone.
pub clean_dirs : Metas → List ℕ → List DirAction
clean_dirs metas [] = []
clean_dirs metas (id ∷ ids) =
    let rest = clean_dirs metas ids in
    elim (get metas id) [ none ↦ dir_removed id ∷ rest | some m ↦ rest ]

-- The blocks that the iteration over the bucket gave, to its end or until it failed.
pub data Listing : Type 0 where
  listed broken_off : List ℕ → Listing

-- The new cache comes back, which is the old one after an incomplete view.
pub fetch_metadata : Storage → Metas → Listing → List ℕ → Metas × List DirAction × Option Response
fetch_metadata s cached (broken_off ids) dirs =
    let (actions, resp) = load_all s cached empty_response ids in (cached, actions, none)
fetch_metadata s cached (listed ids) dirs =
    let (actions, resp) = load_all s cached empty_response ids in
    let cleaned = if s.has_cache_dir then clean_dirs resp.metas dirs else [] in
    if length resp.meta_errs == 0
    then (resp.metas, actions ++ cleaned, some resp)
    else (cached, actions, some resp)

pub data FetchResult : Type 0 where
  fetch_failed filter_failed modify_failed : FetchResult
  fetched : Metas → Dict ℕ LoadError → FetchResult
  incomplete_view : Metas → Dict ℕ LoadError → List LoadError → FetchResult

abbrev pub Filter : Type 0
Filter = Metas → Option Metas

pub apply_all : List Filter → Metas → Option Metas
apply_all [] metas = some metas
apply_all (f ∷ filters) metas = elim (f metas) [
  | none ↦ none
  | some metas' ↦ apply_all filters metas'
]

abbrev pub view : Response → Metas → FetchResult
view resp metas =
    if length resp.meta_errs == 0
    then fetched metas resp.partial
    else incomplete_view metas resp.partial resp.meta_errs

pub fetch_response : List Filter → List Filter → Option Response → FetchResult
fetch_response filters modifiers none = fetch_failed
fetch_response filters modifiers (some resp) = elim (apply_all filters resp.metas) [
  | none ↦ filter_failed
  | some metas ↦ elim (apply_all modifiers metas) [
    | none ↦ modify_failed
    | some metas' ↦ view resp metas'
  ]
]

pub fetch :
    Storage
    → Metas
    → Listing
    → List ℕ
    → List Filter
    → List Filter
    → Metas × List DirAction × FetchResult
fetch s cached listing dirs filters modifiers =
    let (cached', actions, resp) = fetch_metadata s cached listing dirs in
    (cached', actions, fetch_response filters modifiers resp)
