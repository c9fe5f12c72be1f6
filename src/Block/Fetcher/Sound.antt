-- ===== src/Block/Fetcher/Sound.antt =====
-- pkg/block/fetcher.go: the fetch through the filters keeps the data of the bucket.
use mathlib.Core.Path.{subst}
use promlts.Prelude.Dict.{nat_eq, get, put, get-put}
use promlts.Prelude.Int.{ℤ}
use promlts.Block.Metas.{Meta, Metas, IsMap, retain, kept_value, get-retain, retain-IsMap}
use promlts.Block.Fetcher.{
  meta_not_found, meta_corrupted, load_failed, DirAction, Storage, Loaded, loaded, not_loaded,
  Response, empty_response, note_loaded, load_all, listed, fetch_metadata, FetchResult, fetched,
  incomplete_view, Filter, apply_all, view, fetch_response, fetch,
}
use promlts.Block.Fetcher.Complete.{outcome, Accounted, load_all-Accounted}
use promlts.Block.Duplicates.{contains, filter_duplicates}
use promlts.Block.Duplicates.Groups.{KeysMatch, filter_duplicates-KeepsData}
use promlts.Prelude.{
  ◌==◌, if◌then◌else◌, if_both, if_cases, length, Contains, ℕ, ◌≡◌, refl, ap, ◌∙◌, Bool, true,
  Option, none, some, List, [], ◌∷◌, arith,
}

-- What is put keeps the map a map, with keys that match.
put-IsMap : (m : Metas) (id : ℕ) (v : Meta) → IsMap m → IsMap (put m id v)
unfolding put get
put-IsMap [] id v h = (refl, tt)
put-IsMap ((j, w) ∷ m) id v (new, h) =
    if_cases IsMap (j == id) ((j, v) ∷ m) ((j, w) ∷ put m id v) (λ p. (new, h))
      (λ p. (get-put m id j v ∙ ground (arith, new), put-IsMap m id v h))

put-KeysMatch : (m : Metas) (v : Meta) → KeysMatch m → KeysMatch (put m v.ulid v)
unfolding put
put-KeysMatch [] v h = (refl, tt)
put-KeysMatch ((j, w) ∷ m) v (p, h) =
    if_cases KeysMatch (j == v.ulid) ((j, v) ∷ m) ((j, w) ∷ put m v.ulid v) (λ q. (ground arith, h))
      (λ q. (p, put-KeysMatch m v h))

retain-KeysMatch : (keep : ℕ → Meta → Bool) (m : Metas) → KeysMatch m → KeysMatch (retain keep m)
unfolding retain
retain-KeysMatch keep [] h = tt
retain-KeysMatch keep ((j, w) ∷ m) (p, h) =
    if_both KeysMatch (keep j w) ((j, w) ∷ retain keep m) (retain keep m)
      (p, retain-KeysMatch keep m h) (retain-KeysMatch keep m h)

module _ (s : Storage) (cached : Metas) where
  -- The metadata of a block names the block.
  abbrev pub NamesBlocks : Type 0
  NamesBlocks = (id : ℕ) (m : Meta) → outcome s cached id ≡ loaded m → m.ulid ≡ id

  abbrev GoodMap : Metas → Type 0
  GoodMap metas = KeysMatch metas × IsMap metas

  note-GoodMap :
      (resp : Response) (id : ℕ) (r : Loaded)
      → ((m : Meta) → r ≡ loaded m → m.ulid ≡ id)
      → GoodMap resp.metas
      → GoodMap (note_loaded resp id r).metas
  unfolding note_loaded
  note-GoodMap resp id (loaded m) h (k, i) = (
    subst (λ x. KeysMatch (put resp.metas x m)) (h m refl) (put-KeysMatch resp.metas m k),
    put-IsMap resp.metas id m i,
  )
  note-GoodMap resp id (not_loaded load_failed) h g = g
  note-GoodMap resp id (not_loaded meta_not_found) h g = g
  note-GoodMap resp id (not_loaded meta_corrupted) h g = g

  load_all-GoodMap :
      (ids : List ℕ) (resp : Response)
      → NamesBlocks
      → GoodMap resp.metas
      → GoodMap (load_all s cached resp ids).1.metas
  unfolding load_all
  load_all-GoodMap [] resp h g = g
  load_all-GoodMap (id ∷ ids) resp h g =
      load_all-GoodMap ids (note_loaded resp id (outcome s cached id)) h
        (note-GoodMap resp id (outcome s cached id) (h id) g)

  -- The result has metadata, complete or not, in which a block has the data of this one.
  abbrev pub HasData : Meta → Metas → Type 0
  HasData m metas =
      (r : Meta) × (get metas r.ulid ≡ some r)
      × (r.resolution ≡ m.resolution)
      × (contains r.sources m.sources ≡ true)

  abbrev pub ServesData : Meta → FetchResult → Type 0
  ServesData m (fetched metas partial) = HasData m metas
  ServesData m (incomplete_view metas partial errs) = HasData m metas
  ServesData m r = ⊥

  viewed :
      (m : Meta) (resp : Response) (metas : Metas)
      → HasData m metas
      → ServesData m (view resp metas)
  viewed m resp metas h =
      if_both (ServesData m) (length resp.meta_errs == 0) (fetched metas resp.partial)
        (incomplete_view metas resp.partial resp.meta_errs) h h

  -- The filters that never fail: a test of each block, then the filter of duplicates.
  abbrev pub filters_of : (ℕ → Meta → Bool) → List ℤ → List Filter
  filters_of keep resolutions =
      (λ metas. some (retain keep metas))
      ∷ (λ metas. some (filter_duplicates resolutions metas).0)
      ∷ []

  -- The metadata of a block names the block in whose directory it is. A listed block that is loaded and passes the tests has its data in the result of the fetch, in
  -- a block of its resolution that has all its sources.
  pub fetch-ServesData :
      (ids dirs : List ℕ) (keep : ℕ → Meta → Bool) (resolutions : List ℤ) (id : ℕ) (m : Meta)
      → NamesBlocks
      → Contains id ids
      → outcome s cached id ≡ loaded m
      → keep id m ≡ true
      → ServesData m (fetch s cached (listed ids) dirs (filters_of keep resolutions) []).2
  unfolding fetch fetch_metadata fetch_response apply_all
  fetch-ServesData ids dirs keep resolutions id m names inside ok passes =
      let resp = (load_all s cached empty_response ids).1 in
      let (keys, is_map) = load_all-GoodMap ids empty_response names (tt, tt) in
      let held : get resp.metas id ≡ some m =
        subst (Accounted s cached resp id) ok
          (load_all-Accounted s cached ids empty_response id inside) in
      let kept : get (retain keep resp.metas) id ≡ some m =
        get-retain keep resp.metas id is_map
        ∙ ap (kept_value keep id) held
        ∙ ap (λ b. if b then some m else none) passes in
      let (r, stays, res, covers) =
        filter_duplicates-KeepsData resolutions (retain keep resp.metas) id m
          (retain-KeysMatch keep resp.metas keys) (retain-IsMap keep resp.metas is_map) kept in
      let covered : HasData m (filter_duplicates resolutions (retain keep resp.metas)).0 =
        (r, stays, res, covers) in
      if_both {A = Metas × List DirAction × Option Response}
        (λ x. ServesData m (fetch_response (filters_of keep resolutions) [] x.2))
        (length resp.meta_errs == 0) _ _ (viewed m resp _ covered) (viewed m resp _ covered)
