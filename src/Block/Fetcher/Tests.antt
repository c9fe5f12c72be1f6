-- ===== src/Block/Fetcher/Tests.antt =====
-- The fetch from a small bucket.
use promlts.Prelude.Dict.{nat_eq, get}
use promlts.Prelude.Int.{pos}
use promlts.Block.Fetcher.{
  absent, present, local_missing, object_meta, Storage, Loaded, loaded, not_loaded, load_object,
  load_uncached, load_meta, listed, fetch,
}
use promlts.Block.Fetcher.Complete.{outcome}
use promlts.Block.Fetcher.Sound.{NamesBlocks, ServesData, filters_of, fetch-ServesData}
use promlts.Block.Samples.{block}
use promlts.Prelude.{
  ltb, if◌then◌else◌, Bool-cases, ℕ, ◌≡◌, refl, sym, ap, ◌∙◌, inl, inr, true, false, [], ◌∷◌,
}

-- A bucket with the metadata of three blocks, and a fourth that is partial.
abbrev storage : Storage
storage = record {
  has_cache_dir = false;
  exists_meta = λ id. if ltb id 4 then present else absent;
  read_local = λ id. local_missing;
  get_meta = λ id. object_meta 1 (block id (id ∷ []));
}

ulid_of : Loaded → ℕ → ℕ
ulid_of (loaded m) id = m.ulid
ulid_of (not_loaded e) id = id

storage_ulid : (id : ℕ) → ulid_of (outcome storage [] id) id ≡ id
unfolding ulid_of load_meta load_uncached load_object get
storage_ulid id = elim (Bool-cases (ltb id 4)) [
  | inl p ↦ rw (ulid_of, p) refl
  | inr p ↦ rw (ulid_of, p) refl
]

storage-NamesBlocks : NamesBlocks storage []
unfolding ulid_of
storage-NamesBlocks id m h = ap (λ r. ulid_of r id) (sym h) ∙ storage_ulid id

fetch-ServesData_example :
    ServesData storage []
      (block 2 (2 ∷ []))
      (fetch storage []
        (listed (1 ∷ 2 ∷ []))
        []
        (filters_of storage [] (λ id m. true) (pos 0 ∷ []))
        []).2
unfolding load_meta load_uncached load_object get
fetch-ServesData_example =
    fetch-ServesData storage [] (1 ∷ 2 ∷ []) [] (λ id m. true) (pos 0 ∷ []) 2 (block 2 (2 ∷ []))
      storage-NamesBlocks (inr (inl refl)) refl refl
