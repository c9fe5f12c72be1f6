-- ===== src/Cache/Index/Running.antt =====
-- pkg/store/cache/inmemory.go: a cache in use.
use mathlib.Core.Path.{subst}
use promlts.Prelude.Dict.{Eq, nat_eq, Dict, put}
use promlts.Cache.Lru.{Lru, LruLaws}
use promlts.Cache.Sized.{Cache, new_cache}
use promlts.Cache.Sized.Accounting.{total, IsValid}
use promlts.Cache.Sized.Storing.{Stores, touched-IsValid, cache_set-Stores}
use promlts.Labelpb.{Bytes, Label}
use promlts.Cache.Index.{
  postings, series, CacheKey, index_key, label_key, entry_size, index_get, index_set,
  store_postings, store_series, fetch_from, fetch_multi_postings, fetch_multi_series,
}
use promlts.Prelude.{
  ltb, tests, Bool-cases, Option-cases, length, ℕ, suc, ◌+◌, ◌^◌, ◌<◌, ◌≡◌, sym, ap, inl, inr,
  Option, none, some, List, [], ◌∷◌, ◌++◌, arith,
}

module _ {L : Type 0} (o : Lru L CacheKey Bytes) where
  pub data Operation : Type 0 where
    postings_stored : Bytes → Label → Bytes → Operation
    series_stored : Bytes → ℕ → Bytes → Operation
    postings_fetched : Bytes → List Label → Operation
    series_fetched : Bytes → List ℕ → Operation

  -- The loop of a store has fuel for each entry, and one more.
  abbrev fuel_for : Cache L → ℕ
  fuel_for c = suc (length (o.entries c.lru))

  pub apply : Cache L → Operation → Option (Cache L)
  unfolding store_postings store_series index_set
  apply c (postings_stored block l v) = store_postings o (fuel_for c) c block l v
  apply c (series_stored block id v) = store_series o (fuel_for c) c block id v
  apply c (postings_fetched block keys) = some (fetch_multi_postings o c block keys).0
  apply c (series_fetched block ids) = some (fetch_multi_series o c block ids).0

  pub run : Cache L → List Operation → Option (Cache L)
  run c [] = some c
  run c (op ∷ ops) = elim (apply c op) [ none ↦ none | some c' ↦ run c' ops ]

  module _ (laws : LruLaws o) where
    abbrev pub Valid : Cache L → Type 0
    Valid c = IsValid o entry_size laws c

    abbrev pub Returns : Option (Cache L) → Type 0
    Returns none = ⊥
    Returns (some c) = Valid c

    abbrev pub Runs : ℕ → ℕ → List Operation → Option (Cache L) → Type 0
    Runs max_size max_item ops none = max_size < max_item
    Runs max_size max_item ops (some c) = Returns (run c ops)

    Stores-Returns :
        (c : Cache L) (k : CacheKey) (v : Bytes) (r : Option (Cache L))
        → Stores o entry_size laws c k v r
        → Returns r
    Stores-Returns c k v none h = h
    Stores-Returns c k v (some c') h = h.valid

    fetch_from-Valid :
        {A : Type 0} ⦃e : Eq A⦄ (key_of : A → CacheKey) (c : Cache L) (hits : Dict A Bytes)
        (misses keys : List A)
        → Valid c
        → Valid (fetch_from o key_of c hits misses keys).0
    unfolding fetch_from index_get
    fetch_from-Valid key_of c hits misses [] h = h
    fetch_from-Valid key_of c hits misses (k ∷ keys) h =
        let next = touched-IsValid o entry_size laws c (key_of k) h in
        elim (Option-cases (o.lru_get c.lru (key_of k)).1) [
          | inl q ↦
              rw (fetch_from, index_get, q)
                (fetch_from-Valid key_of (index_get o c (key_of k)).0 hits (misses ++ (k ∷ [])) keys
                  next)
          | inr (b, q) ↦
              rw (fetch_from, index_get, q)
                (fetch_from-Valid key_of (index_get o c (key_of k)).0 (put hits k b) misses keys
                  next)
        ]

    apply-Returns : (c : Cache L) (op : Operation) → Valid c → Returns (apply c op)
    unfolding apply store_postings store_series index_set fetch_multi_postings fetch_multi_series
    apply-Returns c (postings_stored block l v) h =
        let k : CacheKey = record { block = block; key = postings l } in
        Stores-Returns c k v _ (cache_set-Stores o entry_size laws _ c k v h (omega arith))
    apply-Returns c (series_stored block id v) h =
        let k : CacheKey = record { block = block; key = series id } in
        Stores-Returns c k v _ (cache_set-Stores o entry_size laws _ c k v h (omega arith))
    apply-Returns c (postings_fetched block keys) h = fetch_from-Valid _ c [] [] keys h
    apply-Returns c (series_fetched block ids) h = fetch_from-Valid _ c [] [] ids h

    run-Returns : (c : Cache L) (ops : List Operation) → Valid c → Returns (run c ops)
    unfolding run
    run-Returns c [] h = h
    run-Returns c (op ∷ ops) h =
        let next = apply-Returns c op h in
        elim (Option-cases (apply c op)) [
          | inl q ↦ absurd (subst Returns q next)
          | inr (c', q) ↦ rw (run, q) (run-Returns c' ops (subst Returns q next))
        ]

    -- The constructor rejects a limit for one item that is over the limit for all. Otherwise, with
    -- limits whose sum is a `uint64`, every sequence of stores and fetches on the new cache returns,
    -- and leaves a cache whose size is the bytes of its entries and at most the limit.
    pub new_cache-Runs :
        (empty : L) (max_size max_item : ℕ) (ops : List Operation)
        → o.entries empty ≡ []
        → max_size + max_item < 2 ^ 64
        → Runs max_size max_item ops (new_cache o entry_size empty max_size max_item)
    unfolding new_cache
    new_cache-Runs empty max_size max_item ops h k = elim (Bool-cases (ltb max_size max_item)) [
      | inl q ↦ rw q (omega (tests, q))
      | inr q ↦ rw q (
          run-Returns _ ops (record {
            accounted = ap (total o entry_size laws) (sym h);
            bounded = omega arith;
            fits_item = ground arith;
            no_wrap = k;
          }))
    ]
