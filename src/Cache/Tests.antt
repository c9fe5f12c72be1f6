-- ===== src/Cache/Tests.antt =====
-- The caches on an LRU that is a list.
use promlts.Prelude.Dict.{nat_eq, Dict, get}
use promlts.Prelude.Int.{pos}
use promlts.Cache.Lru.{list_lru, list_lru-LruLaws}
use promlts.Cache.Sized.{Cache, cache_set, new_cache}
use promlts.Cache.Sized.Accounting.{IsValid}
use promlts.Cache.Sized.Storing.{Stores, cache_set-Stores}
use promlts.Cache.Index.{postings, series, CacheKey, index_key, label_key, entry_size, fetch_from}
use promlts.Cache.Index.Fetching.{Fetched, fetch_multi-Fetched}
use promlts.Cache.Index.Running.{postings_stored, series_fetched, Runs, new_cache-Runs}
use promlts.Labelpb.{Bytes, bytes_key, Label}
use promlts.Cache.Ttl.{Wrapper, data_size, ttl_get, ttl_set}
use promlts.Cache.Ttl.Expiry.{Gets, ttl_get-Gets, Lost, ttl_set-Lost}
use promlts.Prelude.{refl, [], ◌∷◌, arith}

abbrev block_a : Bytes
block_a = 1 ∷ []

abbrev key_a : Label
key_a = record { name = 97 ∷ []; value = 98 ∷ [] }

abbrev key_b : Label
key_b = record { name = 97 ∷ []; value = 99 ∷ [] }

abbrev postings_key : Label → CacheKey
postings_key l = record { block = block_a; key = postings l }

abbrev full : Cache (Dict CacheKey Bytes)
full = record {
  max_size_bytes = 40;
  max_item_size_bytes = 20;
  cur_size = 35;
  lru =
      (postings_key key_a, 1 ∷ 2 ∷ []) ∷ (record { block = block_a; key = series 5 }, 7 ∷ []) ∷ [];
}

full-IsValid : IsValid list_lru entry_size list_lru-LruLaws full
unfolding list_lru
full-IsValid = record {
  accounted = refl;
  bounded = omega arith;
  fits_item = omega arith;
  no_wrap = omega arith;
}

cache_set-Stores_example :
    Stores list_lru entry_size list_lru-LruLaws full
      (postings_key key_b)
      (3 ∷ [])
      (cache_set list_lru entry_size 3 full (postings_key key_b) (3 ∷ []))
unfolding list_lru
cache_set-Stores_example =
    cache_set-Stores list_lru entry_size list_lru-LruLaws 3 full (postings_key key_b) (3 ∷ [])
      full-IsValid (omega arith)

fetch_multi-Fetched_example :
    Fetched postings_key full.lru list_lru list_lru-LruLaws [] []
      (key_a ∷ key_b ∷ [])
      (fetch_from list_lru postings_key full [] [] (key_a ∷ key_b ∷ []))
unfolding list_lru
fetch_multi-Fetched_example =
    fetch_multi-Fetched postings_key full.lru list_lru list_lru-LruLaws full (key_a ∷ key_b ∷ [])
      (λ j. refl)

new_cache-Runs_example :
    Runs list_lru list_lru-LruLaws 40 20
      (postings_stored block_a key_a (1 ∷ []) ∷ series_fetched block_a (5 ∷ []) ∷ [])
      (new_cache list_lru entry_size [] 40 20)
unfolding list_lru
new_cache-Runs_example =
    new_cache-Runs list_lru list_lru-LruLaws [] 40 20
      (postings_stored block_a key_a (1 ∷ []) ∷ series_fetched block_a (5 ∷ []) ∷ []) refl
      (omega arith)

abbrev old : Wrapper
old = record { data_bytes = 1 ∷ 2 ∷ []; expiry_time = pos 10 }

abbrev expiring : Cache (Dict Bytes Wrapper)
expiring = record {
  max_size_bytes = 4;
  max_item_size_bytes = 2;
  cur_size = 2;
  lru = (97 ∷ [], old) ∷ [];
}

expiring-IsValid : IsValid list_lru data_size list_lru-LruLaws expiring
unfolding list_lru
expiring-IsValid = record {
  accounted = refl;
  bounded = omega arith;
  fits_item = omega arith;
  no_wrap = omega arith;
}

ttl_get-Gets_example :
    Gets list_lru list_lru-LruLaws expiring
      (97 ∷ [])
      (pos 11)
      (ttl_get list_lru expiring (97 ∷ []) (pos 11))
ttl_get-Gets_example =
    ttl_get-Gets list_lru list_lru-LruLaws expiring (97 ∷ []) (pos 11) expiring-IsValid

ttl_set-Lost_example :
    Lost list_lru list_lru-LruLaws
      (97 ∷ [])
      (pos 12)
      (ttl_set list_lru 2 expiring (97 ∷ []) (3 ∷ []) (pos 50) (pos 11))
unfolding list_lru get
ttl_set-Lost_example =
    ttl_set-Lost list_lru list_lru-LruLaws expiring 2 (97 ∷ []) (3 ∷ []) (pos 50) (pos 11) (pos 12)
      old expiring-IsValid (omega arith) refl refl
