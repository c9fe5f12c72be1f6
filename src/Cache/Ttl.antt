-- ===== src/Cache/Ttl.antt =====
-- pkg/cache/inmemory.go: the cache whose items expire. A time is a number of nanoseconds, and
-- each operation says what `time.Now()` returned to it; the order in which `Store` ranges over
-- its map is the order of a list.
pub mod Expiry
use promlts.Prelude.Dict.{Dict, put}
use promlts.Prelude.Int.{ℤ, ◌+ℤ◌, ltb_ℤ}
use promlts.Cache.Lru.{Lru}
use promlts.Cache.Sized.{Cache, on_evict, cache_set}
use promlts.Labelpb.{Bytes, bytes_key}
use promlts.Prelude.{if◌then◌else◌, length, ℕ, suc, Option, none, some, List, [], ◌∷◌}

pub record Wrapper : Type 0 where
  pub data_bytes : Bytes
  pub expiry_time : ℤ

abbrev pub data_size : Wrapper → ℕ
data_size w = length w.data_bytes

-- An item to store, with the time at which it is stored.
pub record Item : Type 0 where
  pub item_key : Bytes
  pub item_value : Bytes
  pub at_time : ℤ

module _ {L : Type 0} (o : Lru L Bytes Wrapper) where
  -- What the lookup returned, under the time.
  abbrev pub fresh_or_removed : Cache L → Bytes → ℤ → Option Wrapper → Cache L × Option Bytes
  fresh_or_removed c key now none = (c, none)
  fresh_or_removed c key now (some w) =
      let (l, evicted) = o.lru_remove c.lru key in
      if ltb_ℤ w.expiry_time now
      then (record c { lru = l; cur_size = on_evict o data_size c.cur_size evicted }, none)
      else (c, some w.data_bytes)

  pub ttl_get : Cache L → Bytes → ℤ → Cache L × Option Bytes
  ttl_get c key now =
      let (l, v) = o.lru_get c.lru key in fresh_or_removed (record c { lru = l }) key now v

  pub ttl_set : ℕ → Cache L → Bytes → Bytes → ℤ → ℤ → Option (Cache L)
  ttl_set fuel c key val ttl now =
      cache_set o data_size fuel c key (record { data_bytes = val; expiry_time = now +ℤ ttl })

  -- The loop of a store has fuel for each entry, and one more.
  pub store : Cache L → List Item → ℤ → Option (Cache L)
  unfolding ttl_set
  store c [] ttl = some c
  store c (x ∷ items) ttl =
      elim (ttl_set (suc (length (o.entries c.lru))) c x.item_key x.item_value ttl x.at_time) [
        | none ↦ none
        | some c' ↦ store c' items ttl
      ]

  pub fetch_into : Cache L → Dict Bytes Bytes → List (Bytes × ℤ) → Cache L × Dict Bytes Bytes
  fetch_into c results [] = (c, results)
  fetch_into c results ((key, now) ∷ keys) =
      let (c', v) = ttl_get c key now in
      elim v [ some b ↦ fetch_into c' (put results key b) keys | none ↦ fetch_into c' results keys ]

  pub fetch : Cache L → List (Bytes × ℤ) → Cache L × Dict Bytes Bytes
  fetch c keys = fetch_into c [] keys
