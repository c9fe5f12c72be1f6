-- ===== src/Receive/Hashring/Serving.antt =====
-- pkg/receive/hashring.go: what `GetN` of any hashring gives to a tenant that it has nodes for.
-- The hashring gives the tenant the nodes `s`: it is their simple hashring, or has them in its cache
-- or in a group.
use promlts.Receive.Hashring.{
  TimeSeries, sort_series, node_at, u64, Multi, Config, Hashring, simple, multi, new_multi_hashring,
  find_hashring, simple_get_n, multi_get_n, get_n,
}
use promlts.Receive.Hashring.Sorting.{sort_series-twice}
use promlts.Receive.Hashring.Cached.{hashring_of, get_here, find_hashring-new}
use promlts.Prelude.Dict.{same_key_refl, get, put}
use promlts.Labelpb.{Bytes, bytes_key, Label}
use promlts.Prelude.{
  leb, length, ℕ, ◌+◌, ◌%◌, ◌<◌, ◌≡◌, refl, ap, ◌∙◌, false, none, some, List, arith,
}

pub data Serves (s : List Bytes) (tenant : Bytes) : Hashring → Type 0 where
  by_simple : Serves s tenant (simple s)
  by_cached : (m : Multi) → get m.cache tenant ≡ some s → Serves s tenant (multi m)
  by_found :
      (m : Multi)
      → get m.cache tenant ≡ none
      → find_hashring m.tenant_sets m.hashrings tenant ≡ some s
      → Serves s tenant (multi m)

module _ (hash : Bytes → List Label → ℕ) (s : List Bytes) (tenant : Bytes) where
  pub get_n-Serves :
      (ring : Hashring) (ts : TimeSeries) (n : ℕ)
      → Serves s tenant ring
      → Serves s tenant (get_n hash ring tenant ts n).0
        × ((get_n hash ring tenant ts n).1 ≡ simple_get_n hash s tenant ts n)
  unfolding get_n multi_get_n
  get_n-Serves ring ts n by_simple = (by_simple, refl)
  get_n-Serves ring ts n (by_cached m e) = rw (e, get_n, multi_get_n) (by_cached m e, refl)
  get_n-Serves ring ts n (by_found m e f) =
      rw (e, f, get_n, multi_get_n)
        (
          by_cached (record m { cache = put m.cache tenant s })
              (get_here m.cache tenant tenant s (same_key_refl tenant)),
          refl,
        )

  pub new-Serves :
      (cfg : List Config)
      → hashring_of cfg tenant ≡ some s
      → Serves s tenant (multi (new_multi_hashring cfg))
  unfolding new_multi_hashring get
  new-Serves cfg e = by_found (new_multi_hashring cfg) refl (find_hashring-new cfg tenant ∙ e)

  pub node-sorted :
      (ts : TimeSeries) (n : ℕ)
      → n < length s
      → (simple_get_n hash s tenant (sort_series ts) n).node
        ≡ (simple_get_n hash s tenant ts n).node
  unfolding simple_get_n
  node-sorted ts n p =
      rw (few p)
        (ap (λ x. node_at s (u64 (hash tenant x.labels + n) % length s)) (sort_series-twice ts))
    where
      few : n < length s → leb (length s) n ≡ false
      few q = ground arith

  pub series-sorted :
      (ts : TimeSeries) (n : ℕ)
      → n < length s
      → (simple_get_n hash s tenant ts n).series ≡ sort_series ts
  unfolding simple_get_n
  series-sorted ts n p = rw (few p) refl
    where
      few : n < length s → leb (length s) n ≡ false
      few q = ground arith
