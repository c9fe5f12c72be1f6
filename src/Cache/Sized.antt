-- ===== src/Cache/Sized.antt =====
-- What pkg/store/cache/inmemory.go and pkg/cache/inmemory.go have in common: the accounting of
-- bytes over an LRU without a limit of its own. `weigh` is the number of bytes that a value counts.
pub mod Accounting
pub mod Storing
use promlts.Cache.Lru.{Lru}
use promlts.Pool.{u64}
use promlts.Prelude.{
  ltb, if◌then◌else◌, ℕ, zero, suc, ◌+◌, ◌-◌, ◌%◌, ◌^◌, Option, none, some, List, [], ◌∷◌,
}

pub record Cache (L : Type 0) : Type 0 where
  pub max_size_bytes : ℕ
  pub max_item_size_bytes : ℕ
  pub cur_size : ℕ
  pub lru : L

-- The answers: what fits, what is too big, and a loop that ran out of fuel, which is no Go value.
pub data Fits (L : Type 0) : Type 0 where
  fits : Cache L → Fits L
  too_big : Cache L → Fits L
  stuck : Fits L

module _ {L K V : Type 0} (o : Lru L K V) (weigh : V → ℕ) where
  -- `uint64` subtraction wraps.
  pub on_evict : ℕ → List (K × V) → ℕ
  on_evict cur [] = cur
  on_evict cur ((k, v) ∷ evicted) = on_evict (u64 (cur + 2 ^ 64 - weigh v % 2 ^ 64)) evicted

  pub reset : Cache L → Cache L
  reset c = record c { lru = (o.purge c.lru).0; cur_size = 0 }

  -- The body of the loop: evicts the oldest entry, or resets when there is none.
  pub evict_one : Cache L → L × List (K × V) → Cache L
  unfolding reset on_evict
  evict_one c (l, []) = reset (record c { lru = l })
  evict_one c (l, x ∷ evicted) = record c { lru = l; cur_size = on_evict c.cur_size (x ∷ evicted) }

  pub make_room : ℕ → Cache L → ℕ → Fits L
  unfolding evict_one
  make_room zero c size = stuck
  make_room (suc fuel) c size =
      let rest = make_room fuel (evict_one c (o.remove_oldest c.lru)) size in
      if ltb c.max_size_bytes (u64 (c.cur_size + size)) then rest else fits c

  pub ensure_fits : ℕ → Cache L → ℕ → Fits L
  unfolding make_room
  ensure_fits fuel c size =
      if ltb c.max_item_size_bytes size then too_big c else make_room fuel c size

  -- `none` when the loop ran out of fuel.
  abbrev pub after_fits : K → V → Fits L → Option (Cache L)
  after_fits k v (fits c) =
      some (record c { lru = o.lru_add c.lru k v; cur_size = u64 (c.cur_size + weigh v) })
  after_fits k v (too_big c) = some c
  after_fits k v stuck = none

  unfoldable pub cache_set : ℕ → Cache L → K → V → Option (Cache L)
  unfolding ensure_fits
  cache_set fuel c k v =
      let (l, found) = o.lru_get c.lru k in
      let used : Cache L = record c { lru = l } in
      elim found [ some _ ↦ some used | none ↦ after_fits k v (ensure_fits fuel used (weigh v)) ]

  unfoldable pub new_cache : L → ℕ → ℕ → Option (Cache L)
  new_cache empty max_size max_item_size =
      if ltb max_size max_item_size
      then none
      else some (record {
        max_size_bytes = max_size;
        max_item_size_bytes = max_item_size;
        cur_size = 0;
        lru = empty;
      })
