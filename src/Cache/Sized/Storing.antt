-- ===== src/Cache/Sized/Storing.antt =====
-- pkg/store/cache/inmemory.go, pkg/cache/inmemory.go: what storing an item changes.
use promlts.Prelude.Dict.{Eq, Dict, get}
use promlts.Cache.Lru.{Lru, without, entry_of, LruLaws}
use promlts.Cache.Lru.Used.{get-kept, used_absent}
use promlts.Cache.Sized.{
  Cache, Fits, fits, too_big, stuck, make_room, ensure_fits, after_fits, cache_set,
}
use promlts.Cache.Sized.Accounting.{
  total, total-used, IsValid, Needed, MadeRoom, make_room-MadeRoom,
}
use promlts.Pool.{u64}
use promlts.Prelude.{
  ltb, Bool-cases, Option-cases, length, ℕ, ◌+◌, ◌<◌, ◌≡◌, refl, ◌∙◌, inl, inr, Bool, true, false,
  Option, none, some, [], ◌∷◌, ◌++◌, arith,
}

module _ {L K V : Type 0} ⦃e : Eq K⦄ (o : Lru L K V) (weigh : V → ℕ) (laws : LruLaws o) where
  -- The new item in front of the entries that stay, and the evicted ones, which were the oldest.
  pub record Replaces (c c' : Cache L) (k : K) (v : V) : Type 0 where
    pub kept : Dict K V
    pub evicted : Dict K V
    pub held_after : o.entries c'.lru ≡ (k, v) ∷ kept
    pub split : kept ++ evicted ≡ o.entries c.lru
    pub needed :
        Needed o weigh laws (record c { cur_size = total o weigh laws kept }) (weigh v) evicted

  -- A key that is held keeps its value, and its entry moves to the front; an item that is too big
  -- changes nothing; any other item is stored.
  abbrev pub Outcome : Cache L → Cache L → K → V → Option V → Bool → Type 0
  Outcome c c' k v (some old) b =
      o.entries c'.lru ≡ entry_of k (o.entries c.lru) ++ without k (o.entries c.lru)
  Outcome c c' k v none true = o.entries c'.lru ≡ o.entries c.lru
  Outcome c c' k v none false = Replaces c c' k v

  pub record Stored (c : Cache L) (k : K) (v : V) (c' : Cache L) : Type 0 where
    pub valid : IsValid o weigh laws c'
    pub same_size : c'.max_size_bytes ≡ c.max_size_bytes
    pub same_item : c'.max_item_size_bytes ≡ c.max_item_size_bytes
    pub outcome : Outcome c c' k v (get (o.entries c.lru) k) (ltb c.max_item_size_bytes (weigh v))

  abbrev pub Stores : Cache L → K → V → Option (Cache L) → Type 0
  Stores c k v none = ⊥
  Stores c k v (some c') = Stored c k v c'

  -- The least recently used order may change, the bytes do not.
  pub touched-IsValid :
      (c : Cache L) (k : K)
      → IsValid o weigh laws c
      → IsValid o weigh laws (record c { lru = (o.lru_get c.lru k).0 })
  touched-IsValid c k h = record {
    accounted =
        rw (laws.get_entries c.lru k, total-used o weigh laws k (o.entries c.lru)) h.accounted;
    bounded = h.bounded;
    fits_item = h.fits_item;
    no_wrap = h.no_wrap;
  }

  Needed-same :
      (c d : Cache L) (size : ℕ) (evicted : Dict K V)
      → c.max_size_bytes ≡ d.max_size_bytes
      → c.cur_size ≡ d.cur_size
      → Needed o weigh laws c size evicted
      → Needed o weigh laws d size evicted
  Needed-same c d size [] p q h = tt
  Needed-same c d size (x ∷ evicted) p q h = omega (arith, p, q, h)

  stored_fits :
      (c t : Cache L) (k : K) (v : V) (r : Fits L)
      → t.max_size_bytes ≡ c.max_size_bytes
      → t.max_item_size_bytes ≡ c.max_item_size_bytes
      → o.entries t.lru ≡ o.entries c.lru
      → get (o.entries c.lru) k ≡ none
      → ltb c.max_item_size_bytes (weigh v) ≡ false
      → MadeRoom o weigh laws t (weigh v) r
      → Stores c k v (after_fits o weigh k v r)
  stored_fits c t k v (fits d) s i same new small m = record {
    valid = record {
      accounted = rw (a) (omega (arith, w, m.valid.accounted));
      bounded = omega (arith, w, m.room);
      fits_item = m.valid.fits_item;
      no_wrap = m.valid.no_wrap;
    };
    same_size = m.same_size ∙ s;
    same_item = m.same_item ∙ i;
    outcome =
        rw (new, small)
          (record {
            kept = o.entries d.lru;
            evicted = m.evicted;
            held_after = a;
            split = m.split ∙ same;
            needed =
                Needed-same d (record c { cur_size = total o weigh laws (o.entries d.lru) })
                  (weigh v) m.evicted (m.same_size ∙ s) m.valid.accounted m.needed;
          });
  }
    where
      w : u64 (d.cur_size + weigh v) ≡ d.cur_size + weigh v
      w = omega (arith, m.room, m.valid.no_wrap)

      a : o.entries (o.lru_add d.lru k v) ≡ (k, v) ∷ o.entries d.lru
      a =
          laws.add_entries d.lru k v
            (get-kept (o.entries d.lru) m.evicted k (rw (m.split, same) new))
  stored_fits c t k v (too_big d) s i same new small m = absurd m
  stored_fits c t k v stuck s i same new small m = absurd m

  -- In a valid cache, with fuel for every entry, a store returns a valid cache with the same limits.
  -- A key that is held keeps its value and is used; an item over the limit for one item changes
  -- nothing; any other becomes the most recently used, with the whole of its room made by evicting
  -- the least recently used entries, and no more of them than it needs.
  pub cache_set-Stores :
      (fuel : ℕ) (c : Cache L) (k : K) (v : V)
      → IsValid o weigh laws c
      → length (o.entries c.lru) < fuel
      → Stores c k v (cache_set o weigh fuel c k v)
  unfolding cache_set ensure_fits
  cache_set-Stores fuel c k v h f =
      let t : Cache L = record c { lru = (o.lru_get c.lru k).0 } in
      let tv = touched-IsValid c k h in
      elim (Option-cases (get (o.entries c.lru) k)) [
        | inr (old, q) ↦
            rw (cache_set, laws.get_value c.lru k, q)
              (record {
                valid = tv;
                same_size = refl;
                same_item = refl;
                outcome = rw q (laws.get_entries c.lru k);
              })
        | inl q ↦
            let same : o.entries t.lru ≡ o.entries c.lru =
              rw (laws.get_entries c.lru k, used_absent (o.entries c.lru) k q) refl in
            elim (Bool-cases (ltb c.max_item_size_bytes (weigh v))) [
              | inl b ↦
                  rw (cache_set, ensure_fits, laws.get_value c.lru k, q, b)
                    (record {
                      valid = tv;
                      same_size = refl;
                      same_item = refl;
                      outcome = rw (q, b) same;
                    })
              | inr b ↦
                  rw (cache_set, ensure_fits, laws.get_value c.lru k, q, b)
                    (stored_fits c t k v (make_room o weigh fuel t (weigh v)) refl refl same q b (
                      make_room-MadeRoom o weigh laws fuel t (weigh v) tv (ground arith)
                        (rw same f)))
            ]
      ]
