-- ===== src/Cache/Ttl/Expiry.antt =====
-- pkg/cache/inmemory.go: which items are served.
use mathlib.Core.Path.{subst}
use promlts.Prelude.Dict.{Dict, get}
use promlts.Prelude.Int.{ℤ, ◌+ℤ◌, ltb_ℤ}
use promlts.Cache.Lru.{Lru, without, entry_of, LruLaws}
use promlts.Cache.Lru.Used.{used_absent, get-used, held_entry, without-used, entry_of-used}
use promlts.Cache.Sized.{Cache, on_evict}
use promlts.Cache.Sized.Accounting.{total, IsValid, on_evict-total}
use promlts.Cache.Sized.Storing.{Outcome, Stores, touched-IsValid, cache_set-Stores}
use promlts.Labelpb.{Bytes, bytes_key}
use promlts.Cache.Ttl.{Wrapper, data_size, ttl_get, ttl_set}
use promlts.Prelude.{
  ltb, Bool-cases, Option-cases, length, ℕ, ◌+◌, ◌<◌, ◌≡◌, refl, sym, ap, ◌∙◌, inl, inr, Bool, true,
  false, Option, none, some, [], ◌∷◌, ◌++◌, arith,
}

module _ {L : Type 0} (o : Lru L Bytes Wrapper) (laws : LruLaws o) where
  abbrev pub Valid : Cache L → Type 0
  Valid c = IsValid o data_size laws c

  abbrev entries_of : Cache L → Dict Bytes Wrapper
  entries_of c = o.entries c.lru

  abbrev pub ServedIf : Cache L → Bytes → Wrapper → Bool → Cache L × Option Bytes → Type 0
  ServedIf c key w true r = (r.1 ≡ none) × (entries_of r.0 ≡ without key (entries_of c))
  ServedIf c key w false r =
      (r.1 ≡ some w.data_bytes)
      × (entries_of r.0 ≡ entry_of key (entries_of c) ++ without key (entries_of c))

  -- The entry under the key decides: no entry, an expired one, or one that is served.
  abbrev pub Served : Cache L → Bytes → ℤ → Option Wrapper → Cache L × Option Bytes → Type 0
  Served c key now none r = (r.1 ≡ none) × (entries_of r.0 ≡ entries_of c)
  Served c key now (some w) r = ServedIf c key w (ltb_ℤ w.expiry_time now) r

  pub record Gets (c : Cache L) (key : Bytes) (now : ℤ) (r : Cache L × Option Bytes) : Type 0 where
    pub valid : Valid r.0
    pub served : Served c key now (get (entries_of c) key) r

  -- A fetched key whose item has not expired is served and becomes the most recently used; an
  -- expired item is removed, and its bytes are given back; a key that is not held changes nothing.
  pub ttl_get-Gets :
      (c : Cache L) (key : Bytes) (now : ℤ) → Valid c → Gets c key now (ttl_get o c key now)
  unfolding ttl_get
  ttl_get-Gets c key now h =
      let t : Cache L = record c { lru = (o.lru_get c.lru key).0 } in
      let tv = touched-IsValid o data_size laws c key h in
      elim (Option-cases (get (entries_of c) key)) [
        | inl q ↦
            rw (ttl_get, laws.get_value c.lru key, q)
              (record {
                valid = tv;
                served = rw q (refl, laws.get_entries c.lru key ∙ used_absent (entries_of c) key q);
              })
        | inr (w, q) ↦ elim (Bool-cases (ltb_ℤ w.expiry_time now)) [
          | inl b ↦
              rw (ttl_get, laws.get_value c.lru key, q, b)
                (let u = laws.get_entries c.lru key in
                  let out : (o.lru_remove t.lru key).1 ≡ (key, w) ∷ [] =
                    laws.remove_evicted t.lru key
                    ∙ ap (entry_of key) u
                    ∙ entry_of-used (entries_of c) key w q in
                  let left : o.entries (o.lru_remove t.lru key).0 ≡ without key (entries_of c) =
                    laws.remove_entries t.lru key
                    ∙ ap (without key) u
                    ∙ without-used (entries_of c) key w q in
                  let sum : c.cur_size
                      ≡ data_size w + total o data_size laws (without key (entries_of c)) =
                    tv.accounted
                    ∙ ap (total o data_size laws) (
                        u
                        ∙ ap (λ x. x ++ without key (entries_of c))
                            (held_entry (entries_of c) key w q)) in
                  let size : on_evict o data_size c.cur_size ((key, w) ∷ [])
                      ≡ total o data_size laws (without key (entries_of c)) =
                    on_evict-total o data_size laws c.cur_size ((key, w) ∷ []) (omega (arith, sum))
                      (omega (arith, h.bounded, h.no_wrap))
                    ∙ omega (arith, sum) in
                  record {
                    valid = rw out (record {
                      accounted = size ∙ ap (total o data_size laws) (sym left);
                      bounded = rw size (omega (arith, sum, h.bounded));
                      fits_item = h.fits_item;
                      no_wrap = h.no_wrap;
                    });
                    served = rw (q, b) (refl, left);
                  })
          | inr b ↦
              rw (ttl_get, laws.get_value c.lru key, q, b)
                (record { valid = tv; served = rw (q, b) (refl, laws.get_entries c.lru key) })
        ]
      ]

  set-Stores :
      (fuel : ℕ) (c : Cache L) (key val : Bytes) (ttl now : ℤ)
      → Valid c
      → length (entries_of c) < fuel
      → Stores o data_size laws c key
          (record { data_bytes = val; expiry_time = now +ℤ ttl })
          (ttl_set o fuel c key val ttl now)
  unfolding ttl_set
  set-Stores fuel c key val ttl now h f = cache_set-Stores o data_size laws fuel c key _ h f

  -- Not served at the time, and no entry any more.
  abbrev pub Lost : Bytes → ℤ → Option (Cache L) → Type 0
  Lost key now none = ⊥
  Lost key now (some c) = (ttl_get o c key now).1 ≡ none

  Lost-after :
      (c : Cache L) (key : Bytes) (v w : Wrapper) (later : ℤ) (r : Option (Cache L))
      → get (entries_of c) key ≡ some w
      → ltb_ℤ w.expiry_time later ≡ true
      → Stores o data_size laws c key v r
      → Lost key later r
  unfolding ttl_get
  Lost-after c key v w later none q b h = h
  Lost-after c key v w later (some c') q b h =
      let held : entries_of c' ≡ entry_of key (entries_of c) ++ without key (entries_of c) =
        subst (λ x. Outcome o data_size laws c c' key v x (ltb c.max_item_size_bytes (data_size v)))
          q h.outcome in
      let same : get (entries_of c') key ≡ some w =
        ap (λ m. get m key) held ∙ get-used (entries_of c) key key ∙ q in
      rw (ttl_get, laws.get_value c'.lru key, same, b) refl

  -- An item that is stored under a key with an entry is dropped, also when that entry has expired:
  -- at any time after the expiry of the old entry the key is not served.
  pub ttl_set-Lost :
      (c : Cache L) (fuel : ℕ) (key val : Bytes) (ttl now later : ℤ) (w : Wrapper)
      → Valid c
      → length (entries_of c) < fuel
      → get (entries_of c) key ≡ some w
      → ltb_ℤ w.expiry_time later ≡ true
      → Lost key later (ttl_set o fuel c key val ttl now)
  ttl_set-Lost c fuel key val ttl now later w h f q b =
      Lost-after c key _ w later _ q b (set-Stores fuel c key val ttl now h f)
