-- ===== src/Cache/Sized/Accounting.antt =====
-- pkg/store/cache/inmemory.go, pkg/cache/inmemory.go: the bytes in a cache, and the eviction.
use mathlib.Core.List.{append-nil, append_assoc}
use promlts.Prelude.Dict.{Eq, Dict}
use promlts.Cache.Lru.{Lru, without, entry_of, LruLaws}
use promlts.Cache.Sized.{Cache, Fits, fits, too_big, stuck, on_evict, evict_one, make_room}
use promlts.Pool.{u64}
use promlts.Prelude.{
  ltb, tests, Bool-cases, length, length-append, ℕ, zero, suc, ◌+◌, ◌-◌, ◌%◌, ◌^◌, ◌≤◌, ◌<◌, ◌≡◌,
  refl, ap, ◌∙◌, inl, inr, List, [], ◌∷◌, ◌++◌, arith,
}

module _ {L K V : Type 0} ⦃e : Eq K⦄ (o : Lru L K V) (weigh : V → ℕ) (laws : LruLaws o) where
  abbrev pub total : List (K × V) → ℕ
  total [] = 0
  total ((k, v) ∷ m) = weigh v + total m

  pub total-append : (m n : List (K × V)) → total (m ++ n) ≡ total m + total n
  total-append [] n = omega arith
  total-append ((k, v) ∷ m) n = omega (arith, total-append m n)

  pub total-used : (k : K) (m : Dict K V) → total (entry_of k m ++ without k m) ≡ total m
  unfolding entry_of without
  total-used k [] = refl
  total-used k ((j, v) ∷ m) = ground (
    arith,
    total-used k m,
    total-append (entry_of k m) (without k m),
    total-append (entry_of k m) ((j, v) ∷ without k m),
  )

  abbrev pub held : Cache L → Dict K V
  held c = o.entries c.lru

  -- The size is that of the entries, and within the limit, and its sums do not wrap.
  pub record IsValid (c : Cache L) : Type 0 where
    pub accounted : c.cur_size ≡ total (held c)
    pub bounded : c.cur_size ≤ c.max_size_bytes
    pub fits_item : c.max_item_size_bytes ≤ c.max_size_bytes
    pub no_wrap : c.max_size_bytes + c.max_item_size_bytes < 2 ^ 64

  pub on_evict-total :
      (cur : ℕ) (evicted : List (K × V))
      → total evicted ≤ cur
      → cur < 2 ^ 64
      → on_evict o weigh cur evicted ≡ cur - total evicted
  unfolding on_evict
  on_evict-total cur [] h k = omega arith
  on_evict-total cur ((j, v) ∷ evicted) h k =
      let w : weigh v % 2 ^ 64 ≡ weigh v = omega arith in
      let s : u64 (cur + 2 ^ 64 - weigh v % 2 ^ 64) ≡ cur - weigh v = omega (arith, w) in
      rw (s, on_evict-total (cur - weigh v) evicted (omega arith) (omega arith)) (omega arith)

  -- No more is evicted than the new item needs.
  abbrev pub Needed : Cache L → ℕ → List (K × V) → Type 0
  Needed c size [] = Unit
  Needed c size ((k, v) ∷ evicted) = c.max_size_bytes < c.cur_size + weigh v + size

  pub record Made (c : Cache L) (size : ℕ) (c' : Cache L) : Type 0 where
    pub valid : IsValid c'
    pub same_size : c'.max_size_bytes ≡ c.max_size_bytes
    pub same_item : c'.max_item_size_bytes ≡ c.max_item_size_bytes
    pub room : c'.cur_size + size ≤ c'.max_size_bytes
    pub evicted : List (K × V)
    pub split : held c' ++ evicted ≡ held c
    pub needed : Needed c' size evicted

  abbrev pub MadeRoom : Cache L → ℕ → Fits L → Type 0
  MadeRoom c size (fits c') = Made c size c'
  MadeRoom c size r = ⊥

  Needed-snoc :
      (c : Cache L) (size : ℕ) (evicted : List (K × V)) (x : K × V)
      → Needed c size evicted
      → ((evicted ≡ []) → Needed c size (x ∷ []))
      → Needed c size (evicted ++ (x ∷ []))
  Needed-snoc c size [] x h k = k refl
  Needed-snoc c size (y ∷ evicted) x h k = h

  -- What the eviction of one entry leaves.
  record Evicts (c : Cache L) (x : K × V) (c' : Cache L) : Type 0 where
    valid : IsValid c'
    same_size : c'.max_size_bytes ≡ c.max_size_bytes
    same_item : c'.max_item_size_bytes ≡ c.max_item_size_bytes
    split : held c' ++ (x ∷ []) ≡ held c

  evict_one-Evicts :
      (c : Cache L) (r : L × List (K × V)) (x : K × V)
      → IsValid c
      → o.entries r.0 ++ r.1 ≡ held c
      → r.1 ≡ x ∷ []
      → Evicts c x (evict_one o weigh c r)
  unfolding evict_one
  evict_one-Evicts c (l, []) x h s p = absurd (ground arith)
  evict_one-Evicts c (l, y ∷ z ∷ ys) x h s p = absurd (ground arith)
  evict_one-Evicts c (l, (k, v) ∷ []) x h s p =
      let t : total (o.entries l) + weigh v ≡ total (held c) =
        rw (← s, total-append (o.entries l) ((k, v) ∷ [])) (omega arith) in
      let e : on_evict o weigh c.cur_size ((k, v) ∷ []) ≡ total (o.entries l) =
        rw
          (on_evict-total c.cur_size ((k, v) ∷ []) (omega (arith, t, h.accounted))
            (omega (arith, h.bounded, h.no_wrap)))
          (omega (arith, t, h.accounted)) in
      record {
        valid = record {
          accounted = e;
          bounded = rw e (omega (arith, t, h.accounted, h.bounded));
          fits_item = h.fits_item;
          no_wrap = h.no_wrap;
        };
        same_size = refl;
        same_item = refl;
        split = rw (← p) s;
      }

  after_evict :
      (c c' : Cache L) (size : ℕ) (x : K × V) (r : Fits L)
      → c.max_size_bytes < c.cur_size + size
      → c.cur_size ≡ total (held c)
      → Evicts c x c'
      → MadeRoom c' size r
      → MadeRoom c size r
  after_evict c c' size x (fits d) over a ev m = record {
    valid = m.valid;
    same_size = m.same_size ∙ ev.same_size;
    same_item = m.same_item ∙ ev.same_item;
    room = m.room;
    evicted = m.evicted ++ (x ∷ []);
    split = rw (← append_assoc (held d) m.evicted (x ∷ []), m.split) ev.split;
    needed = Needed-snoc d size m.evicted x m.needed (λ none_more. omega (
      arith,
      total-append (held c') (x ∷ []),
      ap total ev.split,
      ap total m.split,
      m.same_size,
      ev.same_size,
      m.valid.accounted,
      a,
      over,
      total-append (held d) m.evicted,
      ap total none_more,
    ));
  }
  after_evict c c' size x (too_big d) over a ev m = m
  after_evict c c' size x stuck over a ev m = m

  -- With fuel for every entry, the loop ends, and only the oldest entries go, no more than needed.
  pub make_room-MadeRoom :
      (fuel : ℕ) (c : Cache L) (size : ℕ)
      → IsValid c
      → size ≤ c.max_item_size_bytes
      → length (held c) < fuel
      → MadeRoom c size (make_room o weigh fuel c size)
  unfolding make_room
  make_room-MadeRoom zero c size h k f = absurd (omega arith)
  make_room-MadeRoom (suc fuel) c size h k f =
      let w : u64 (c.cur_size + size) ≡ c.cur_size + size =
        omega (arith, h.bounded, h.no_wrap, k) in
      elim (Bool-cases (ltb c.max_size_bytes (u64 (c.cur_size + size)))) [
        | inr q ↦ rw q (record {
          valid = h;
          same_size = refl;
          same_item = refl;
          room = ground (arith, w, q);
          evicted = [];
          split = append-nil (held c);
          needed = tt;
        })
        | inl q ↦ rw q (elim (laws.oldest_count c.lru) [
          | inl (_, empty) ↦
              absurd (ground (arith, w, q, k, h.accounted, h.fits_item, ap total empty))
          | inr (x, p) ↦
              let ev = evict_one-Evicts c (o.remove_oldest c.lru) x h (laws.oldest_split c.lru) p in
              after_evict c (evict_one o weigh c (o.remove_oldest c.lru)) size x _
                (omega (tests, w, q)) h.accounted ev
                (make_room-MadeRoom fuel (evict_one o weigh c (o.remove_oldest c.lru)) size ev.valid
                  (omega (arith, ev.same_item, k))
                  (omega (
                    arith,
                    ap length ev.split,
                    f,
                    length-append (held (evict_one o weigh c (o.remove_oldest c.lru))) (x ∷ []),
                  )))
        ])
      ]
