-- ===== src/Cache/Index/Fetching.antt =====
-- pkg/store/cache/inmemory.go: what the fetches of several keys find.
use mathlib.Core.List.{append-nil, append_assoc}
use promlts.Prelude.Dict.{Eq, same_key, Dict, get, put, get-put}
use promlts.Cache.Lru.{Lru, LruLaws}
use promlts.Cache.Lru.Used.{get-used}
use promlts.Cache.Sized.{Cache}
use promlts.Labelpb.{Bytes}
use promlts.Cache.Index.{CacheKey, index_key, index_get, fetch_from}
use promlts.Prelude.{
  if◌then◌else◌, Bool-cases, Option-cases, ◌≡◌, refl, sym, ap, ◌∙◌, ◌⊎◌, inl, inr, Bool, false,
  ◌||◌, none, some, List, [], ◌∷◌, ◌++◌, arith,
}

module _ {A : Type 0} ⦃e : Eq A⦄ where
  abbrev pub asked : List A → A → Bool
  asked [] a = false
  asked (k ∷ keys) a = same_key k a || asked keys a

  module _ (key_of : A → CacheKey) (m : Dict CacheKey Bytes) where
    -- The keys that the cache does not hold.
    abbrev pub missing : List A → List A
    missing [] = []
    missing (k ∷ keys) = elim (get m (key_of k)) [ some b ↦ missing keys | none ↦ k ∷ missing keys ]

    missing-none :
        (k : A) (keys : List A) → get m (key_of k) ≡ none → missing (k ∷ keys) ≡ k ∷ missing keys
    missing-none k keys q = ground arith

    missing-some :
        (k : A) (keys : List A) (b : Bytes)
        → get m (key_of k) ≡ some b
        → missing (k ∷ keys) ≡ missing keys
    missing-some k keys b q = ground arith

    -- What is among the hits is what the cache holds.
    abbrev pub AreHeld : Dict A Bytes → Type 0
    AreHeld hits = (a : A) → (get hits a ≡ none) ⊎ (get hits a ≡ get m (key_of a))

    AreHeld-put :
        (hits : Dict A Bytes) (k : A) (b : Bytes)
        → get m (key_of k) ≡ some b
        → AreHeld hits
        → AreHeld (put hits k b)
    AreHeld-put hits k b h agree a =
        let s = agree a in
        elim (Bool-cases (same_key k a)) [
          | inl p ↦
              let q : k ≡ a = (e.beq_iff k a).0 p in inr (rw (get-put hits k a b, p, ← q, h) refl)
          | inr p ↦ rw (get-put hits k a b, p) s
        ]

    module _ {L : Type 0} (o : Lru L CacheKey Bytes) (laws : LruLaws o) where
      abbrev pub Holds : Cache L → Type 0
      Holds c = (j : CacheKey) → get (o.entries c.lru) j ≡ get m j

      index_get-value : (c : Cache L) (k : CacheKey) → Holds c → (index_get o c k).1 ≡ get m k
      unfolding index_get
      index_get-value c k h = laws.get_value c.lru k ∙ h k

      missed :
          (hits : Dict A Bytes) (k : A) (keys : List A) (a : A)
          → get m (key_of k) ≡ none
          → (get hits a ≡ none) ⊎ (get hits a ≡ get m (key_of a))
          → (if asked keys a then get m (key_of a) else get hits a)
            ≡ (if asked (k ∷ keys) a then get m (key_of a) else get hits a)
      missed hits k keys a q agree = elim (Bool-cases (same_key k a)) [
        | inr p ↦ rw p refl
        | inl p ↦
            let r : k ≡ a = (e.beq_iff k a).0 p in ground (arith, ap (λ x. get m (key_of x)) r)
      ]

      found :
          (hits : Dict A Bytes) (k : A) (b : Bytes) (keys : List A) (a : A)
          → get m (key_of k) ≡ some b
          → (if asked keys a then get m (key_of a) else get (put hits k b) a)
            ≡ (if asked (k ∷ keys) a then get m (key_of a) else get hits a)
      found hits k b keys a q = elim (Bool-cases (same_key k a)) [
        | inr p ↦ rw (get-put hits k a b, p) refl
        | inl p ↦
            let r : k ≡ a = (e.beq_iff k a).0 p in
            ground (arith, get-put hits k a b, ap (λ x. get m (key_of x)) r)
      ]

      index_get-Holds : (c : Cache L) (k : CacheKey) → Holds c → Holds (index_get o c k).0
      unfolding index_get
      index_get-Holds c k h j = rw (laws.get_entries c.lru k, get-used (o.entries c.lru) k j) (h j)

      pub record Fetched (hits : Dict A Bytes) (misses : List A) (keys : List A)
          (r : Cache L × Dict A Bytes × List A) : Type 0 where
        pub hits_held :
            (a : A) → get r.1 a ≡ (if asked keys a then get m (key_of a) else get hits a)
        pub misses_missing : r.2 ≡ misses ++ missing keys
        pub still_holds : Holds r.0

      fetch_from-Fetched :
          (c : Cache L) (hits : Dict A Bytes) (misses keys : List A)
          → Holds c
          → AreHeld hits
          → Fetched hits misses keys (fetch_from o key_of c hits misses keys)
      unfolding fetch_from
      fetch_from-Fetched c hits misses [] h agree = record {
        hits_held = λ a. refl;
        misses_missing = sym (append-nil misses);
        still_holds = h;
      }
      fetch_from-Fetched c hits misses (k ∷ keys) h agree =
          let now : (index_get o c (key_of k)).1 ≡ get m (key_of k) =
            index_get-value c (key_of k) h in
          let next = index_get-Holds c (key_of k) h in
          elim (Option-cases (get m (key_of k))) [
            | inl q ↦
                rw (fetch_from, now, q)
                  (let r =
                      fetch_from-Fetched (index_get o c (key_of k)).0 hits (misses ++ (k ∷ [])) keys
                        next agree in
                    record {
                      hits_held = λ a. rw (r.hits_held a) (missed hits k keys a q (agree a));
                      misses_missing =
                          r.misses_missing
                          ∙ append_assoc misses (k ∷ []) (missing keys)
                          ∙ ap (◌++◌ misses) (sym (missing-none k keys q));
                      still_holds = r.still_holds;
                    })
            | inr (b, q) ↦
                rw (fetch_from, now, q)
                  (let r =
                      fetch_from-Fetched (index_get o c (key_of k)).0 (put hits k b) misses keys
                        next (AreHeld-put hits k b q agree) in
                    record {
                      hits_held = λ a. rw (r.hits_held a) (found hits k b keys a q);
                      misses_missing =
                          r.misses_missing ∙ ap (◌++◌ misses) (sym (missing-some k keys b q));
                      still_holds = r.still_holds;
                    })
          ]

      -- The hits are the keys asked for that the cache holds, with their values; the misses are the
      -- others, in the order asked; and the cache holds the values that it held.
      pub fetch_multi-Fetched :
          (c : Cache L) (keys : List A)
          → ((j : CacheKey) → get (o.entries c.lru) j ≡ get m j)
          → Fetched [] [] keys (fetch_from o key_of c [] [] keys)
      unfolding get
      fetch_multi-Fetched c keys h = fetch_from-Fetched c [] [] keys h (λ a. inl refl)
