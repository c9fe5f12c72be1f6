-- ===== src/Cache/Lru/Used.antt =====
-- The entries after a key was used: the same ones, in another order.
use promlts.Prelude.Dict.{Eq, same_key, same_key_refl, Dict, get}
use promlts.Cache.Lru.{without, entry_of}
use promlts.Prelude.{
  if◌then◌else◌, Bool-cases, Option-cases, ◌≡◌, refl, inl, inr, false, none, some, [], ◌∷◌, ◌++◌,
  arith,
}

module _ {K V : Type 0} ⦃e : Eq K⦄ where
  pub absent : (m : Dict K V) (k : K) → get m k ≡ none → (entry_of k m ≡ []) × (without k m ≡ m)
  unfolding get entry_of without
  absent [] k h = (refl, refl)
  absent ((j, v) ∷ m) k h = ground (arith, absent m k)

  pub get-kept : (m n : Dict K V) (k : K) → get (m ++ n) k ≡ none → get m k ≡ none
  unfolding get
  get-kept [] n k h = refl
  get-kept ((j, v) ∷ m) n k h = ground (arith, get-kept m n k)

  pub used_absent : (m : Dict K V) (k : K) → get m k ≡ none → entry_of k m ++ without k m ≡ m
  used_absent m k h = let (p, q) = absent m k h in rw (p, q) refl

  get-append :
      (m n : Dict K V) (j : K)
      → get (m ++ n) j ≡ elim (get m j) [ none ↦ get n j | some v ↦ some v ]
  unfolding get
  get-append [] n j = refl
  get-append ((i, v) ∷ m) n j = ground (arith, get-append m n j)

  get-entry_of :
      (m : Dict K V) (k j : K) → get (entry_of k m) j ≡ (if same_key k j then get m j else none)
  unfolding get entry_of
  get-entry_of [] k j = ground arith
  get-entry_of ((i, v) ∷ m) k j =
      ground (arith, get-entry_of m k j, e.beq_iff i k, e.beq_iff i j, e.beq_iff k j)

  get-without : (m : Dict K V) (k j : K) → same_key k j ≡ false → get (without k m) j ≡ get m j
  unfolding get without
  get-without [] k j h = refl
  get-without ((i, v) ∷ m) k j h =
      ground (arith, get-without m k j, e.beq_iff i k, e.beq_iff i j, e.beq_iff k j)

  -- A use of a key leaves every value as it is.
  pub get-used : (m : Dict K V) (k j : K) → get (entry_of k m ++ without k m) j ≡ get m j
  get-used m k j = elim (Bool-cases (same_key k j)) [
    | inr h ↦
        ground (
          arith,
          get-append (entry_of k m) (without k m) j,
          get-entry_of m k j,
          get-without m k j h,
        )
    | inl h ↦
        let p : k ≡ j = (e.beq_iff k j).0 h in
        elim (Option-cases (get m j)) [
          | inl q ↦ let (a, b) = absent m k (rw p q) in rw (a, b) refl
          | inr (v, q) ↦
              ground (arith, get-append (entry_of k m) (without k m) j, get-entry_of m k j)
        ]
  ]

  pub held_entry : (m : Dict K V) (k : K) (v : V) → get m k ≡ some v → entry_of k m ≡ (k, v) ∷ []
  unfolding get entry_of
  held_entry [] k v h = cc
  held_entry ((i, w) ∷ m) k v h = ground (arith, held_entry m k v, e.beq_iff i k)

  pub without-used :
      (m : Dict K V) (k : K) (v : V)
      → get m k ≡ some v
      → without k (entry_of k m ++ without k m) ≡ without k m
  unfolding without
  without-used m k v h = rw (held_entry m k v h, same_key_refl k) refl

  pub entry_of-used :
      (m : Dict K V) (k : K) (v : V)
      → get m k ≡ some v
      → entry_of k (entry_of k m ++ without k m) ≡ (k, v) ∷ []
  unfolding entry_of
  entry_of-used m k v h = rw (held_entry m k v h, same_key_refl k) refl
