-- ===== src/Sorted/Lookup.antt =====
-- The merge of two sorted lists is sorted, and looks up as the union of the two.
use mathlib.Core.Path.{subst}
use Prim.Native.Nat.{lt}
use promlts.Prelude.Order.{Order, Ordering-cases}
use promlts.Sorted.{Before, IsSorted, lookup, merge, union}
use promlts.Prelude.{All, ◌≡◌, refl, sym, inl, inr, Option, none, some, List, [], ◌∷◌, arith}

module _ {K E : Type 0} (o : Order K) (key : E → K) where
  All-map : (P Q : E → Type 0) (xs : List E) → ((x : E) → P x → Q x) → All P xs → All Q xs
  All-map P Q [] f h = tt
  All-map P Q (x ∷ xs) f h = (f x h.0, All-map P Q xs f h.1)

  Before-trans :
      (j k : K) (xs : List E)
      → o.compare j k ≡ lt
      → All (Before o key k) xs
      → All (Before o key j) xs
  Before-trans j k xs h =
      All-map (Before o key k) (Before o key j) xs (λ x p. o.trans j k (key x) h p)

  pub lookup-Before : (k : K) (xs : List E) → All (Before o key k) xs → lookup o key k xs ≡ none
  unfolding lookup
  lookup-Before k [] h = refl
  lookup-Before k (x ∷ xs) h = ground (arith, lookup-Before k xs h.1)

  pub lookup_self : (x : E) (xs : List E) → lookup o key (key x) (x ∷ xs) ≡ some x
  unfolding lookup
  lookup_self x xs = ground (arith, o.same (key x))

  module _ (combine : E → E → E)
      (key_combine : (x y : E) → key x ≡ key y → key (combine x y) ≡ key x) where
    All-merge :
        (k : K) (xs ys : List E)
        → All (Before o key k) xs
        → All (Before o key k) ys
        → All (Before o key k) (merge o key combine xs ys)
    unfolding merge
    All-merge k [] ys h g = g
    All-merge k (x ∷ xs) [] h g = h
    All-merge k (x ∷ xs) (y ∷ ys) h g = ground (
      arith,
      All-merge k xs (y ∷ ys) h.1 g,
      All-merge k xs ys h.1 g.1,
      All-merge k (x ∷ xs) ys h g.1,
      key_combine x y,
      o.eq_of (key x) (key y),
    )

    pub merge-IsSorted :
        (xs ys : List E)
        → IsSorted o key xs
        → IsSorted o key ys
        → IsSorted o key (merge o key combine xs ys)
    unfolding merge
    merge-IsSorted [] ys h g = g
    merge-IsSorted (x ∷ xs) [] h g = h
    merge-IsSorted (x ∷ xs) (y ∷ ys) h g = elim (Ordering-cases (o.compare (key x) (key y))) [
      | inl e ↦
          rw (e, merge)
            (
              All-merge (key x) xs (y ∷ ys) h.0 (e, Before-trans (key x) (key y) ys e g.0),
              merge-IsSorted xs (y ∷ ys) h.1 g,
            )
      | inr (inl e) ↦
          let same : key x ≡ key y = o.eq_of (key x) (key y) e in
          let below : All (Before o key (key x)) ys =
            subst (λ k. All (Before o key k) ys) (sym same) g.0 in
          rw (e, merge)
            (
              subst (λ k. All (Before o key k) (merge o key combine xs ys))
                  (sym (key_combine x y same)) (All-merge (key x) xs ys h.0 below),
              merge-IsSorted xs ys h.1 g.1,
            )
      | inr (inr e) ↦
          let e' = o.flip_gt (key x) (key y) e in
          rw (e, merge)
            (
              All-merge (key y) (x ∷ xs) ys (e', Before-trans (key y) (key x) xs e' h.0) g.0,
              merge-IsSorted (x ∷ xs) ys h g.1,
            )
    ]

    union-none : (a : Option E) → union o key combine a none ≡ a
    union-none none = refl
    union-none (some x) = refl

    lookup_below :
        (x : E) (ys : List E) (k : K)
        → k ≡ key x
        → All (Before o key (key x)) ys
        → lookup o key k ys ≡ none
    lookup_below x ys k e h = rw e (lookup-Before (key x) ys h)

    lookup-merge-lt :
        (k : K) (x : E) (xs ys zs : List E)
        → All (Before o key (key x)) ys
        → lookup o key k zs ≡ union o key combine (lookup o key k xs) (lookup o key k ys)
        → lookup o key k (x ∷ zs)
          ≡ union o key combine (lookup o key k (x ∷ xs)) (lookup o key k ys)
    unfolding lookup
    lookup-merge-lt k x xs ys zs h ih = ground (arith, lookup_below x ys k, o.eq_of k (key x), ih)

    lookup-merge-gt :
        (k : K) (y : E) (xs ys zs : List E)
        → All (Before o key (key y)) xs
        → lookup o key k zs ≡ union o key combine (lookup o key k xs) (lookup o key k ys)
        → lookup o key k (y ∷ zs)
          ≡ union o key combine (lookup o key k xs) (lookup o key k (y ∷ ys))
    unfolding lookup
    lookup-merge-gt k y xs ys zs h ih = ground (arith, lookup_below y xs k, o.eq_of k (key y), ih)

    lookup-merge-eq :
        (k : K) (x y : E) (xs ys zs : List E)
        → key x ≡ key y
        → lookup o key k zs ≡ union o key combine (lookup o key k xs) (lookup o key k ys)
        → lookup o key k (combine x y ∷ zs)
          ≡ union o key combine (lookup o key k (x ∷ xs)) (lookup o key k (y ∷ ys))
    unfolding lookup
    lookup-merge-eq k x y xs ys zs e ih = ground (arith, key_combine x y e, ih)

    pub lookup-merge :
        (k : K) (xs ys : List E)
        → IsSorted o key xs
        → IsSorted o key ys
        → lookup o key k (merge o key combine xs ys)
          ≡ union o key combine (lookup o key k xs) (lookup o key k ys)
    unfolding merge
    lookup-merge k [] ys h g = unfold lookup in refl
    lookup-merge k (x ∷ xs) [] h g = unfold lookup in sym (union-none _)
    lookup-merge k (x ∷ xs) (y ∷ ys) h g = elim (Ordering-cases (o.compare (key x) (key y))) [
      | inl e ↦
          rw (e, merge)
            (lookup-merge-lt k x xs (y ∷ ys) (merge o key combine xs (y ∷ ys))
              (e, Before-trans (key x) (key y) ys e g.0) (lookup-merge k xs (y ∷ ys) h.1 g))
      | inr (inl e) ↦
          rw (e, merge)
            (lookup-merge-eq k x y xs ys (merge o key combine xs ys) (o.eq_of (key x) (key y) e)
              (lookup-merge k xs ys h.1 g.1))
      | inr (inr e) ↦
          let e' = o.flip_gt (key x) (key y) e in
          rw (e, merge)
            (lookup-merge-gt k y (x ∷ xs) ys (merge o key combine (x ∷ xs) ys)
              (e', Before-trans (key y) (key x) xs e' h.0) (lookup-merge k (x ∷ xs) ys h g.1))
    ]
