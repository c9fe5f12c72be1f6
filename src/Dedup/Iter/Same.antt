-- ===== src/Dedup/Iter/Same.antt =====
-- pkg/dedup/iter.go: two replicas with the same samples.
use mathlib.Core.Path.{subst}
use mathlib.Core.Option
use promlts.Dedup.Iter.{
  Sample, DedupSeriesIterator, penalty, seek, new_dedup_series_iterator, advance, pick, next, at,
  drain,
}
use promlts.Dedup.Iter.Rising.{Rises}
use promlts.Prelude.{
  ltb, leb, Bool-cases, length, ℕ, zero, suc, ◌+◌, ◌<◌, ◌≡◌, refl, sym, ap, ◌∙◌, ◌⊎◌, inl, inr,
  true, false, none, some, List, [], ◌∷◌, arith,
}

module _ {V : Type 0} where
  abbrev Suffix : List (Sample V) → List (Sample V) → Type 0
  Suffix [] ys = ys ≡ []
  Suffix (x ∷ xs) ys = (ys ≡ x ∷ xs) ⊎ Suffix xs ys

  Suffix-refl : (xs : List (Sample V)) → Suffix xs xs
  Suffix-refl [] = refl
  Suffix-refl (x ∷ xs) = inl refl

  Suffix-none : (xs : List (Sample V)) → Suffix xs []
  Suffix-none [] = refl
  Suffix-none (x ∷ xs) = inr (Suffix-none xs)

  Suffix-trans : (xs ys zs : List (Sample V)) → Suffix xs ys → Suffix ys zs → Suffix xs zs
  Suffix-trans [] ys zs p q = subst (λ l. Suffix l zs) p q
  Suffix-trans (x ∷ xs) ys zs (inl p) q = subst (λ l. Suffix l zs) p q
  Suffix-trans (x ∷ xs) ys zs (inr p) q = inr (Suffix-trans xs ys zs p q)

  seek-Suffix : (t : ℕ) (xs : List (Sample V)) → Suffix xs (seek t xs)
  unfolding seek
  seek-Suffix t [] = refl
  seek-Suffix t ((u, v) ∷ xs) = elim (Bool-cases (ltb u t)) [
    | inl p ↦ rw p (inr (seek-Suffix t xs))
    | inr p ↦ rw p (inl refl)
  ]

  -- The first sample is skipped.
  seek_first : (t u : ℕ) (v : V) (xs : List (Sample V)) → u < t → seek t ((u, v) ∷ xs) ≡ seek t xs
  unfolding seek
  seek_first t u v xs h = let p : ltb u t ≡ true = ground arith in rw p refl

  seek_rising : (t : ℕ) (xs : List (Sample V)) → Rises (some t) xs → seek (t + 1 + 0) xs ≡ xs
  unfolding seek
  seek_rising t [] h = refl
  seek_rising t ((u, v) ∷ xs) (h, r) = let p : ltb u (t + 1 + 0) ≡ false = ground arith in rw p refl

  Suffix-seek :
      (t u : ℕ) (v : V) (xs ys : List (Sample V))
      → u < t
      → Suffix ((u, v) ∷ xs) ys
      → Suffix xs (seek t ys)
  Suffix-seek t u v xs ys h (inl p) =
      subst (λ l. Suffix xs (seek t l)) (sym p)
        (subst (Suffix xs) (sym (seek_first t u v xs h)) (seek-Suffix t xs))
  Suffix-seek t u v xs ys h (inr p) = Suffix-trans xs ys (seek t ys) p (seek-Suffix t ys)

  abbrev first_time : ℕ → List (Sample V) → ℕ
  first_time d [] = d
  first_time d ((t, v) ∷ xs) = t

  Suffix-after :
      (l t : ℕ) (v : V) (xs ys : List (Sample V))
      → Rises (some l) xs
      → Suffix xs ((t, v) ∷ ys)
      → l < t
  Suffix-after l t v [] ys r p = absurd (ground arith)
  Suffix-after l t v ((u, w) ∷ xs) ys (h, r) (inl p) =
      let e : t ≡ u = ap (first_time 0) p in omega (arith, h, e)
  Suffix-after l t v ((u, w) ∷ xs) ys (h, r) (inr p) =
      let k = Suffix-after u t v xs ys r p in omega (arith, h, k)

  Suffix-from :
      (t u : ℕ) (v w : V) (xs ys : List (Sample V))
      → Rises (some t) xs
      → Suffix ((t, v) ∷ xs) ((u, w) ∷ ys)
      → leb t u ≡ true
  Suffix-from t u v w xs ys r (inl p) = let e : u ≡ t = ap (first_time 0) p in ground arith
  Suffix-from t u v w xs ys r (inr p) = let k = Suffix-after t u w xs ys r p in ground arith

  Rises-anyway : (t : ℕ) (xs : List (Sample V)) → Rises (some t) xs → Rises none xs
  Rises-anyway t [] r = tt
  Rises-anyway t ((u, v) ∷ xs) (h, r) = (tt, r)

  drain-Suffix :
      (fuel : ℕ) (it : DedupSeriesIterator V) (a b : List (Sample V))
      → advance it.last_t it.pen_a it.a ≡ a
      → advance it.last_t it.pen_b it.b ≡ b
      → Suffix a b
      → Rises none a
      → length a < fuel
      → drain fuel it ≡ some a
  unfolding drain next pick at seek
  drain-Suffix zero it a b p q s r f = absurd (omega arith)
  drain-Suffix (suc fuel) it [] [] p q s r f = rw (drain, next, p, q) refl
  drain-Suffix (suc fuel) it [] (y ∷ b) p q s r f = absurd (ground arith)
  drain-Suffix (suc fuel) it ((t, v) ∷ a) [] p q s (h, r) f =
      let rest =
        drain-Suffix fuel (pick it ((t, v) ∷ a) []).0 a []
          (seek_first (t + 1 + 0) t v a (omega arith) ∙ seek_rising t a r) refl (Suffix-none a)
          (Rises-anyway t a r) (omega arith) in
      rw (drain, next, p, q) (ap (Option.map (λ xs. (t, v) ∷ xs)) rest)
  drain-Suffix (suc fuel) it ((t, v) ∷ a) ((u, w) ∷ b) p q s (h, r) f =
      let x : leb t u ≡ true = Suffix-from t u v w a b r s in
      let it' : DedupSeriesIterator V = record {
        a = (t, v) ∷ a;
        b = (u, w) ∷ b;
        use_a = true;
        last_t = some t;
        pen_a = 0;
        pen_b = penalty it.last_t t;
      } in
      let rest =
        drain-Suffix fuel it' a (seek (t + 1 + penalty it.last_t t) ((u, w) ∷ b))
          (seek_first (t + 1 + 0) t v a (omega arith) ∙ seek_rising t a r) refl
          (Suffix-seek (t + 1 + penalty it.last_t t) t v a ((u, w) ∷ b) (omega arith) s)
          (Rises-anyway t a r) (omega arith) in
      rw (drain, next, p, q, x) (ap (Option.map (λ xs. (t, v) ∷ xs)) rest)

  -- Two replicas with the same samples, whose times rise, are merged into these samples.
  pub new_iterator-same :
      (xs : List (Sample V))
      → Rises none xs
      → drain (suc (length xs + length xs)) (new_dedup_series_iterator xs xs) ≡ some xs
  unfolding new_dedup_series_iterator
  new_iterator-same xs r =
      drain-Suffix (suc (length xs + length xs)) (new_dedup_series_iterator xs xs) xs xs refl refl
        (Suffix-refl xs) r (omega arith)
