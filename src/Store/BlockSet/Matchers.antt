-- ===== src/Store/BlockSet/Matchers.antt =====
-- pkg/store/bucket.go: `bucketBlockSet.labelMatchers`.
-- Whether all matchers accept the values of a series.
use promlts.Store.BlockSet.{Matcher, matchers_from, label_matchers}
use promlts.Labelpb.{Bytes}
use promlts.Prelude.{
  ◌==◌, Bool-cases, length, ◌≡◌, refl, ap, ◌∙◌, inl, inr, Bool, true, false, ◌&&◌, Option, none,
  some, List, [], ◌∷◌, ◌++◌, arith,
}

abbrev pub accept_all : (Bytes → Bytes) → List Matcher → Bool
accept_all value [] = true
accept_all value (m ∷ ms) = m.accepts (value m.name) && accept_all value ms

-- What the answer says of a series: whether it matches.
abbrev pub Decides : (Bytes → Bytes) → List Matcher → Option (List Matcher) → Type 0
Decides value matchers none = accept_all value matchers ≡ false
Decides value matchers (some res) = accept_all value res ≡ accept_all value matchers

accept_all-append :
    (value : Bytes → Bytes) (xs ys : List Matcher)
    → accept_all value (xs ++ ys) ≡ (accept_all value xs && accept_all value ys)
accept_all-append value [] ys = refl
accept_all-append value (m ∷ xs) ys = ground (arith, accept_all-append value xs ys)

abbrev DecidesAfter : (Bytes → Bytes) → List Matcher → List Matcher → Option (List Matcher) → Type 0
DecidesAfter value res ms none = accept_all value ms ≡ false
DecidesAfter value res ms (some out) =
    accept_all value out ≡ (accept_all value res && accept_all value ms)

module _ (label value : Bytes → Bytes)
    (agree : (n : Bytes) → (length (label n) == 0) ≡ false → value n ≡ label n) where
  keep-DecidesAfter :
      (res ms : List Matcher) (m : Matcher) (o : Option (List Matcher))
      → DecidesAfter value (res ++ (m ∷ [])) ms o
      → DecidesAfter value res (m ∷ ms) o
  keep-DecidesAfter res ms m none h = ground (arith, h)
  keep-DecidesAfter res ms m (some out) h = ground (arith, h, accept_all-append value res (m ∷ []))

  drop-DecidesAfter :
      (res ms : List Matcher) (m : Matcher) (o : Option (List Matcher))
      → m.accepts (value m.name) ≡ true
      → DecidesAfter value res ms o
      → DecidesAfter value res (m ∷ ms) o
  drop-DecidesAfter res ms m none t h = ground (arith, h)
  drop-DecidesAfter res ms m (some out) t h = ground (arith, h)

  matchers_from-DecidesAfter :
      (res ms : List Matcher) → DecidesAfter value res ms (matchers_from label res ms)
  unfolding matchers_from
  matchers_from-DecidesAfter res [] = ground arith
  matchers_from-DecidesAfter res (m ∷ ms) = elim (Bool-cases (length (label m.name) == 0)) [
    | inl t ↦ rw t (
        keep-DecidesAfter res ms m (matchers_from label (res ++ (m ∷ [])) ms)
          (matchers_from-DecidesAfter (res ++ (m ∷ [])) ms))
    | inr t ↦ rw t (elim (Bool-cases (m.accepts (label m.name))) [
      | inl u ↦ rw u (
          drop-DecidesAfter res ms m (matchers_from label res ms)
            (ap m.accepts (agree m.name t) ∙ u) (matchers_from-DecidesAfter res ms))
      | inr u ↦ rw u (rw (ap m.accepts (agree m.name t) ∙ u) refl)
    ])
  ]

  -- For a series that has the labels of the set, `labelMatchers` decides as the matchers do: if it
  -- says that the set does not match, the series does not match, and else the series matches the
  -- matchers that are left exactly if it matches all.
  pub label_matchers-Decides :
      (matchers : List Matcher) → Decides value matchers (label_matchers label matchers)
  unfolding label_matchers
  label_matchers-Decides matchers =
      at_start (matchers_from label [] matchers) (matchers_from-DecidesAfter [] matchers)
    where
      at_start :
          (o : Option (List Matcher)) → DecidesAfter value [] matchers o → Decides value matchers o
      at_start none h = h
      at_start (some out) h = h
