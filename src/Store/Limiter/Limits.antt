-- ===== src/Store/Limiter/Limits.antt =====
-- pkg/store/limiter.go: the answers to a sequence of `Reserve` calls.
use mathlib.Core.Path.{subst, ap₂}
use native.Mathlib.Nat.{mod-eq_of_lt}
use promlts.Store.Limiter.{Limiter, new_limiter, reserve}
use promlts.Prelude.{
  ltb, leb, ◌==◌, if◌then◌else◌, Bool-cases, ℕ, ◌+◌, ◌^◌, ◌<◌, ◌≡◌, refl, sym, ap, ◌∙◌, inl, inr,
  Bool, true, false, List, [], ◌∷◌, arith,
}

abbrev pub reserve_all : Limiter → List ℕ → List Bool
reserve_all l [] = []
reserve_all l (n ∷ ns) = let (after, fine) = reserve l n in fine ∷ reserve_all after ns

abbrev pub total : List ℕ → ℕ
total [] = 0
total (n ∷ ns) = n + total ns

-- Whether the sum of all that has been asked for so far is within the limit.
abbrev pub within : ℕ → ℕ → List ℕ → List Bool
within limit sum [] = []
within limit sum (n ∷ ns) = leb (sum + n) limit ∷ within limit (sum + n) ns

abbrev pub all_fine : List ℕ → List Bool
all_fine [] = []
all_fine (n ∷ ns) = true ∷ all_fine ns

reserve-limit :
    (l : Limiter) (n : ℕ)
    → (l.limit == 0) ≡ false
    → l.reserved + n < 2 ^ 64
    → ((reserve l n).0.limit ≡ l.limit)
      × ((reserve l n).0.reserved ≡ l.reserved + n)
      × ((reserve l n).1 ≡ leb (l.reserved + n) l.limit)
unfolding reserve
reserve-limit l n p q =
    rw (p, mod-eq_of_lt q)
      (elim (Bool-cases (ltb l.limit (l.reserved + n))) [
        | inl t ↦ rw t (refl, refl, ground arith)
        | inr t ↦ rw t (refl, refl, ground arith)
      ])

reserve_all-within :
    (l : Limiter) (ns : List ℕ)
    → (l.limit == 0) ≡ false
    → l.reserved + total ns < 2 ^ 64
    → reserve_all l ns ≡ within l.limit l.reserved ns
reserve_all-within l [] p q = refl
reserve_all-within l (n ∷ ns) p q =
    let (same, sum, fine) = reserve-limit l n p (omega arith) in
    ap₂ (λ b r. b ∷ r) fine
      (reserve_all-within (reserve l n).0 ns (ap (λ m. m == 0) same ∙ p)
          (subst (λ m. m + total ns < 2 ^ 64) (sym sum) (omega arith))
        ∙ ap₂ (λ m s. within m s ns) same sum)

reserve-unlimited : (l : Limiter) (n : ℕ) → (l.limit == 0) ≡ true → reserve l n ≡ (l, true)
unfolding reserve
reserve-unlimited l n p = rw p refl

unlimited : (l : Limiter) (ns : List ℕ) → (l.limit == 0) ≡ true → reserve_all l ns ≡ all_fine ns
unlimited l [] p = refl
unlimited l (n ∷ ns) p = rw (reserve-unlimited l n p) (ap (λ r. true ∷ r) (unlimited l ns p))

-- Of a sequence of `Reserve` calls on a new limiter, whose numbers add up to less than 2^64, a call
-- succeeds exactly if all numbers up to and including its own add up to at most the limit; without a
-- limit (0), every call succeeds.
pub reserve_all-new :
    (limit : ℕ) (ns : List ℕ)
    → total ns < 2 ^ 64
    → reserve_all (new_limiter limit) ns ≡ (if limit == 0 then all_fine ns else within limit 0 ns)
reserve_all-new limit ns p = elim (Bool-cases (limit == 0)) [
  | inl t ↦ rw t (unlimited (new_limiter limit) ns t)
  | inr t ↦ rw t (reserve_all-within (new_limiter limit) ns t (omega arith))
]
