-- ===== src/Store/BigEndian/Search.antt =====
-- The binary search of package sort, as `bigEndianPostings.Seek` uses it.
-- Once the test holds, it holds up to `n`.
use mathlib.Core.Path.{subst}
use promlts.Store.BigEndian.{search}
use promlts.Prelude.{
  ltb, Bool-cases, ℕ, zero, suc, ◌+◌, ◌/◌, ◌≤◌, ◌<◌, ◌≡◌, refl, inl, inr, Bool, true, false, some,
  arith,
}

abbrev pub IsMonotone : (ℕ → Bool) → ℕ → Type 0
IsMonotone f n = (a b : ℕ) → a ≤ b → b < n → f a ≡ true → f b ≡ true

-- `k` is the first number from `i` on, and below `j`, for which the test holds, or `j`.
pub record IsFirst (f : ℕ → Bool) (i j k : ℕ) : Type 0 where
  pub from : i ≤ k
  pub upto : k ≤ j
  pub below : (m : ℕ) → i ≤ m → m < k → f m ≡ false
  pub above : k < j → f k ≡ true

pub search-IsFirst :
    (fuel : ℕ) (f : ℕ → Bool) (n i j : ℕ)
    → IsMonotone f n
    → i ≤ j
    → j ≤ n
    → j < i + fuel
    → (k : ℕ) × (search fuel f i j ≡ some k) × IsFirst f i j k
unfolding search
search-IsFirst zero f n i j mono p q r = ground arith
search-IsFirst (suc fuel) f n i j mono p q r = elim (Bool-cases (ltb i j)) [
  | inr t ↦ (
    i,
    rw (t, search) refl,
    record {
      from = omega arith;
      upto = p;
      below = λ m a b. ground arith;
      above = λ a. ground arith;
    },
  )
  | inl t ↦ elim (Bool-cases (f ((i + j) / 2))) [
    | inl u ↦
        (let (k, e, first) =
            search-IsFirst fuel f n i ((i + j) / 2) mono (ground arith) (ground arith)
              (ground arith) in
          (k, rw (t, u, search) e, widen_up k first u))
    | inr u ↦
        (let (k, e, first) =
            search-IsFirst fuel f n ((i + j) / 2 + 1) j mono (ground arith) q (ground arith) in
          (k, rw (t, u, search) e, widen_down k first u t))
  ]
]
  where
    meet : (k : ℕ) → k ≤ (i + j) / 2 → ltb k ((i + j) / 2) ≡ false → (i + j) / 2 ≡ k
    meet k p t = ground arith

    apart : f ((i + j) / 2) ≡ true → f ((i + j) / 2) ≡ false → ⊥
    apart p q = ground arith

    widen_up : (k : ℕ) → IsFirst f i ((i + j) / 2) k → f ((i + j) / 2) ≡ true → IsFirst f i j k
    widen_up k first u = record {
      from = first.from;
      upto = omega (arith, first.upto);
      below = first.below;
      above = λ a. elim (Bool-cases (ltb k ((i + j) / 2))) [
        | inl t ↦ first.above (ground arith)
        | inr t ↦ subst (λ m. f m ≡ true) (meet k first.upto t) u
      ];
    }

    widen_down :
        (k : ℕ)
        → IsFirst f ((i + j) / 2 + 1) j k
        → f ((i + j) / 2) ≡ false
        → ltb i j ≡ true
        → IsFirst f i j k
    widen_down k first u t = record {
      from = ground (arith, first.from);
      upto = first.upto;
      below = λ m a b. elim (Bool-cases (ltb ((i + j) / 2) m)) [
        | inl v ↦ first.below m (ground arith) b
        | inr v ↦ elim (Bool-cases (f m)) [
          | inr w ↦ w
          | inl w ↦ absurd (apart (mono m ((i + j) / 2) (ground arith) (ground arith) w) u)
        ]
      ];
      above = first.above;
    }
