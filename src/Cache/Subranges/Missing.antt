-- ===== src/Cache/Subranges/Missing.antt =====
-- pkg/store/cache/caching_bucket.go: the ranges that are fetched.
use promlts.Prelude.Dict.{nat_eq, get}
use promlts.Cache.Subranges.{Config, Rng, Hits, Plan, offsets_from, missing_of}
use promlts.Cache.Subranges.Fetched.{Aligned, Aligned-step, Aligned-next, HasHit}
use promlts.Cache.Subranges.Merging.{Covers, OrderedFrom, Ends}
use promlts.Prelude.{
  ltb, ◌==◌, Bool-cases, Option-cases, if_cases, ℕ, zero, suc, ◌+◌, ◌≤◌, ◌<◌, ap, ◌∙◌, ◌⊎◌, inl,
  inr, [], ◌∷◌, arith,
}

module _ (cfg : Config) (positive : 1 ≤ cfg.subrange_size) where
  abbrev sub : ℕ
  sub = cfg.subrange_size

  -- What a missing range starts and ends at.
  abbrev pub WithinPlan : Plan → ℕ → Type 0
  WithinPlan p n = (p.start_range ≤ n) × (n ≤ p.end_range) × Aligned sub n

  pub missing-Ends :
      (p : Plan) (hits : Hits) (fuel off : ℕ)
      → Aligned sub p.end_range
      → WithinPlan p off
      → Ends
          (WithinPlan p)
          (WithinPlan p)
          0
          (missing_of sub hits (offsets_from fuel sub p.end_range off))
  unfolding missing_of offsets_from
  missing-Ends p hits zero off e w = tt
  missing-Ends p hits (suc fuel) off e (lo, hi, a) =
      if_cases (λ l. Ends (WithinPlan p) (WithinPlan p) 0 (missing_of sub hits l))
        (ltb off p.end_range) (off ∷ offsets_from fuel sub p.end_range (off + sub)) []
        (λ y.
          let step = Aligned-step sub off p.end_range a e (ground arith) in
          let next : WithinPlan p (off + sub) = (omega arith, step, Aligned-next sub off a) in
          let rest = missing-Ends p hits fuel (off + sub) e next in
          elim (Option-cases (get hits off)) [
            | inl q ↦ rw (missing_of, q) (((lo, hi, a), next), rest)
            | inr (b, q) ↦ rw (missing_of, q) rest
          ])
        (λ y. tt)

  pub missing-Ordered :
      (last : Rng) (hits : Hits) (fuel end off : ℕ)
      → last.start ≤ off
      → last.end ≤ off + sub
      → OrderedFrom last (missing_of sub hits (offsets_from fuel sub end off))
  unfolding missing_of offsets_from
  missing-Ordered last hits zero end off s e = tt
  missing-Ordered last hits (suc fuel) end off s e =
      if_cases (λ l. OrderedFrom last (missing_of sub hits l)) (ltb off end)
        (off ∷ offsets_from fuel sub end (off + sub)) []
        (λ y. elim (Option-cases (get hits off)) [
          | inl q ↦
              rw (missing_of, q)
                (
                  s,
                  e,
                  missing-Ordered (record { start = off; end = off + sub }) hits fuel end
                      (off + sub) (omega arith) (omega arith),
                )
          | inr (b, q) ↦
              rw (missing_of, q)
                (missing-Ordered last hits fuel end (off + sub) (omega arith) (omega arith))
        ])
        (λ y. tt)

  pub missing-Covers :
      (hits : Hits) (fuel end off j : ℕ)
      → end ≤ off + fuel
      → Aligned sub off
      → Aligned sub j
      → off ≤ j
      → j < end
      → HasHit hits j
        ⊎ Covers
            (missing_of sub hits (offsets_from fuel sub end off))
            (record { start = j; end = j + sub })
  unfolding missing_of offsets_from
  missing-Covers hits zero end off j f a b l h = absurd (omega arith)
  missing-Covers hits (suc fuel) end off j f a b l h =
      if_cases
        (λ x. HasHit hits j ⊎ Covers (missing_of sub hits x) (record { start = j; end = j + sub }))
        (ltb off end) (off ∷ offsets_from fuel sub end (off + sub)) []
        (λ y. elim (Option-cases (get hits off)) [
          | inl q ↦
              rw (missing_of, q)
                (elim (Bool-cases (off == j)) [
                  | inl z ↦ inr (inl (ground arith, ground arith))
                  | inr z ↦
                      elim (missing-Covers hits fuel end (off + sub) j (omega arith)
                        (Aligned-next sub off a) b (Aligned-step sub off j a b (ground arith)) h) [
                          | inl x ↦ inl x
                          | inr x ↦ inr (inr x)
                        ]
                ])
          | inr (v, q) ↦
              rw (missing_of, q)
                (elim (Bool-cases (off == j)) [
                  | inl z ↦ inl (v, ap (get hits) {x = j} {y = off} (ground arith) ∙ q)
                  | inr z ↦
                      missing-Covers hits fuel end (off + sub) j (omega arith)
                        (Aligned-next sub off a) b (Aligned-step sub off j a b (ground arith)) h
                ])
        ])
        (λ y. absurd (ground arith))
