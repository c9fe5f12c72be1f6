-- ===== src/Pool/Sizes.antt =====
-- pkg/pool/pool.go: `NewBucketedBytes`.
use mathlib.Core.Path.{subst}
use promlts.Pool.{ok, stuck, BucketedBytes, Factor, empty_buckets, fill_sizes, new_bucketed_bytes}
use promlts.Prelude.{
  leb, leb→le, Bool-cases, All, All-append, ℕ, zero, suc, ◌+◌, ◌≤◌, ◌<◌, ◌≡◌, refl, inl, inr, false,
  none, some, List, [], ◌∷◌, ◌++◌, arith,
}

fill_sizes-bound :
    (f : Factor) (m fuel s : ℕ) (acc : List ℕ) {zs : List ℕ}
    → All (λ z. z ≤ m) acc
    → fill_sizes f m fuel s acc ≡ some zs
    → All (λ z. z ≤ m) zs
unfolding fill_sizes
fill_sizes-bound f m zero s acc h e = cc
fill_sizes-bound f m (suc fuel) s acc {zs} h e = elim (Bool-cases (leb s m)) [
  | inl t ↦
      fill_sizes-bound f m fuel (f.scale s) (acc ++ (s ∷ []))
        (All-append (λ z. z ≤ m) acc (s ∷ []) h (ground arith)) (rw t at e)
  | inr t ↦ let same : acc ≡ zs = ground arith in subst (λ l. All (λ z. z ≤ m) l) same h
]

fill_sizes_total :
    (f : Factor) (m fuel s : ℕ) (acc : List ℕ)
    → ((k : ℕ) → 1 ≤ k → k < f.scale k)
    → 1 ≤ s
    → 1 ≤ fuel
    → m + 2 ≤ fuel + s
    → (zs : List ℕ) × (fill_sizes f m fuel s acc ≡ some zs)
unfolding fill_sizes
fill_sizes_total f m zero s acc grows pos h enough = absurd (omega arith)
fill_sizes_total f m (suc fuel) s acc grows pos h enough = elim (Bool-cases (leb s m)) [
  | inl t ↦
      let up : s < f.scale s = grows s pos in
      let le : s ≤ m = leb→le s m t in
      rw t (
        fill_sizes_total f m fuel (f.scale s) (acc ++ (s ∷ [])) grows (omega arith) (omega arith)
          (omega arith))
  | inr t ↦ (acc, rw t)
]

fill_sizes_stuck :
    (f : Factor) (m fuel s : ℕ) (acc : List ℕ)
    → f.scale s ≡ s
    → s ≤ m
    → fill_sizes f m fuel s acc ≡ none
unfolding fill_sizes
fill_sizes_stuck f m zero s acc fixed h = refl
fill_sizes_stuck f m (suc fuel) s acc fixed h =
    ground (arith, fill_sizes_stuck f m fuel s (acc ++ (s ∷ [])) fixed h)

-- A factor that leaves the minimal size as it is passes the validation, and the loop then never
-- ends: whatever the fuel, it runs out.
pub new_never_ends :
    (fuel min_size max_size max_total : ℕ) (f : Factor)
    → 1 ≤ min_size
    → min_size ≤ max_size
    → f.below_one ≡ false
    → f.scale min_size ≡ min_size
    → new_bucketed_bytes fuel min_size max_size f max_total ≡ stuck
unfolding new_bucketed_bytes
new_never_ends fuel lo hi t f h1 h2 h3 h4 = ground (arith, fill_sizes_stuck f hi fuel lo [] h4 h2)

-- With a factor that makes every size larger, the constructor returns a pool for every valid pair
-- of bounds, within one round for each size up to the maximum: it is empty, nothing of it is in
-- use, and no bucket is larger than the maximal size.
pub new_returns :
    (min_size max_size max_total : ℕ) (f : Factor)
    → 1 ≤ min_size
    → 1 ≤ max_size
    → f.below_one ≡ false
    → ((k : ℕ) → 1 ≤ k → k < f.scale k)
    → (p : BucketedBytes) × (new_bucketed_bytes (max_size + 1) min_size max_size f max_total ≡ ok p)
      × (p.used_total ≡ 0)
      × (p.max_total ≡ max_total)
      × (p.buckets ≡ empty_buckets p.sizes)
      × All (λ z. z ≤ max_size) p.sizes
unfolding new_bucketed_bytes
new_returns lo hi t f h1 h2 h3 grows =
    let (zs, e) = fill_sizes_total f hi (hi + 1) lo [] grows h1 (omega arith) (omega arith) in
    (
      record { buckets = empty_buckets zs; sizes = zs; max_total = t; used_total = 0 },
      ground (arith, e),
      refl,
      refl,
      refl,
      fill_sizes-bound f hi (hi + 1) lo [] tt e,
    )
