-- ===== src/Store/Partitioner/Cover.antt =====
-- pkg/store/bucket.go: the parts cover all ranges, in order, and are far apart.
use mathlib.Core.Path.{subst}
use promlts.Store.Partitioner.{u64, Part, Grown, grow, partition_from, partition}
use promlts.Prelude.{
  ltb, leb, if◌then◌else◌, Bool-cases, length, ℕ, zero, suc, ◌+◌, ◌^◌, ◌≤◌, ◌<◌, ◌≡◌, refl, inl,
  inr, some, List, [], ◌∷◌, arith,
}

module _ (gap : ℕ) (rng : ℕ → ℕ × ℕ) where
  -- `p` covers the ranges that it is for, and starts where the first of them does.
  pub record Covers (p : Part) : Type 0 where
    pub starts : p.start ≡ (rng p.first).0
    pub nonempty : p.first < p.last
    pub before : (i : ℕ) → p.first ≤ i → i < p.last → p.start ≤ (rng i).0
    pub after : (i : ℕ) → p.first ≤ i → i < p.last → (rng i).1 ≤ p.end

  abbrev pub Apart : Part → List Part → Type 0
  Apart p [] = Unit {0}
  Apart p (q ∷ ps) = p.end + gap < q.start

  -- The parts are for all ranges from `k` to `length`, without a hole or an overlap of indices.
  abbrev pub Tiles : ℕ → ℕ → List Part → Type 0
  Tiles length k [] = k ≡ length
  Tiles length k (p ∷ ps) = (p.first ≡ k) × Covers p × Apart p ps × Tiles length p.last ps

  record GrowsTo (n k end : ℕ) (g : Grown) : Type 0 where
    same : g.k + g.left ≡ k + n
    later : k ≤ g.k
    larger : end ≤ g.end
    covered : (i : ℕ) → k ≤ i → i < g.k → (rng i).1 ≤ g.end
    stopped : 0 < g.left → g.end + gap < (rng g.k).0

  Tiles-le : (length k : ℕ) (ps : List Part) → Tiles length k ps → k ≤ length
  Tiles-le length k [] h = omega arith
  Tiles-le length k (p ∷ ps) h = omega (arith, Tiles-le length p.last ps h.3, h.1.nonempty, h.0)

  Apart-Tiles :
      (p : Part) (length k : ℕ) (ps : List Part)
      → (k < length → p.end + gap < (rng k).0)
      → Tiles length k ps
      → Apart p ps
  Apart-Tiles p length k [] far h = tt
  Apart-Tiles p length k (q ∷ ps) far h =
      ground (arith, h.0, h.1.starts, h.1.nonempty, Tiles-le length q.last ps h.3)

  module _ (small : (i : ℕ) → (rng i).1 + gap < 2 ^ 64) where
    grow-GrowsTo : (n k end : ℕ) → end + gap < 2 ^ 64 → GrowsTo n k end (grow gap rng n k end)
    unfolding grow
    grow-GrowsTo zero k end fit = record {
      same = omega arith;
      later = omega arith;
      larger = omega arith;
      covered = λ i a b. absurd (omega arith);
      stopped = λ h. absurd (omega arith);
    }
    grow-GrowsTo (suc n) k end fit = elim (Bool-cases (ltb (u64 (end + gap)) (rng k).0)) [
      | inl t ↦ rw t (record {
        same = refl;
        later = omega arith;
        larger = omega arith;
        covered = λ i a b. absurd (omega arith);
        stopped = λ h. ground arith;
      })
      | inr t ↦
          let end' : ℕ = if leb end (rng k).1 then (rng k).1 else end in
          let more = grow-GrowsTo n (k + 1) end' (ground (arith, small k)) in
          rw t (record {
            same = omega (arith, more.same);
            later = omega (arith, more.later);
            larger = ground (arith, more.larger);
            covered = λ i a b. ground (arith, more.larger, more.covered i);
            stopped = more.stopped;
          })
    ]

    module _ (sorted : (i j : ℕ) → i ≤ j → (rng i).0 ≤ (rng j).0) where
      partition_from-Tiles :
          (fuel n k : ℕ)
          → n ≤ fuel
          → (ps : List Part) × (partition_from gap rng fuel n k ≡ some ps) × Tiles (k + n) k ps
      unfolding partition_from
      partition_from-Tiles fuel zero k h = ([], refl, omega arith)
      partition_from-Tiles zero (suc n) k h = absurd (omega arith)
      partition_from-Tiles (suc fuel) (suc n) k h =
          let g = grow gap rng n (k + 1) (rng k).1 in
          let to = grow-GrowsTo n (k + 1) (rng k).1 (small k) in
          let (ps, e, tiles) =
            partition_from-Tiles fuel g.left g.k (omega (arith, to.same, to.later)) in
          let p : Part = record { start = (rng k).0; end = g.end; first = k; last = g.k } in
          let covers : Covers p = record {
            starts = refl;
            nonempty = omega (arith, to.later);
            before = λ i a b. sorted k i a;
            after = λ i a b. ground (arith, to.larger, to.covered i);
          } in
          let apart : Apart p ps =
            Apart-Tiles p (g.k + g.left) g.k ps (λ more. to.stopped (omega arith)) tiles in
          let same : g.k + g.left ≡ k + suc n = omega (arith, to.same) in
          (p ∷ ps, rw e, (refl, covers, apart, subst (λ l. Tiles l g.k ps) same tiles))

      -- For ranges that are sorted by their start, and end below 2^64 with the gap added,
      -- `Partition` returns; its parts split the indices from 0 to `length` in order, each part has
      -- an index, starts where its first range does and covers all of its ranges, and between two
      -- parts in a row there is a gap larger than the maximal one.
      pub partition-Tiles :
          (length : ℕ) → (ps : List Part) × (partition gap rng length ≡ some ps) × Tiles length 0 ps
      unfolding partition
      partition-Tiles length =
          let (ps, e, tiles) = partition_from-Tiles length length 0 (omega arith) in
          let same : 0 + length ≡ length = omega arith in
          (ps, e, subst (λ l. Tiles l 0 ps) same tiles)
