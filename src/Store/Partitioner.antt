-- ===== src/Store/Partitioner.antt =====
-- pkg/store/bucket.go: `gapBasedPartitioner`, which joins byte ranges of an object for fetching.
-- The ranges are a function of the index, as in the source. The outer loop takes fuel, one round
-- for each range; `none` means that the fuel ran out.
pub mod Cover
mod Tests
use mathlib.Core.Option
use promlts.Prelude.{
  ltb, leb, if◌then◌else◌, length, ℕ, zero, suc, ◌+◌, ◌%◌, ◌^◌, Option, none, some, List, [], ◌∷◌,
  map,
}

abbrev pub u64 : ℕ → ℕ
u64 n = n % 2 ^ 64

pub record Part : Type 0 where
  pub start : ℕ
  pub end : ℕ
  -- the half-open range of indices `ElemRng`
  pub first : ℕ
  pub last : ℕ

-- The variables of the inner loop at its end: `k`, the ranges from `k` on, and `p.End`.
pub record Grown : Type 0 where
  pub k : ℕ
  pub left : ℕ
  pub end : ℕ

module _ (max_gap_size : ℕ) (rng : ℕ → ℕ × ℕ) where
  -- The inner loop, over the `left` ranges from `k` on.
  pub grow : ℕ → ℕ → ℕ → Grown
  grow zero k end = record { k = k; left = 0; end = end }
  grow (suc left) k end =
      let (s, e) = rng k in
      let more = grow left (k + 1) (if leb end e then e else end) in
      if ltb (u64 (end + max_gap_size)) s
      then record { k = k; left = suc left; end = end }
      else more

  pub partition_from : ℕ → ℕ → ℕ → Option (List Part)
  partition_from fuel zero k = some []
  partition_from zero (suc left) k = none
  partition_from (suc fuel) (suc left) k =
      let (s, e) = rng k in
      let g = grow left (k + 1) e in
      Option.map (λ parts. record { start = s; end = g.end; first = k; last = g.k } ∷ parts)
        (partition_from fuel g.left g.k)

  pub partition : ℕ → Option (List Part)
  unfolding grow partition_from
  partition length = partition_from length length 0
