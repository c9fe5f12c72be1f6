-- ===== src/Dedup/Iter.antt =====
-- pkg/dedup/iter.go: the iterator that merges the samples of two replicas of a gauge. The iterator of a
-- replica is the samples that are left, the current one first; it is exhausted when there are none.
-- Times are milliseconds, from the epoch on, and do not wrap; a value is only passed on. The adjustment of counters,
-- which adds floating-point numbers, is left out.
pub mod Rising
pub mod Same
use mathlib.Core.Option
use promlts.Prelude.{
  ltb, leb, if◌then◌else◌, ℕ, zero, suc, ◌+◌, ◌-◌, ◌*◌, Bool, true, false, Option, none, some, List,
  [], ◌∷◌,
}

abbrev pub Sample : Type 0 → Type 0
Sample V = ℕ × V

pub record DedupSeriesIterator (V : Type 0) : Type 0 where
  pub a : List (Sample V)
  pub b : List (Sample V)
  -- `none` is the least `int64`.
  pub last_t : Option ℕ
  pub pen_a : ℕ
  pub pen_b : ℕ
  pub use_a : Bool

abbrev pub initial_penalty : ℕ
initial_penalty = 5000

abbrev pub penalty : Option ℕ → ℕ → ℕ
penalty none t = initial_penalty
penalty (some last) t = 2 * (t - last)

module _ {V : Type 0} where
  -- The `Seek` of a replica: the first sample that is not before the time.
  pub seek : ℕ → List (Sample V) → List (Sample V)
  seek t [] = []
  seek t ((u, v) ∷ xs) = let rest = seek t xs in if ltb u t then rest else (u, v) ∷ xs

  pub new_dedup_series_iterator : List (Sample V) → List (Sample V) → DedupSeriesIterator V
  new_dedup_series_iterator a b = record {
    a = a;
    b = b;
    last_t = none;
    pen_a = 0;
    pen_b = 0;
    use_a = false;
  }

  -- Before the first sample a replica is nowhere moved.
  abbrev pub advance : Option ℕ → ℕ → List (Sample V) → List (Sample V)
  advance none pen xs = xs
  advance (some t) pen xs = seek (t + 1 + pen) xs

  -- The choice between the replicas, after both have advanced.
  pub pick :
      DedupSeriesIterator V → List (Sample V) → List (Sample V) → DedupSeriesIterator V × Bool
  pick it [] [] = (record it { a = []; b = []; use_a = false }, false)
  pick it [] ((tb, vb) ∷ b) =
      (record it { a = []; b = (tb, vb) ∷ b; use_a = false; last_t = some tb; pen_b = 0 }, true)
  pick it ((ta, va) ∷ a) [] =
      (record it { a = (ta, va) ∷ a; b = []; use_a = true; last_t = some ta; pen_a = 0 }, true)
  pick it ((ta, va) ∷ a) ((tb, vb) ∷ b) = (
    if leb ta tb
        then record {
          a = (ta, va) ∷ a;
          b = (tb, vb) ∷ b;
          use_a = true;
          last_t = some ta;
          pen_a = 0;
          pen_b = penalty it.last_t ta;
        }
        else record {
          a = (ta, va) ∷ a;
          b = (tb, vb) ∷ b;
          use_a = false;
          last_t = some tb;
          pen_a = penalty it.last_t tb;
          pen_b = 0;
        },
    true,
  )

  pub next : DedupSeriesIterator V → DedupSeriesIterator V × Bool
  next it = pick it (advance it.last_t it.pen_a it.a) (advance it.last_t it.pen_b it.b)

  -- The current sample of a replica; code that asks an exhausted one is at fault.
  abbrev pub current : List (Sample V) → Option (Sample V)
  current [] = none
  current (x ∷ xs) = some x

  pub at : DedupSeriesIterator V → Option (Sample V)
  at it = if it.use_a then current it.a else current it.b

  abbrev pub emit : Option (Sample V) → Option (List (Sample V)) → Option (List (Sample V))
  emit none rest = none
  emit (some x) rest = Option.map (λ xs. x ∷ xs) rest

  -- All samples that `Next` and `At` give; `none` runs out of fuel,
  -- or asks an exhausted replica.
  pub drain : ℕ → DedupSeriesIterator V → Option (List (Sample V))
  drain zero it = none
  drain (suc fuel) it =
      let (it', more) = next it in
      let rest = drain fuel it' in if more then emit (at it') rest else some []
