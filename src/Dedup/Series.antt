-- ===== src/Dedup/Series.antt =====
-- pkg/dedup/iter.go: the series set that gathers the replicas of each series. The series of a store
-- come in an order in which replicas are adjacent. `labels.Equal` of Prometheus is a parameter.
pub mod Gathered
pub mod Groups
pub mod Own
use mathlib.Core.List.{reverse}
use mathlib.Core.Option
use promlts.Labelpb.{Bytes, Label}
use promlts.Prelude.{
  ltb, ◌==◌, if◌then◌else◌, length, take, ℕ, zero, suc, ◌+◌, ◌-◌, Bool, true, false, not, Option,
  none, some, List, [], ◌∷◌, ◌++◌,
}

-- A series has its labels and its samples.
abbrev pub Series : Type 0 → Type 0
Series S = List Label × S

pub record DedupSeriesSet (S : Type 0) : Type 0 where
  -- What the set has after the series at hand.
  pub set : List (Series S)
  pub replicas : List (Series S)
  pub lset : List Label
  -- `none` before the first series.
  pub peek : Option (Series S)
  pub ok : Bool

-- The replica labels among the last ones, so many, which come first here.
pub count_last : (Bytes → Bool) → ℕ → List Label → ℕ
count_last is_replica zero ls = 0
count_last is_replica (suc n) [] = 0
count_last is_replica (suc n) (l ∷ ls) =
    (if is_replica l.name then 1 else 0) + count_last is_replica n ls

module _ {S : Type 0} (equal : List Label → List Label → Bool) (is_replica : Bytes → Bool)
    (labels : ℕ) where
  -- The labels without the replica labels; `labels` is the number of replica labels.
  pub peek_lset : Series S → List Label
  peek_lset (lset, x) =
      if labels == 0
      then lset
      else take (length lset - count_last is_replica labels (reverse lset)) lset

  pub new_series_set : List (Series S) → DedupSeriesSet S
  new_series_set [] = record { set = []; replicas = []; lset = []; peek = none; ok = false }
  new_series_set (p ∷ set) = record {
    set = set;
    replicas = [];
    lset = [];
    peek = some p;
    ok = true;
  }

  -- The private `next`, with the fields that it changes.
  pub next_replicas :
      List Label → List (Series S) → Series S → List (Series S) → DedupSeriesSet S × Bool
  next_replicas lset replicas peek [] = (
    record { set = []; replicas = replicas; lset = lset; peek = some peek; ok = false },
    ltb 0 (length replicas),
  )
  next_replicas lset replicas peek (p ∷ set) =
      let more = next_replicas lset (replicas ++ (p ∷ [])) p set in
      if not (equal lset (peek_lset p))
      then (record { set = set; replicas = replicas; lset = lset; peek = some p; ok = true }, true)
      else more

  pub from_peek : DedupSeriesSet S → Option (Series S) → DedupSeriesSet S × Bool
  from_peek s none = (s, false)
  from_peek s (some p) = next_replicas (peek_lset p) (p ∷ []) p s.set

  -- There is a series at hand when `ok` is set.
  pub next_series : DedupSeriesSet S → DedupSeriesSet S × Bool
  next_series s = if not s.ok then (s, false) else from_peek s s.peek

  -- All pairs of a label set and its replicas, from which `At` makes a series; `none` runs out of fuel.
  pub all_series : ℕ → DedupSeriesSet S → Option (List (List Label × List (Series S)))
  all_series zero s = none
  all_series (suc fuel) s =
      let (s', more) = next_series s in
      let rest = all_series fuel s' in
      if more then Option.map (λ gs. (s'.lset, s'.replicas) ∷ gs) rest else some []
