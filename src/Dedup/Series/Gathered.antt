-- ===== src/Dedup/Series/Gathered.antt =====
-- pkg/dedup/iter.go: how series are gathered, under any labels that are compared.
use mathlib.Core.Path.{subst}
use mathlib.Core.List.{append-nil, append_assoc}
use mathlib.Core.Option
use promlts.Labelpb.{Bytes, Label}
use promlts.Dedup.Series.{
  Series, DedupSeriesSet, peek_lset, next_replicas, from_peek, next_series, all_series,
}
use promlts.Prelude.{
  if◌then◌else◌, Bool-cases, Option-cases, length, length-append, ℕ, zero, suc, ◌≤◌, ◌<◌, ◌≡◌, refl,
  sym, ap, ◌∙◌, inl, inr, Bool, true, false, Option, none, some, List, [], ◌∷◌, ◌++◌, arith,
}

module _ {S : Type 0} (equal : List Label → List Label → Bool) (strip : Series S → List Label) where
  abbrev pub AreEqual : List Label → List (Series S) → Type 0
  AreEqual lset [] = Unit
  AreEqual lset (p ∷ ps) = (equal lset (strip p) ≡ true) × AreEqual lset ps

  -- The labels of the first replica, and replicas that have the same labels.
  abbrev pub IsGroup : List Label → List (Series S) → Type 0
  IsGroup lset [] = ⊥
  IsGroup lset (p ∷ ps) = (lset ≡ strip p) × AreEqual lset ps

  -- The series that follow begin with one that has other labels.
  abbrev pub IsApart : List Label → List (Series S) → Type 0
  IsApart lset [] = Unit
  IsApart lset (p ∷ ps) = equal lset (strip p) ≡ false

  abbrev pub Grouped : List (Series S) → List (List Label × List (Series S)) → Type 0
  Grouped series [] = series ≡ []
  Grouped series ((lset, ps) ∷ gs) =
      (rest : List (Series S)) × (series ≡ ps ++ rest)
      × IsGroup lset ps
      × IsApart lset rest
      × Grouped rest gs

  abbrev pub GroupedAll : List (Series S) → Option (List (List Label × List (Series S))) → Type 0
  GroupedAll series none = ⊥
  GroupedAll series (some gs) = Grouped series gs

module _ {S : Type 0} (equal : List Label → List Label → Bool) (is_replica : Bytes → Bool)
    (labels : ℕ) where
  abbrev stripped : Series S → List Label
  stripped p = peek_lset equal is_replica labels p

  abbrev with_peek : Option (Series S) → List (Series S) → List (Series S)
  with_peek none set = []
  with_peek (some p) set = p ∷ set

  -- The series that are not gathered yet.
  abbrev pub at_hand : DedupSeriesSet S → List (Series S)
  at_hand s = if s.ok then with_peek s.peek s.set else []

  record Gathered (lset : List Label) (replicas set : List (Series S)) (r : DedupSeriesSet S × Bool)
      : Type 0 where
    taken : List (Series S)
    rest : List (Series S)
    split : set ≡ taken ++ rest
    same : AreEqual equal stripped lset taken
    apart : IsApart equal stripped lset rest
    gathered : r.0.replicas ≡ replicas ++ taken
    same_lset : r.0.lset ≡ lset
    left : at_hand r.0 ≡ rest
    more : r.1 ≡ true
    fewer : length rest ≤ length set

  next_replicas-Gathered :
      (lset : List Label) (replicas : List (Series S)) (peek : Series S) (set : List (Series S))
      → 0 < length replicas
      → Gathered lset replicas set (next_replicas equal is_replica labels lset replicas peek set)
  unfolding next_replicas
  next_replicas-Gathered lset replicas peek [] h = record {
    taken = [];
    rest = [];
    split = refl;
    same = tt;
    apart = tt;
    gathered = sym (append-nil replicas);
    same_lset = refl;
    left = refl;
    more = ground arith;
    fewer = omega arith;
  }
  next_replicas-Gathered lset replicas peek (p ∷ set) h =
      elim (Bool-cases (equal lset (stripped p))) [
        | inr x ↦
            rw (next_replicas, x)
              (record {
                taken = [];
                rest = p ∷ set;
                split = refl;
                same = tt;
                apart = x;
                gathered = sym (append-nil replicas);
                same_lset = refl;
                left = refl;
                more = refl;
                fewer = omega arith;
              })
        | inl x ↦
            let longer : 0 < length (replicas ++ (p ∷ [])) =
              rw (length-append replicas (p ∷ [])) (omega arith) in
            let g = next_replicas-Gathered lset (replicas ++ (p ∷ [])) p set longer in
            rw (next_replicas, x)
              (record {
                taken = p ∷ g.taken;
                rest = g.rest;
                split = ap (◌∷◌ p) g.split;
                same = (x, g.same);
                apart = g.apart;
                gathered = g.gathered ∙ append_assoc replicas (p ∷ []) g.taken;
                same_lset = g.same_lset;
                left = g.left;
                more = g.more;
                fewer = omega (arith, g.fewer);
              })
      ]

  one_more :
      (p : Series S) (set : List (Series S)) (r : DedupSeriesSet S × Bool)
      (o : Option (List (List Label × List (Series S))))
      → Gathered (stripped p) (p ∷ []) set r
      → GroupedAll equal stripped (at_hand r.0) o
      → GroupedAll equal stripped (p ∷ set) (Option.map (λ gs. (r.0.lset, r.0.replicas) ∷ gs) o)
  one_more p set r none g h = absurd h
  one_more p set r (some gs) g h = (
    g.rest,
    ap (◌∷◌ p) g.split ∙ ap (λ l. l ++ g.rest) (sym g.gathered),
    subst (λ l. IsGroup equal stripped l r.0.replicas) (sym g.same_lset)
        (subst (IsGroup equal stripped (stripped p)) (sym g.gathered) (refl, g.same)),
    subst (λ l. IsApart equal stripped l g.rest) (sym g.same_lset) g.apart,
    subst (λ l. Grouped equal stripped l gs) g.left h,
  )

  pub all_series-Grouped :
      (fuel : ℕ) (s : DedupSeriesSet S)
      → length (at_hand s) < fuel
      → GroupedAll equal stripped (at_hand s) (all_series equal is_replica labels fuel s)
  unfolding all_series next_series from_peek
  all_series-Grouped zero s h = absurd (omega arith)
  all_series-Grouped (suc fuel) s h = elim (Bool-cases s.ok) [
    | inr x ↦ rw (all_series, next_series, x) refl
    | inl x ↦ elim (Option-cases s.peek) [
      | inl y ↦ rw (all_series, next_series, x, y) refl
      | inr (p, y) ↦
          let g = next_replicas-Gathered (stripped p) (p ∷ []) p s.set (omega arith) in
          let r = next_replicas equal is_replica labels (stripped p) (p ∷ []) p s.set in
          let short : length (at_hand r.0) < fuel = rw g.left (ground (arith, h, x, y, g.fewer)) in
          rw (all_series, next_series, from_peek, x, y, g.more)
            (one_more p s.set r _ g (all_series-Grouped fuel r.0 short))
    ]
  ]
