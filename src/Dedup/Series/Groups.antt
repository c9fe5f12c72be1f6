-- ===== src/Dedup/Series/Groups.antt =====
-- pkg/dedup/iter.go: the replicas that are gathered.
use mathlib.Core.Path.{subst}
use mathlib.Core.List.{reverse, reverse-append}
use promlts.Labelpb.{Bytes, Label}
use promlts.Dedup.Series.{Series, count_last, peek_lset, new_series_set, all_series}
use promlts.Dedup.Series.Own.{
  All-reverse, length-reverse, take-append, none_replica, own_labels, AreOwn, AreReplicas,
  own_labels-append, count_last-append,
}
use promlts.Dedup.Series.Gathered.{
  AreEqual, IsGroup, IsApart, Grouped, GroupedAll, all_series-Grouped,
}
use promlts.Prelude.{
  ◌==◌, Bool-cases, length, length-append, All, All-split, ℕ, suc, ◌-◌, ◌≤◌, ◌≡◌, sym, ap, ◌∙◌, inl,
  inr, Bool, true, false, Option, none, some, List, [], ◌∷◌, ◌++◌, arith,
}

module _ {S : Type 0} (equal : List Label → List Label → Bool) (is_replica : Bytes → Bool)
    (labels : ℕ) where
  abbrev stripped : Series S → List Label
  stripped p = peek_lset equal is_replica labels p

  -- The replica labels come after the others, and are no more than there are names of such.
  abbrev pub ReplicasLast : Series S → Type 0
  ReplicasLast p =
      (own : List Label) × (replicas : List Label) × (p.0 ≡ own ++ replicas)
      × AreOwn is_replica own
      × AreReplicas is_replica replicas
      × (length replicas ≤ labels)

  peek_lset-append :
      (own replicas : List Label) (x : S)
      → AreOwn is_replica own
      → AreReplicas is_replica replicas
      → length replicas ≤ labels
      → peek_lset equal is_replica labels (own ++ replicas, x) ≡ own
  unfolding peek_lset
  peek_lset-append own replicas x h k m =
      let r = reverse-append own replicas in
      let c : count_last is_replica labels (reverse (own ++ replicas)) ≡ length replicas =
        ap (count_last is_replica labels) r
        ∙ count_last-append is_replica labels (reverse replicas) (reverse own)
            (All-reverse (λ l. is_replica l.name ≡ true) replicas k)
            (All-reverse (λ l. is_replica l.name ≡ false) own h)
            (omega (arith, length-reverse replicas, m))
        ∙ length-reverse replicas in
      elim (Bool-cases (labels == 0)) [
        | inr z ↦
            let t : length (own ++ replicas) - length replicas ≡ length own =
              omega (arith, length-append own replicas) in
            rw (z, c, t) (take-append own replicas)
        | inl z ↦ rw z (none_replica own replicas (ground arith))
      ]

  peek_lset-own :
      (p : Series S)
      → ReplicasLast p
      → peek_lset equal is_replica labels p ≡ own_labels is_replica p.0
  peek_lset-own (lset, x) (own, replicas, e, h, k, m) =
      subst (λ l. peek_lset equal is_replica labels (l, x) ≡ own_labels is_replica l) (sym e)
        (peek_lset-append own replicas x h k m
          ∙ sym (own_labels-append is_replica own replicas h k))

  abbrev pub own_of : Series S → List Label
  own_of p = own_labels is_replica p.0

  AreEqual-own :
      (lset : List Label) (ps : List (Series S))
      → All ReplicasLast ps
      → AreEqual equal stripped lset ps
      → AreEqual equal own_of lset ps
  AreEqual-own lset [] h e = tt
  AreEqual-own lset (p ∷ ps) (r, h) (q, e) =
      (ap (equal lset) (sym (peek_lset-own p r)) ∙ q, AreEqual-own lset ps h e)

  IsGroup-own :
      (lset : List Label) (ps : List (Series S))
      → All ReplicasLast ps
      → IsGroup equal stripped lset ps
      → IsGroup equal own_of lset ps
  IsGroup-own lset [] h g = g
  IsGroup-own lset (p ∷ ps) (r, h) (q, g) = (q ∙ peek_lset-own p r, AreEqual-own lset ps h g)

  IsApart-own :
      (lset : List Label) (ps : List (Series S))
      → All ReplicasLast ps
      → IsApart equal stripped lset ps
      → IsApart equal own_of lset ps
  IsApart-own lset [] h g = tt
  IsApart-own lset (p ∷ ps) (r, h) g = ap (equal lset) (sym (peek_lset-own p r)) ∙ g

  Grouped-own :
      (series : List (Series S)) (gs : List (List Label × List (Series S)))
      → All ReplicasLast series
      → Grouped equal stripped series gs
      → Grouped equal own_of series gs
  Grouped-own series [] h g = g
  Grouped-own series ((lset, ps) ∷ gs) h (rest, e, g, a, k) =
      let (l, r) = All-split ReplicasLast ps rest (subst (All ReplicasLast) e h) in
      (rest, e, IsGroup-own lset ps l g, IsApart-own lset rest r a, Grouped-own rest gs r k)

  GroupedAll-own :
      (series : List (Series S)) (o : Option (List (List Label × List (Series S))))
      → All ReplicasLast series
      → GroupedAll equal stripped series o
      → GroupedAll equal own_of series o
  GroupedAll-own series none h g = g
  GroupedAll-own series (some gs) h g = Grouped-own series gs h g

  new_series_set-GroupedAll :
      (series : List (Series S))
      → GroupedAll equal stripped series (
          all_series equal is_replica labels
            (suc (length series))
            (new_series_set equal is_replica labels series))
  unfolding new_series_set
  new_series_set-GroupedAll [] = all_series-Grouped equal is_replica labels 1 _ (omega arith)
  new_series_set-GroupedAll (p ∷ series) =
      all_series-Grouped equal is_replica labels (suc (suc (length series))) _ (omega arith)

  -- In every series the replica labels come after the others. Then the iteration ends, with fuel for
  -- the series, and gives groups of adjacent series that, put one after the other, are the series of the
  -- store. A group has the labels of its first series that are no replica labels, every other of its
  -- series has the same ones, and the series after it does not.
  pub new_series_set-Grouped :
      (series : List (Series S))
      → All ReplicasLast series
      → GroupedAll equal own_of series (
          all_series equal is_replica labels
            (suc (length series))
            (new_series_set equal is_replica labels series))
  new_series_set-Grouped series h = GroupedAll-own series _ h (new_series_set-GroupedAll series)
