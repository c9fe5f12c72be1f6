-- ===== src/Dedup/Series/Own.antt =====
-- pkg/dedup/iter.go: the labels that are no replica labels, and how many are at the end.
use mathlib.Core.List.{append-nil, reverse, reverse_aux}
use promlts.Labelpb.{Bytes, Label}
use promlts.Dedup.Series.{count_last}
use promlts.Prelude.{
  if◌then◌else◌, length, All, take, ℕ, zero, suc, ◌+◌, ◌≤◌, ◌≡◌, refl, ap, Bool, true, false, List,
  [], ◌∷◌, ◌++◌, arith,
}

All-reverse_aux :
    (Q : Label → Type 0) (xs ys : List Label) → All Q xs → All Q ys → All Q (reverse_aux xs ys)
All-reverse_aux Q [] ys h k = k
All-reverse_aux Q (x ∷ xs) ys (q, h) k = All-reverse_aux Q xs (x ∷ ys) h (q, k)

pub All-reverse : (Q : Label → Type 0) (ls : List Label) → All Q ls → All Q (reverse ls)
All-reverse Q ls h = All-reverse_aux Q ls [] h tt

length-reverse_aux : (xs ys : List Label) → length (reverse_aux xs ys) ≡ length xs + length ys
length-reverse_aux [] ys = omega arith
length-reverse_aux (x ∷ xs) ys = omega (arith, length-reverse_aux xs (x ∷ ys))

pub length-reverse : (ls : List Label) → length (reverse ls) ≡ length ls
length-reverse ls = omega (arith, length-reverse_aux ls [])

pub take-append : (xs ys : List Label) → take (length xs) (xs ++ ys) ≡ xs
take-append [] ys = refl
take-append (x ∷ xs) ys = ap (◌∷◌ x) (take-append xs ys)

pub none_replica : (own replicas : List Label) → length replicas ≡ 0 → own ++ replicas ≡ own
none_replica own [] h = append-nil own
none_replica own (l ∷ replicas) h = absurd (omega arith)

module _ (is_replica : Bytes → Bool) where
  -- The labels that are no replica labels.
  abbrev pub own_labels : List Label → List Label
  own_labels [] = []
  own_labels (l ∷ ls) = if is_replica l.name then own_labels ls else l ∷ own_labels ls

  abbrev pub AreOwn : List Label → Type 0
  AreOwn ls = All (λ l. is_replica l.name ≡ false) ls

  abbrev pub AreReplicas : List Label → Type 0
  AreReplicas ls = All (λ l. is_replica l.name ≡ true) ls

  pub own_labels-append :
      (own replicas : List Label)
      → AreOwn own
      → AreReplicas replicas
      → own_labels (own ++ replicas) ≡ own
  own_labels-append [] [] h k = refl
  own_labels-append [] (l ∷ replicas) h (q, k) = rw q (own_labels-append [] replicas h k)
  own_labels-append (l ∷ own) replicas (q, h) k =
      rw q (ap (◌∷◌ l) (own_labels-append own replicas h k))

  count_last-own : (n : ℕ) (ls : List Label) → AreOwn ls → count_last is_replica n ls ≡ 0
  unfolding count_last
  count_last-own zero ls h = refl
  count_last-own (suc n) [] h = refl
  count_last-own (suc n) (l ∷ ls) (q, h) = rw q (omega (arith, count_last-own n ls h))

  pub count_last-append :
      (n : ℕ) (replicas ls : List Label)
      → AreReplicas replicas
      → AreOwn ls
      → length replicas ≤ n
      → count_last is_replica n (replicas ++ ls) ≡ length replicas
  unfolding count_last
  count_last-append n [] ls h k p = count_last-own n ls k
  count_last-append zero (l ∷ replicas) ls h k p = absurd (omega arith)
  count_last-append (suc n) (l ∷ replicas) ls (q, h) k p =
      rw q (omega (arith, count_last-append n replicas ls h k (omega arith)))
