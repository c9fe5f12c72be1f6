-- ===== src/Dedup/Iter/Rising.antt =====
-- pkg/dedup/iter.go: what the merged samples are.
use mathlib.Core.Path.{subst}
use promlts.Dedup.Iter.{
  Sample, DedupSeriesIterator, penalty, seek, new_dedup_series_iterator, advance, pick, next, at,
  emit, drain,
}
use promlts.Prelude.{
  ltb, leb, Bool-cases, length, ℕ, zero, suc, ◌+◌, ◌≤◌, ◌<◌, ◌≡◌, refl, ◌⊎◌, inl, inr, Bool, true,
  false, Option, none, some, List, [], ◌∷◌, arith,
}

abbrev pub IsAfter : Option ℕ → ℕ → Type 0
IsAfter none t = Unit
IsAfter (some last) t = last < t

module _ {V : Type 0} where
  abbrev pub Has : List (Sample V) → Sample V → Type 0
  Has [] x = ⊥
  Has (y ∷ ys) x = (x ≡ y) ⊎ Has ys x

  -- The times rise, from after the last one.
  abbrev pub Rises : Option ℕ → List (Sample V) → Type 0
  Rises last [] = Unit
  Rises last ((t, v) ∷ xs) = IsAfter last t × Rises (some t) xs

  abbrev pub AreOf : List (Sample V) → List (Sample V) → List (Sample V) → Type 0
  AreOf a b [] = Unit
  AreOf a b (x ∷ xs) = (Has a x ⊎ Has b x) × AreOf a b xs

  abbrev pub Merges :
      List (Sample V) → List (Sample V) → Option ℕ → Option (List (Sample V)) → Type 0
  Merges a b last none = ⊥
  Merges a b last (some xs) = Rises last xs × AreOf a b xs

  seek-Has : (t : ℕ) (xs : List (Sample V)) (x : Sample V) → Has (seek t xs) x → Has xs x
  unfolding seek
  seek-Has t [] x = λ h. h
  seek-Has t ((u, v) ∷ xs) x = elim (Bool-cases (ltb u t)) [
    | inl p ↦ rw p (λ h. inr (seek-Has t xs x h))
    | inr p ↦ rw p (λ h. h)
  ]

  advance-Has :
      (last : Option ℕ) (pen : ℕ) (xs : List (Sample V)) (x : Sample V)
      → Has (advance last pen xs) x
      → Has xs x
  advance-Has none pen xs x h = h
  advance-Has (some t) pen xs x h = seek-Has (t + 1 + pen) xs x h

  AreOf-mono :
      (a b a' b' : List (Sample V)) (xs : List (Sample V))
      → ((x : Sample V) → Has a' x → Has a x)
      → ((x : Sample V) → Has b' x → Has b x)
      → AreOf a' b' xs
      → AreOf a b xs
  AreOf-mono a b a' b' [] f g h = tt
  AreOf-mono a b a' b' (x ∷ xs) f g (inl l, h) = (inl (f x l), AreOf-mono a b a' b' xs f g h)
  AreOf-mono a b a' b' (x ∷ xs) f g (inr r, h) = (inr (g x r), AreOf-mono a b a' b' xs f g h)

  length-seek : (t : ℕ) (xs : List (Sample V)) → length (seek t xs) ≤ length xs
  unfolding seek
  length-seek t [] = omega arith
  length-seek t ((u, v) ∷ xs) = elim (Bool-cases (ltb u t)) [
    | inl p ↦ rw p (omega (arith, length-seek t xs))
    | inr p ↦ rw p (omega arith)
  ]

  length-seek_head :
      (t u : ℕ) (v : V) (xs : List (Sample V)) → u < t → length (seek t ((u, v) ∷ xs)) ≤ length xs
  unfolding seek
  length-seek_head t u v xs h = let p : ltb u t ≡ true = ground arith in rw p (length-seek t xs)

  abbrev FirstFrom : ℕ → List (Sample V) → Type 0
  FirstFrom t [] = Unit
  FirstFrom t ((u, v) ∷ xs) = t ≤ u

  seek-FirstFrom : (t : ℕ) (xs : List (Sample V)) → FirstFrom t (seek t xs)
  unfolding seek
  seek-FirstFrom t [] = tt
  seek-FirstFrom t ((u, v) ∷ xs) = elim (Bool-cases (ltb u t)) [
    | inl p ↦ rw p (seek-FirstFrom t xs)
    | inr p ↦ rw p (ground arith)
  ]

  abbrev FirstIsAfter : Option ℕ → List (Sample V) → Type 0
  FirstIsAfter last [] = Unit
  FirstIsAfter last ((u, v) ∷ xs) = IsAfter last u

  from_after :
      (last pen : ℕ) (xs : List (Sample V))
      → FirstFrom (last + 1 + pen) xs
      → FirstIsAfter (some last) xs
  from_after last pen [] h = tt
  from_after last pen ((u, v) ∷ xs) h = omega arith

  any_after : (xs : List (Sample V)) → FirstIsAfter none xs
  any_after [] = tt
  any_after ((u, v) ∷ xs) = tt

  advance-FirstIsAfter :
      (last : Option ℕ) (pen : ℕ) (xs : List (Sample V)) → FirstIsAfter last (advance last pen xs)
  advance-FirstIsAfter none pen xs = any_after xs
  advance-FirstIsAfter (some t) pen xs =
      from_after t pen (seek (t + 1 + pen) xs) (seek-FirstFrom (t + 1 + pen) xs)

  -- How many samples the replicas have left when they have advanced.
  abbrev pub left_of : DedupSeriesIterator V → ℕ
  left_of it = length (advance it.last_t it.pen_a it.a) + length (advance it.last_t it.pen_b it.b)

  -- A sample is picked.
  record Picked (last : Option ℕ) (a b : List (Sample V)) (it : DedupSeriesIterator V) (t : ℕ)
      (v : V) : Type 0 where
    time : it.last_t ≡ some t
    same_a : it.a ≡ a
    same_b : it.b ≡ b
    sample : at it ≡ some (t, v)
    after : IsAfter last t
    of_either : Has a (t, v) ⊎ Has b (t, v)
    fewer : left_of it < length a + length b

  abbrev Picks :
      Option ℕ → List (Sample V) → List (Sample V) → DedupSeriesIterator V × Bool → Type 0
  Picks last a b r = (r.1 ≡ false) ⊎ ((r.1 ≡ true) × ((x : Sample V) × Picked last a b r.0 x.0 x.1))

  pick-Picks :
      (it : DedupSeriesIterator V) (a b : List (Sample V))
      → FirstIsAfter it.last_t a
      → FirstIsAfter it.last_t b
      → Picks it.last_t a b (pick it a b)
  unfolding pick at
  pick-Picks it [] [] p q = inl refl
  pick-Picks it [] ((t, v) ∷ b) p q = inr (
    refl,
    (
      (t, v),
      record {
        time = refl;
        same_a = refl;
        same_b = refl;
        sample = refl;
        after = q;
        of_either = inr (inl refl);
        fewer =
            let h = length-seek_head (t + 1 + 0) t v b (omega arith) in
            let e = length-seek (t + 1 + it.pen_a) [] in omega (arith, h, e);
      },
    ),
  )
  pick-Picks it ((t, v) ∷ a) [] p q = inr (
    refl,
    (
      (t, v),
      record {
        time = refl;
        same_a = refl;
        same_b = refl;
        sample = refl;
        after = p;
        of_either = inl (inl refl);
        fewer =
            let h = length-seek_head (t + 1 + 0) t v a (omega arith) in
            let e = length-seek (t + 1 + it.pen_b) [] in omega (arith, h, e);
      },
    ),
  )
  pick-Picks it ((ta, va) ∷ a) ((tb, vb) ∷ b) p q = elim (Bool-cases (leb ta tb)) [
    | inl x ↦ rw x (
        inr (
          refl,
          (
            (ta, va),
            record {
              time = refl;
              same_a = refl;
              same_b = refl;
              sample = refl;
              after = p;
              of_either = inl (inl refl);
              fewer =
                  let h = length-seek_head (ta + 1 + 0) ta va a (omega arith) in
                  let e = length-seek (ta + 1 + penalty it.last_t ta) ((tb, vb) ∷ b) in
                  omega (arith, h, e);
            },
          ),
        ))
    | inr x ↦ rw x (
        inr (
          refl,
          (
            (tb, vb),
            record {
              time = refl;
              same_a = refl;
              same_b = refl;
              sample = refl;
              after = q;
              of_either = inr (inl refl);
              fewer =
                  let h = length-seek_head (tb + 1 + 0) tb vb b (omega arith) in
                  let e = length-seek (tb + 1 + penalty it.last_t tb) ((ta, va) ∷ a) in
                  omega (arith, h, e);
            },
          ),
        ))
  ]

  moved :
      (a b a' b' : List (Sample V)) (x : Sample V)
      → Has a' x ⊎ Has b' x
      → ((x : Sample V) → Has a' x → Has a x)
      → ((x : Sample V) → Has b' x → Has b x)
      → Has a x ⊎ Has b x
  moved a b a' b' x (inl l) f g = inl (f x l)
  moved a b a' b' x (inr r) f g = inr (g x r)

  emitted :
      (last : Option ℕ) (a b a' b' : List (Sample V)) (it : DedupSeriesIterator V) (t : ℕ) (v : V)
      (o : Option (List (Sample V)))
      → Picked last a' b' it t v
      → ((x : Sample V) → Has a' x → Has a x)
      → ((x : Sample V) → Has b' x → Has b x)
      → Merges it.a it.b it.last_t o
      → Merges a b last (emit (at it) o)
  emitted last a b a' b' it t v none k f g h = absurd h
  emitted last a b a' b' it t v (some xs) k f g (r, h) = rw k.sample (
    (k.after, subst (λ l. Rises l xs) k.time r),
    (
      moved a b a' b' (t, v) k.of_either f g,
      AreOf-mono a b it.a it.b xs (λ x m. f x (subst (λ l. Has l x) k.same_a m))
          (λ x m. g x (subst (λ l. Has l x) k.same_b m)) h,
    ),
  )

  drain-Merges :
      (fuel : ℕ) (it : DedupSeriesIterator V)
      → left_of it < fuel
      → Merges it.a it.b it.last_t (drain fuel it)
  unfolding drain next
  drain-Merges zero it h = absurd (omega arith)
  drain-Merges (suc fuel) it h =
      let a' = advance it.last_t it.pen_a it.a in
      let b' = advance it.last_t it.pen_b it.b in
      elim (pick-Picks it a' b' (advance-FirstIsAfter it.last_t it.pen_a it.a)
        (advance-FirstIsAfter it.last_t it.pen_b it.b)) [
          | inl p ↦ rw (drain, p) (tt, tt)
          | inr (p, ((t, v), k)) ↦
              rw (drain, p)
                (emitted it.last_t it.a it.b a' b' (pick it a' b').0 t v _ k
                  (advance-Has it.last_t it.pen_a it.a) (advance-Has it.last_t it.pen_b it.b)
                  (drain-Merges fuel (pick it a' b').0 (omega (arith, k.fewer, h))))
        ]

  -- The iteration over two replicas ends, with fuel for the samples of both. The times of the samples
  -- rise strictly, and every sample is one of a replica, whatever the replicas hold.
  pub new_iterator-Merges :
      (a b : List (Sample V))
      → Merges a b none (drain (suc (length a + length b)) (new_dedup_series_iterator a b))
  unfolding new_dedup_series_iterator
  new_iterator-Merges a b =
      drain-Merges (suc (length a + length b)) (new_dedup_series_iterator a b) (omega arith)
