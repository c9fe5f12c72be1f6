-- ===== src/Cache/Subranges/Merging.antt =====
-- pkg/store/cache/caching_bucket.go: the merging of ranges.
use promlts.Cache.Subranges.{Rng, merge_from, merge_ranges, reduce_ranges}
use promlts.Prelude.{
  ltb, leb, Bool-cases, if_both, if_cases, length, All, ℕ, zero, suc, ◌+◌, ◌*◌, ◌≤◌, ◌≡◌, refl, ◌⊎◌,
  inl, inr, false, ◌&&◌, Option, none, some, List, [], ◌∷◌, arith,
}

-- A range lies in one of the list.
abbrev pub Covers : List Rng → Rng → Type 0
Covers [] x = ⊥
Covers (m ∷ ms) x = (m.start ≤ x.start) × (x.end ≤ m.end) ⊎ Covers ms x

-- Starts and ends do not go down.
abbrev pub OrderedFrom : Rng → List Rng → Type 0
OrderedFrom last [] = Unit
OrderedFrom last (r ∷ rs) = (last.start ≤ r.start) × (last.end ≤ r.end) × OrderedFrom r rs

abbrev pub IsOrdered : List Rng → Type 0
IsOrdered [] = Unit
IsOrdered (r ∷ rs) = OrderedFrom r rs

OrderedFrom-back :
    (last last' : Rng) (rs : List Rng)
    → last'.start ≤ last.start
    → last'.end ≤ last.end
    → OrderedFrom last rs
    → OrderedFrom last' rs
OrderedFrom-back last last' [] s e h = tt
OrderedFrom-back last last' (r ∷ rs) s e (p, q, h) = (omega arith, omega arith, h)

merge_from-Covers :
    (limit : ℕ) (last : Rng) (rs : List Rng) (x : Rng)
    → OrderedFrom last rs
    → Covers (last ∷ rs) x
    → Covers (merge_from limit last rs) x
unfolding merge_from
merge_from-Covers limit last [] x o c = c
merge_from-Covers limit last (r ∷ rs) x (p, q, o) c =
    let wide : Rng = record { start = last.start; end = r.end } in
    if_both (λ l. Covers l x) (leb r.start (last.end + limit)) (merge_from limit wide rs)
      (last ∷ merge_from limit r rs)
      (merge_from-Covers limit wide rs x (OrderedFrom-back r wide rs p (omega arith) o) (elim c [
        | inl (s, e) ↦ inl (s, omega arith)
        | inr (inl (s, e)) ↦ inl (omega arith, e)
        | inr (inr h) ↦ inr h
      ]))
      (elim c [ inl h ↦ inl h | inr h ↦ inr (merge_from-Covers limit r rs x o h) ])

-- Whatever was covered is covered by the merged ranges.
pub merge_ranges-Covers :
    (rs : List Rng) (limit : ℕ) (x : Rng)
    → IsOrdered rs
    → Covers rs x
    → Covers (merge_ranges rs limit) x
unfolding merge_ranges
merge_ranges-Covers [] limit x o c = c
merge_ranges-Covers (r ∷ rs) limit x o c = merge_from-Covers limit r rs x o c

merge_from-IsOrdered :
    (limit : ℕ) (before last : Rng) (rs : List Rng)
    → before.start ≤ last.start
    → before.end ≤ last.end
    → OrderedFrom last rs
    → OrderedFrom before (merge_from limit last rs)
unfolding merge_from
merge_from-IsOrdered limit before last [] s e o = (s, e, tt)
merge_from-IsOrdered limit before last (r ∷ rs) s e (p, q, o) =
    let wide : Rng = record { start = last.start; end = r.end } in
    if_both (OrderedFrom before) (leb r.start (last.end + limit)) (merge_from limit wide rs)
      (last ∷ merge_from limit r rs)
      (merge_from-IsOrdered limit before wide rs s (omega arith)
        (OrderedFrom-back r wide rs p (omega arith) o))
      (s, e, merge_from-IsOrdered limit last r rs p q o)

pub OrderedFrom-IsOrdered : (before : Rng) (rs : List Rng) → OrderedFrom before rs → IsOrdered rs
OrderedFrom-IsOrdered before [] o = tt
OrderedFrom-IsOrdered before (r ∷ rs) (p, q, o) = o

pub merge_ranges-IsOrdered :
    (rs : List Rng) (limit : ℕ) → IsOrdered rs → IsOrdered (merge_ranges rs limit)
unfolding merge_ranges
merge_ranges-IsOrdered [] limit o = tt
merge_ranges-IsOrdered (r ∷ rs) limit o =
    OrderedFrom-IsOrdered r _ (merge_from-IsOrdered limit r r rs (omega arith) (omega arith) o)

-- Every merged range starts where one starts and ends where one ends.
merge_from-All :
    (P Q : ℕ → Type 0) (limit : ℕ) (last : Rng) (rs : List Rng)
    → P last.start × Q last.end
    → All (λ r. P r.start × Q r.end) rs
    → All (λ r. P r.start × Q r.end) (merge_from limit last rs)
unfolding merge_from
merge_from-All P Q limit last [] h a = (h, tt)
merge_from-All P Q limit last (r ∷ rs) (s, e) ((s', e'), a) =
    let wide : Rng = record { start = last.start; end = r.end } in
    if_both (All (λ x. P x.start × Q x.end)) (leb r.start (last.end + limit))
      (merge_from limit wide rs) (last ∷ merge_from limit r rs)
      (merge_from-All P Q limit wide rs (s, e') a)
      ((s, e), merge_from-All P Q limit r rs (s', e') a)

pub merge_ranges-All :
    (P Q : ℕ → Type 0) (rs : List Rng) (limit : ℕ)
    → All (λ r. P r.start × Q r.end) rs
    → All (λ r. P r.start × Q r.end) (merge_ranges rs limit)
unfolding merge_ranges
merge_ranges-All P Q [] limit a = tt
merge_ranges-All P Q (r ∷ rs) limit (h, a) = merge_from-All P Q limit r rs h a

-- A limit that reaches from one end to the other leaves one range.
length-merge_wide :
    (low high limit : ℕ) (last : Rng) (rs : List Rng)
    → low ≤ last.end
    → high ≤ low + limit
    → All (λ r. (r.start ≤ high) × (low ≤ r.end)) rs
    → length (merge_from limit last rs) ≡ 1
unfolding merge_from
length-merge_wide low high limit last [] l h a = refl
length-merge_wide low high limit last (r ∷ rs) l h ((s, e), a) =
    let wide : Rng = record { start = last.start; end = r.end } in
    if_cases (λ x. length x ≡ 1) (leb r.start (last.end + limit)) (merge_from limit wide rs)
      (last ∷ merge_from limit r rs) (λ p. length-merge_wide low high limit wide rs e h a)
      (λ p. absurd (ground arith))

module _ (P Q : ℕ → Type 0) (max_requests : ℕ) where
  abbrev pub Ends : List Rng → Type 0
  Ends rs = All (λ r. P r.start × Q r.end) rs

  -- What the loop over the limits gives: as many ranges as are allowed, or any number if there is
  -- no maximum, which cover what was covered, and start and end where the given ones do.
  pub record Reduced (missing rs : List Rng) : Type 0 where
    pub few : (max_requests ≡ 0) ⊎ (length rs ≤ max_requests)
    pub covers : (x : Rng) → Covers missing x → Covers rs x
    pub ends : Ends rs

  abbrev pub Reduces : List Rng → Option (List Rng) → Type 0
  Reduces missing none = ⊥
  Reduces missing (some rs) = Reduced missing rs

  Reduces-back :
      (missing merged : List Rng) (o : Option (List Rng))
      → ((x : Rng) → Covers missing x → Covers merged x)
      → Reduces merged o
      → Reduces missing o
  Reduces-back missing merged none h r = r
  Reduces-back missing merged (some rs) h r = record {
    few = r.few;
    covers = λ x c. r.covers x (h x c);
    ends = r.ends;
  }

  done :
      (missing : List Rng)
      → IsOrdered missing
      → Ends missing
      → (ltb 0 max_requests && ltb max_requests (length missing)) ≡ false
      → Reduces missing (some missing)
  done missing o a h = record { few = ground arith; covers = λ x c. c; ends = a }

  pub one_range :
      (fuel limit : ℕ) (missing : List Rng)
      → IsOrdered missing
      → Ends missing
      → length missing ≤ 1
      → 1 ≤ fuel
      → Reduces missing (reduce_ranges fuel max_requests limit missing)
  unfolding reduce_ranges
  one_range zero limit missing o a h f = absurd (omega arith)
  one_range (suc fuel) limit missing o a h f =
      let few : (ltb 0 max_requests && ltb max_requests (length missing)) ≡ false = ground arith in
      rw (reduce_ranges, few) (done missing o a few)

  module _ (low high : ℕ) (starts_below : (n : ℕ) → P n → n ≤ high)
      (ends_above : (n : ℕ) → Q n → low ≤ n) where
    bounds : (rs : List Rng) → Ends rs → All (λ r. (r.start ≤ high) × (low ≤ r.end)) rs
    bounds [] a = tt
    bounds (r ∷ rs) ((p, q), a) = ((starts_below r.start p, ends_above r.end q), bounds rs a)

    length-merged :
        (limit : ℕ) (rs : List Rng)
        → high ≤ low + limit
        → Ends rs
        → length (merge_ranges rs limit) ≤ 1
    unfolding merge_ranges
    length-merged limit [] h a = omega arith
    length-merged limit (r ∷ rs) h ((p, q), a) =
        omega (arith, length-merge_wide low high limit r rs (ends_above r.end q) h (bounds rs a))

    -- The limit doubles, so the loop ends with as much fuel as the whole range is long.
    pub reduce_ranges-Reduces :
        (fuel limit : ℕ) (missing : List Rng)
        → IsOrdered missing
        → Ends missing
        → 1 ≤ limit
        → 2 ≤ fuel
        → high + 2 ≤ low + limit + fuel
        → Reduces missing (reduce_ranges fuel max_requests limit missing)
    unfolding reduce_ranges
    reduce_ranges-Reduces zero limit missing o a l f h = absurd (omega arith)
    reduce_ranges-Reduces (suc fuel) limit missing o a l f h =
        let merged = merge_ranges missing limit in
        let mo = merge_ranges-IsOrdered missing limit o in
        let ma = merge_ranges-All P Q missing limit a in
        let rest = reduce_ranges fuel max_requests (limit * 2) merged in
        if_cases (Reduces missing) (ltb 0 max_requests && ltb max_requests (length missing)) rest
          (some missing)
          (λ p.
            Reduces-back missing merged rest (λ x c. merge_ranges-Covers missing limit x o c)
              (elim (Bool-cases (leb high (low + limit))) [
                | inl wide ↦
                    one_range fuel (limit * 2) merged mo ma
                      (length-merged limit missing (ground arith) a) (omega arith)
                | inr narrow ↦
                    reduce_ranges-Reduces fuel (limit * 2) merged mo ma (omega arith) (ground arith)
                      (ground arith)
              ]))
          (λ p. done missing o a p)
