-- ===== src/Cache/Subranges/Whole.antt =====
-- pkg/store/cache/caching_bucket.go: a cached range is the range of the object.
use promlts.Labelpb.{Bytes}
use promlts.Prelude.Dict.{nat_eq}
use promlts.Cache.Subranges.{
  Config, Rng, Hits, Plan, offsets_from, missing_of, merge_ranges, reduce_ranges, fetch_subranges,
  fetch_ranges, fetch_missing_subranges,
}
use promlts.Cache.Subranges.Fetched.{
  Aligned, part, HasHit, IsPlan, AreParts, Grown, Filled, Fills, fetch_subranges-Fills,
}
use promlts.Cache.Subranges.Merging.{
  Covers, IsOrdered, merge_ranges-Covers, OrderedFrom-IsOrdered, merge_ranges-IsOrdered,
  merge_ranges-All, Ends, Reduces, one_range, reduce_ranges-Reduces,
}
use promlts.Cache.Subranges.Missing.{WithinPlan, missing-Ends, missing-Ordered, missing-Covers}
use promlts.Prelude.{
  ◌==◌, Bool-cases, length, ℕ, zero, suc, ◌+◌, ◌-◌, ◌≤◌, ◌<◌, ◌≡◌, refl, ◌⊎◌, inl, inr, Option,
  none, some, List, [], ◌∷◌, arith,
}

module _ (object : Bytes) (cfg : Config) (positive : 1 ≤ cfg.subrange_size)
    (get_range : ℕ → ℕ → Option Bytes) where
  abbrev sub : ℕ
  sub = cfg.subrange_size

  -- The bucket fails, or gives the bytes of the object.
  abbrev pub AnswersFor : Type 0
  AnswersFor =
      (off len : ℕ) → (get_range off len ≡ none) ⊎ (get_range off len ≡ some (part object off len))

  abbrev pub AnyFails : Type 0
  AnyFails = (off : ℕ) × (len : ℕ) × (get_range off len ≡ none)

  module _ (answers : AnswersFor) (p : Plan) (plan : IsPlan object sub p) where
    -- Every subrange in one of the ranges is among the hits.
    record AllFilled (hits : Hits) (rs : List Rng) (hits' : Hits) : Type 0 where
      parts : AreParts object sub p hits'
      grown : Grown object sub p hits hits'
      filled :
          (j : ℕ) → Aligned sub j → Covers rs (record { start = j; end = j + sub }) → HasHit hits' j

    abbrev FillsAll : Hits → List Rng → Option Hits → Type 0
    FillsAll hits rs none = AnyFails
    FillsAll hits rs (some hits') = AllFilled hits rs hits'

    fill_more :
        (hits hits' : Hits) (m : Rng) (ms : List Rng) (o : Option Hits)
        → Filled object sub p hits m.start m.end hits'
        → FillsAll hits' ms o
        → FillsAll hits (m ∷ ms) o
    fill_more hits hits' m ms none f r = r
    fill_more hits hits' m ms (some all) f r = record {
      parts = r.parts;
      grown = λ j x. r.grown j (f.grown j x);
      filled = λ j a c. elim c [
        | inl (s, e) ↦ r.grown j (f.filled j a s (omega (arith, positive, e)))
        | inr x ↦ r.filled j a x
      ];
    }

    fill_one :
        (hits : Hits) (m : Rng) (ms : List Rng) (o : Option Hits)
        → Fills object sub p hits m.start m.end o
        → ((hits' : Hits)
            → AreParts object sub p hits'
            → FillsAll hits' ms (fetch_ranges get_range sub p ms hits'))
        → FillsAll hits
            (m ∷ ms)
            (elim o [ none ↦ none | some hits' ↦ fetch_ranges get_range sub p ms hits' ])
    fill_one hits m ms none f r = absurd f
    fill_one hits m ms (some hits') f r = fill_more hits hits' m ms _ f (r hits' f.parts)

    fetch_ranges-FillsAll :
        (rs : List Rng) (hits : Hits)
        → Ends (WithinPlan cfg positive p) (WithinPlan cfg positive p) 0 rs
        → AreParts object sub p hits
        → FillsAll hits rs (fetch_ranges get_range sub p rs hits)
    unfolding fetch_ranges
    fetch_ranges-FillsAll [] hits e h = record {
      parts = h;
      grown = λ j x. x;
      filled = λ j a c. absurd c;
    }
    fetch_ranges-FillsAll (m ∷ ms) hits ((s, t), e) h = elim (answers m.start (m.end - m.start)) [
      | inl q ↦ rw (fetch_ranges, q) (m.start, m.end - m.start, q)
      | inr q ↦
          let content = part object m.start (m.end - m.start) in
          let filled =
            fetch_subranges-Fills object sub p plan m t.2 (suc (m.end - m.start)) content m.start
              hits t.1 s.0 s.2 (omega arith) (omega arith) (λ l. refl) h in
          rw (fetch_ranges, q)
            (fill_one hits m ms
              (fetch_subranges (suc (m.end - m.start)) sub p m content m.start hits) filled
              (λ hits' ok. fetch_ranges-FillsAll ms hits' e ok))
    ]

    -- Every subrange of the plan is among the hits.
    pub record HasAll (hits' : Hits) : Type 0 where
      pub parts : AreParts object sub p hits'
      pub filled : (j : ℕ) → Aligned sub j → p.start_range ≤ j → j < p.end_range → HasHit hits' j

    abbrev pub HasAllOr : Option Hits → Type 0
    HasAllOr none = AnyFails
    HasAllOr (some hits') = HasAll hits'

    has_all :
        (hits : Hits) (rs : List Rng) (o : Option Hits)
        → ((j : ℕ)
            → Aligned sub j
            → p.start_range ≤ j
            → j < p.end_range
            → HasHit hits j ⊎ Covers rs (record { start = j; end = j + sub }))
        → FillsAll hits rs o
        → HasAllOr o
    has_all hits rs none c f = f
    has_all hits rs (some hits') c f = record {
      parts = f.parts;
      filled = λ j a l h. elim (c j a l h) [ inl x ↦ f.grown j x | inr x ↦ f.filled j a x ];
    }

    Within : ℕ → Type 0
    Within = WithinPlan cfg positive p

    IsOrdered-missing :
        (hits : Hits) (fuel off : ℕ)
        → IsOrdered (missing_of sub hits (offsets_from fuel sub p.end_range off))
    IsOrdered-missing hits fuel off =
        let before : Rng = record { start = off; end = off } in
        OrderedFrom-IsOrdered before _ (
          missing-Ordered cfg positive before hits fuel p.end_range off (omega arith) (omega arith))

    reduced_fill :
        (hits : Hits) (merged : List Rng) (o : Option (List Rng))
        → ((j : ℕ)
            → Aligned sub j
            → p.start_range ≤ j
            → j < p.end_range
            → HasHit hits j ⊎ Covers merged (record { start = j; end = j + sub }))
        → Reduces
            (WithinPlan cfg positive p)
            (WithinPlan cfg positive p)
            cfg.max_sub_requests
            merged
            o
        → AreParts object sub p hits
        → HasAllOr (elim o [ none ↦ none | some rs ↦ fetch_ranges get_range sub p rs hits ])
    reduced_fill hits merged none c r h = absurd r
    reduced_fill hits merged (some rs) c r h =
        has_all hits rs _
          (λ j a l u. elim (c j a l u) [ inl x ↦ inl x | inr x ↦ inr (r.covers _ x) ])
          (fetch_ranges-FillsAll rs hits r.ends h)

    merged_of : Hits → ℕ → List Rng
    merged_of hits size =
        merge_ranges (missing_of sub hits (offsets_from size sub p.end_range p.start_range)) 0

    merged_of-none : (hits : Hits) (size : ℕ) → size ≡ 0 → length (merged_of hits size) ≡ 0
    unfolding merged_of merge_ranges missing_of offsets_from
    merged_of-none hits zero e = refl
    merged_of-none hits (suc size) e = absurd (omega arith)

    reduced :
        (hits : Hits) (size : ℕ)
        → p.end_range ≡ p.start_range + size
        → Reduces
            (WithinPlan cfg positive p)
            (WithinPlan cfg positive p)
            cfg.max_sub_requests
            (merged_of hits size)
            (reduce_ranges (suc size) cfg.max_sub_requests sub (merged_of hits size))
    unfolding merged_of
    reduced hits size q =
        let missing = missing_of sub hits (offsets_from size sub p.end_range p.start_range) in
        let w : WithinPlan cfg positive p p.start_range =
          (omega arith, omega arith, plan.start_aligned) in
        let o = merge_ranges-IsOrdered missing 0 (IsOrdered-missing hits size p.start_range) in
        let e =
          merge_ranges-All (WithinPlan cfg positive p) (WithinPlan cfg positive p) missing 0
            (missing-Ends cfg positive p hits size p.start_range plan.end_aligned w) in
        elim (Bool-cases (size == 0)) [
          | inl z ↦
              one_range (WithinPlan cfg positive p) (WithinPlan cfg positive p) cfg.max_sub_requests
                (suc size) sub (merged_of hits size) o e
                (omega (arith, merged_of-none hits size (ground arith))) (omega arith)
          | inr z ↦
              reduce_ranges-Reduces (WithinPlan cfg positive p) (WithinPlan cfg positive p)
                cfg.max_sub_requests p.start_range p.end_range (λ n x. x.1) (λ n x. x.0) (suc size)
                sub (merged_of hits size) o e positive (ground arith) (omega (arith, positive, q))
        ]

    pub fetch_missing-HasAll :
        (hits : Hits)
        → p.start_range ≤ p.end_range
        → AreParts object sub p hits
        → HasAllOr (fetch_missing_subranges get_range cfg p hits)
    unfolding fetch_missing_subranges merged_of
    fetch_missing-HasAll hits le h =
        let size = p.end_range - p.start_range in
        let missing = missing_of sub hits (offsets_from size sub p.end_range p.start_range) in
        reduced_fill hits (merged_of hits size) _
          (λ j a l u.
            elim (missing-Covers cfg positive hits size p.end_range p.start_range j (omega arith)
              plan.start_aligned a l u) [
                | inl x ↦ inl x
                | inr x ↦
                    inr (
                      merge_ranges-Covers missing 0 _ (IsOrdered-missing hits size p.start_range) x)
              ])
          (reduced hits size (omega arith)) h
