-- ===== src/Cache/Subranges/Equal.antt =====
-- pkg/store/cache/caching_bucket.go: a cached range is the range of the object.
use native.Mathlib.Nat.{div-mul-le_self}
use promlts.Labelpb.{Bytes}
use promlts.Prelude.Dict.{nat_eq}
use promlts.Prelude.Slices.{take-all}
use promlts.Cache.Subranges.{
  Config, Hits, Plan, plan_range, fetch_missing_subranges, SubrangesReader, read_all,
  cached_get_range,
}
use promlts.Cache.Subranges.Fetched.{Aligned-step, part, AreParts}
use promlts.Cache.Subranges.Reading.{CanRead, read_all-part}
use promlts.Cache.Subranges.Planning.{round_up-facts, plan_range-IsPlan}
use promlts.Cache.Subranges.Whole.{AnswersFor, AnyFails, HasAll, HasAllOr, fetch_missing-HasAll}
use promlts.Prelude.{
  ltb, if◌then◌else◌, Bool-cases, if_cases, length, drop, length-drop, ℕ, suc, ◌+◌, ◌-◌, ◌*◌, ◌/◌,
  ◌≤◌, ◌≡◌, refl, sym, ap, ◌∙◌, inl, inr, Option, none, some, arith,
}

module _ (object : Bytes) (cfg : Config) (positive : 1 ≤ cfg.subrange_size)
    (get_range : ℕ → ℕ → Option Bytes) where
  abbrev sub : ℕ
  sub = cfg.subrange_size

  -- The bucket failed, or the reader, with whatever buffer, gives the bytes of the object.
  abbrev pub ReadsRange : ℕ → ℕ → Option SubrangesReader → Type 0
  ReadsRange offset len none = AnyFails object cfg positive get_range
  ReadsRange offset len (some c) =
      (buffer : ℕ)
      → 1 ≤ buffer
      → read_all (suc c.remaining) buffer c ≡ some (part object offset len)

  abbrev stop_of : ℕ → ℕ → ℕ
  stop_of offset len = if ltb (length object) (offset + len) then length object else offset + len

  stop-le : (offset len : ℕ) → stop_of offset len ≤ length object
  stop-le offset len =
      if_cases (λ x. x ≤ length object) (ltb (length object) (offset + len)) (length object)
        (offset + len) (λ y. omega arith) (λ y. ground arith)

  -- A range that is cut to the size of the object has the same bytes.
  cut-part :
      (offset len : ℕ)
      → offset ≤ length object
      → (offset ≤ stop_of offset len)
        × (part object offset (stop_of offset len - offset) ≡ part object offset len)
  cut-part offset len h =
      if_cases (λ x. (offset ≤ x) × (part object offset (x - offset) ≡ part object offset len))
        (ltb (length object) (offset + len)) (length object) (offset + len)
        (λ y. (
          h,
          take-all (drop offset object) (length object - offset)
                (omega (arith, length-drop offset object))
              ∙ sym (take-all (drop offset object) len (ground (arith, length-drop offset object))),
        ))
        (λ y. (
          omega arith,
          ap (part object offset) {x = offset + len - offset} {y = len} (omega arith),
        ))

  reader_of : Plan → Hits → SubrangesReader
  reader_of p hits = record {
    subrange_size = sub;
    subranges = hits;
    read_offset = p.offset;
    remaining = p.length_left;
  }

  module _ (answers : AnswersFor object cfg positive get_range) (offset len : ℕ) where
    abbrev plan : Plan
    plan = plan_range cfg (length object) offset len

    can_read :
        (hits : Hits)
        → offset ≤ length object
        → HasAll object cfg positive get_range answers plan
            (plan_range-IsPlan object cfg positive offset len)
            hits
        → CanRead object (reader_of plan hits)
    unfolding plan_range reader_of
    can_read hits h all =
        let (ends, up, close) = round_up-facts sub (stop_of offset len) positive in
        let (at, same) = cut-part offset len h in
        let low : offset / sub * sub ≤ offset = div-mul-le_self offset sub in
        record {
          positive = positive;
          parts = all.parts;
          inside = inr (omega (arith, at, stop-le offset len));
          has = λ j a u l.
              all.filled j a
                (elim (Bool-cases (ltb j (offset / sub * sub))) [
                  | inl y ↦
                      let far =
                        Aligned-step sub j (offset / sub * sub) a (offset / sub, refl)
                          (ground arith) in
                      absurd (omega (arith, far, u, low))
                  | inr y ↦ ground arith
                ])
                (omega (arith, l, at, up));
        }

    reads_hits :
        (o : Option Hits)
        → offset ≤ length object
        → HasAllOr object cfg positive get_range answers plan
            (plan_range-IsPlan object cfg positive offset len)
            o
        → ReadsRange offset len (elim o [ none ↦ none | some all ↦ some (reader_of plan all) ])
    unfolding reader_of plan_range
    reads_hits none h a = a
    reads_hits (some hits) h a = λ buffer l.
        let (at, same) = cut-part offset len h in
        read_all-part object (suc (reader_of plan hits).remaining) buffer (reader_of plan hits) l
          (can_read hits h a) (omega arith)
        ∙ ap some same

    ordered : offset ≤ length object → plan.start_range ≤ plan.end_range
    unfolding plan_range
    ordered h =
        let (ends, up, close) = round_up-facts sub (stop_of offset len) positive in
        let (at, same) = cut-part offset len h in omega (arith, up, at, div-mul-le_self offset sub)

    -- From an offset in the object, and from hits that are parts of it, the cached read of a range
    -- gives the bytes that the bucket has there, cut where the object ends, for every size of
    -- subranges and every limit on the requests, unless a request to the bucket fails.
    pub cached_get_range-ReadsRange :
        (hits : Hits)
        → offset ≤ length object
        → AreParts object sub plan hits
        → ReadsRange offset len (cached_get_range get_range cfg (length object) hits offset len)
    unfolding cached_get_range reader_of
    cached_get_range-ReadsRange hits h parts =
        reads_hits (fetch_missing_subranges get_range cfg plan hits) h (
          fetch_missing-HasAll object cfg positive get_range answers plan
            (plan_range-IsPlan object cfg positive offset len) hits (ordered h) parts)
