-- ===== src/Block/Filters/Kept.antt =====
-- pkg/block/fetcher.go: which blocks the filters leave.
use promlts.Prelude.Dict.{nat_eq, get}
use promlts.Prelude.Int.{ℤ, leb_ℤ}
use promlts.Labelpb.{Bytes, Label}
use promlts.Block.Metas.{
  SourceType, compactor_source, compactor_repair_source, bucket_repair_source, Meta, Metas,
  ulid_time, IsMap, kept_value, get-retain, retain-IsMap,
}
use promlts.Block.Filters.{
  in_partition, filter_time_partition, block_id_label, to_labels, label_map, in_shard,
  filter_label_sharded, is_repaired, is_consistent, filter_consistency_delay,
}
use promlts.Pool.{u64}
use promlts.Prelude.{
  ◌==◌, Bool-cases, length, ℕ, ◌+◌, ◌-◌, ◌^◌, ◌≤◌, ◌<◌, ◌≡◌, refl, sym, ap, ◌∙◌, ◌↔◌, ◌⊎◌, inl, inr,
  Bool, true, false, ◌&&◌, not, Option, none, some, List, [], ◌∷◌, arith,
}

-- The age decides for a block that was made before now: it passes at the delay, and not earlier
-- unless a compaction or a repair made it.
is_consistent-age :
    (now delay id : ℕ) (m : Meta)
    → ulid_time id ≤ now
    → now < 2 ^ 64
    → (is_consistent now delay id m ≡ true)
      ↔ ((ulid_time id + delay ≤ now) ⊎ (is_repaired m.source ≡ true))
unfolding is_consistent
is_consistent-age now delay id m h k =
    let w : u64 (now + 2 ^ 64 - ulid_time id) ≡ now - ulid_time id = omega arith in
    ground (arith, w)

-- A block whose ULID is from the future passes, however short the delay still is: the age wraps to
-- almost 2^64 milliseconds.
pub is_consistent-future :
    (now delay id : ℕ) (m : Meta)
    → now < ulid_time id
    → id < 2 ^ 128
    → delay < 2 ^ 63
    → is_consistent now delay id m ≡ true
unfolding is_consistent
is_consistent-future now delay id m h k d =
    let t : ulid_time id < 2 ^ 48 = omega arith in
    let w : u64 (now + 2 ^ 64 - ulid_time id) ≡ now + 2 ^ 64 - ulid_time id = omega arith in
    ground (arith, w)

lt-cases : (m n : ℕ) → (m < n) ⊎ (n ≤ m)
lt-cases m n = omega arith

both_true : (a b : Bool) → a && b ≡ true → (a ≡ true) × (b ≡ true)
both_true a b h = (ground arith, ground arith)

three_true : (a b c : Bool) → a && b && c ≡ true → (a ≡ true) × (b ≡ true) × (c ≡ true)
three_true a b c h = (ground arith, ground arith, ground arith)

all_true : (a b c : Bool) → a ≡ true → b ≡ true → c ≡ true → a && b && c ≡ true
all_true a b c p q r = ground arith

kept_some :
    (keep : ℕ → Meta → Bool) (id : ℕ) (m : Meta) (o : Option Meta)
    → (kept_value keep id o ≡ some m) ↔ ((o ≡ some m) × (keep id m ≡ true))
kept_some keep id m none = (λ h. absurd (ground arith), λ h. absurd (ground (arith, h.0)))
kept_some keep id m (some n) = elim (Bool-cases (keep id n)) [
  | inl x ↦ rw x (λ h. (h, sym (ap (keep id) (some_same n m h)) ∙ x), λ h. h.0)
  | inr x ↦
      rw x
        (λ h. absurd (ground arith), λ h. absurd (both x (ap (keep id) (some_same n m h.0) ∙ h.1)))
]
  where
    some_same : (n m : Meta) → some n ≡ some m → n ≡ m
    some_same n m h = ap (λ o. elim o [ none ↦ n | some k ↦ k ]) h

    both : {b : Bool} → b ≡ false → b ≡ true → ⊥
    both p q = ground arith

repaired-source :
    (source : SourceType)
    → (is_repaired source ≡ true) ↔ (
        (source ≡ compactor_source)
        ⊎ (source ≡ compactor_repair_source)
        ⊎ (source ≡ bucket_repair_source))
repaired-source source = ground arith

nonempty :
    (ls : List Label)
    → (not (length ls == 0) ≡ true) ↔ ((x : Label) × (xs : List Label) × (ls ≡ x ∷ xs))
nonempty [] = (λ h. absurd (ground arith), λ (x, xs, h). absurd (ground arith))
nonempty (x ∷ xs) = (λ h. (x, xs, refl), λ h. ground arith)

module _ (min_time max_time : ℤ) (ulid_text : ℕ → Bytes) (process : List Label → List Label)
    (now delay : ℕ) where
  -- The three filters, one after the other.
  abbrev pub filtered : Metas → Metas
  filtered metas =
      filter_consistency_delay now delay
        (filter_label_sharded ulid_text process (filter_time_partition min_time max_time metas))

  abbrev pub passes : ℕ → Meta → Bool
  passes id m =
      in_partition min_time max_time id m
      && in_shard ulid_text process id m
      && is_consistent now delay id m

  passes_three :
      (id : ℕ) (o : Option Meta)
      → kept_value (is_consistent now delay) id (
          kept_value
            (in_shard ulid_text process)
            id
            (kept_value (in_partition min_time max_time) id o))
        ≡ kept_value passes id o
  passes_three id none = refl
  passes_three id (some m) = ground arith

  get-passes :
      (metas : Metas) (id : ℕ)
      → IsMap metas
      → get (filtered metas) id ≡ kept_value passes id (get metas id)
  unfolding filter_time_partition filter_label_sharded filter_consistency_delay
  get-passes metas id h =
      let a = retain-IsMap (in_partition min_time max_time) metas h in
      let b = retain-IsMap (in_shard ulid_text process) _ a in
      get-retain (is_consistent now delay) _ id b
      ∙ ap (kept_value (is_consistent now delay) id) (
          get-retain (in_shard ulid_text process) _ id a
          ∙ ap (kept_value (in_shard ulid_text process) id)
              (get-retain (in_partition min_time max_time) metas id h))
      ∙ passes_three id (get metas id)

  -- The block and the partition have a time in common.
  abbrev pub SharesTime : Meta → Type 0
  SharesTime m =
      (t : ℤ) × (leb_ℤ min_time t ≡ true)
      × (leb_ℤ t max_time ≡ true)
      × (leb_ℤ m.min_time t ≡ true)
      × (leb_ℤ t m.max_time ≡ true)

  -- Relabelling leaves a label of those of the block and its ID.
  abbrev pub IsRelabelled : ℕ → Meta → Type 0
  IsRelabelled id m =
      (l : Label) × (ls : List Label) × (process
          (record { name = block_id_label; value = ulid_text id } ∷ to_labels (label_map m.labels))
        ≡ l ∷ ls)

  -- The delay is over, the block is from the future, or it was compacted or repaired.
  abbrev pub IsRipe : ℕ → SourceType → Type 0
  IsRipe id source =
      (ulid_time id + delay ≤ now)
      ⊎ (now < ulid_time id)
      ⊎ (source ≡ compactor_source)
      ⊎ (source ≡ compactor_repair_source)
      ⊎ (source ≡ bucket_repair_source)

  in_partition-SharesTime :
      (id : ℕ) (m : Meta)
      → leb_ℤ min_time max_time ≡ true
      → leb_ℤ m.min_time m.max_time ≡ true
      → (in_partition min_time max_time id m ≡ true) ↔ SharesTime m
  unfolding in_partition
  in_partition-SharesTime id m p q = (
    λ h. common h (Bool-cases (leb_ℤ min_time m.min_time)),
    λ (t, a, b, c, d). ground (arith, a, b, c, d),
  )
    where
      common :
          leb_ℤ min_time m.max_time && leb_ℤ m.min_time max_time ≡ true
          → (leb_ℤ min_time m.min_time ≡ true) ⊎ (leb_ℤ min_time m.min_time ≡ false)
          → SharesTime m
      common h (inl x) =
          let (a, b) = both_true (leb_ℤ min_time m.max_time) _ h in
          (m.min_time, x, b, ground arith, q)
      common h (inr x) =
          let (a, b) = both_true (leb_ℤ min_time m.max_time) _ h in
          (min_time, ground arith, p, ground arith, a)

  in_shard-IsRelabelled :
      (id : ℕ) (m : Meta) → (in_shard ulid_text process id m ≡ true) ↔ IsRelabelled id m
  unfolding in_shard
  in_shard-IsRelabelled id m = nonempty (
      process
        (record { name = block_id_label; value = ulid_text id } ∷ to_labels (label_map m.labels)))

  is_consistent-IsRipe :
      (id : ℕ) (m : Meta)
      → now < 2 ^ 64
      → id < 2 ^ 128
      → delay < 2 ^ 63
      → (is_consistent now delay id m ≡ true) ↔ IsRipe id m.source
  is_consistent-IsRipe id m k l d = elim (lt-cases now (ulid_time id)) [
    | inl p ↦ (λ h. inr (inl p), λ h. is_consistent-future now delay id m p l d)
    | inr p ↦
        let (f, g) = is_consistent-age now delay id m p k in
        let (r, t) = repaired-source m.source in
        (
          λ h. elim (f h) [ inl x ↦ inl x | inr y ↦ inr (inr (r y)) ],
          λ h. g (elim h [
            | inl x ↦ inl x
            | inr y ↦ elim y [ inl z ↦ absurd (omega (arith, z, p)) | inr z ↦ inr (t z) ]
          ]),
        )
  ]

  -- Maps of blocks, and times in their order; the delay and the clock are numbers of 63 and 64 bits.
  -- After the filters by time, labels and age, the map has a block exactly if it had it before, the
  -- block has a time in common with the partition, relabelling leaves a label, and the delay is over,
  -- where a block from the future, and one that was compacted or repaired, passes at once.
  pub get-filtered :
      (metas : Metas) (id : ℕ) (m : Meta)
      → IsMap metas
      → leb_ℤ min_time max_time ≡ true
      → leb_ℤ m.min_time m.max_time ≡ true
      → now < 2 ^ 64
      → id < 2 ^ 128
      → delay < 2 ^ 63
      → (get (filtered metas) id ≡ some m)
        ↔ ((get metas id ≡ some m) × SharesTime m × IsRelabelled id m × IsRipe id m.source)
  get-filtered metas id m h p q k l d =
      let a = in_partition-SharesTime id m p q in
      let b = in_shard-IsRelabelled id m in
      let c = is_consistent-IsRipe id m k l d in
      let (f, g) = kept_some passes id m (get metas id) in
      (
        λ e.
            let (x, y) = f (sym (get-passes metas id h) ∙ e) in
            let (s, t, u) =
              three_true (in_partition min_time max_time id m) (in_shard ulid_text process id m)
                (is_consistent now delay id m) y in
            (x, a.0 s, b.0 t, c.0 u),
        λ (x, s, u, v).
            get-passes metas id h
            ∙ g (
              x,
              all_true (in_partition min_time max_time id m) (in_shard ulid_text process id m)
                  (is_consistent now delay id m) (a.1 s) (b.1 u) (c.1 v),
            ),
      )
