-- ===== src/Cache/Subranges/Fetched.antt =====
-- pkg/store/cache/caching_bucket.go: what is fetched is what the object has.
use mathlib.Core.Path.{subst}
use native.Mathlib.Nat.{suc-mul, mul-le-mul_right}
use promlts.Labelpb.{Bytes}
use promlts.Prelude.Dict.{nat_eq, same_key_refl, get, get-put}
use promlts.Prelude.Slices.{drop-drop, take-take, drop-take}
use promlts.Cache.Subranges.{Rng, Hits, Plan, add_missing, fetch_subranges}
use promlts.Prelude.{
  ltb, leb, ◌==◌, if◌then◌else◌, Bool-cases, Option-cases, if_cases, length, take, drop,
  length-take, length-drop, ℕ, zero, suc, ◌+◌, ◌-◌, ◌*◌, ◌≤◌, ◌<◌, ◌≡◌, refl, sym, ap, ◌∙◌, ◌⊎◌,
  inl, inr, ◌&&◌, Option, none, some, arith,
}

abbrev pub Aligned : ℕ → ℕ → Type 0
Aligned sub n = (k : ℕ) × (n ≡ k * sub)

pub Aligned-step : (sub a b : ℕ) → Aligned sub a → Aligned sub b → a < b → a + sub ≤ b
Aligned-step sub a b (j, p) (k, q) h = elim (Bool-cases (ltb j k)) [
  | inl l ↦
      let m : suc j * sub ≤ k * sub = mul-le-mul_right sub (ground arith) in
      let e : suc j * sub ≡ j * sub + sub = suc-mul j sub in omega (arith, p, q, m, e)
  | inr l ↦
      let m : k * sub ≤ j * sub = mul-le-mul_right sub (ground arith) in
      absurd (omega (arith, p, q, m, h))
]

pub Aligned-next : (sub a : ℕ) → Aligned sub a → Aligned sub (a + sub)
Aligned-next sub a (j, p) = (suc j, rw p (sym (suc-mul j sub)))

-- The bytes of the subrange at the offset.
abbrev pub part : Bytes → ℕ → ℕ → Bytes
part object off len = take len (drop off object)

abbrev pub piece_length : ℕ → Plan → ℕ → ℕ
piece_length sub p off = if off == p.last_subrange_offset then p.last_subrange_length else sub

abbrev pub HasHit : Hits → ℕ → Type 0
HasHit hits off = (b : Bytes) × (get hits off ≡ some b)

module _ (object : Bytes) (sub : ℕ) (p : Plan) where
  -- A subrange of the plan is in the object, and is read whole, or is the last one.
  pub record IsPiece (off len : ℕ) : Type 0 where
    pub inside : off + len ≤ length object
    pub same : part object off len ≡ part object off sub
    pub whole : (len ≡ sub) ⊎ (p.end_range ≤ off + sub)
    pub small : len ≤ sub

  pub record IsPlan : Type 0 where
    pub positive : 1 ≤ sub
    pub start_aligned : Aligned sub p.start_range
    pub end_aligned : Aligned sub p.end_range
    pub pieces :
        (off : ℕ) → Aligned sub off → off < p.end_range → IsPiece off (piece_length sub p off)

  -- The hits are subranges of the object.
  abbrev pub AreParts : Hits → Type 0
  AreParts hits = (off : ℕ) (b : Bytes) → get hits off ≡ some b → b ≡ part object off sub

  abbrev pub Grown : Hits → Hits → Type 0
  Grown hits hits' = (off : ℕ) → HasHit hits off → HasHit hits' off

  AreParts-add :
      (hits : Hits) (off : ℕ) (b : Bytes)
      → AreParts hits
      → b ≡ part object off sub
      → AreParts (add_missing hits off b)
  AreParts-add hits off b h e = elim (Option-cases (get hits off)) [
    | inr (old, q) ↦ rw (add_missing, q) h
    | inl q ↦
        rw (add_missing, q)
          (λ j c g. elim (Bool-cases (off == j)) [
            | inl s ↦
                let now : some b ≡ some c = sym (get-put hits off j b ∙ rw s refl) ∙ g in
                let same : off ≡ j = ground arith in
                sym (ap (λ o. elim o [ none ↦ b | some x ↦ x ]) now)
                ∙ e
                ∙ ap (λ x. part object x sub) same
            | inr s ↦ h j c (sym (get-put hits off j b ∙ rw s refl) ∙ g)
          ])
  ]

  Grown-add :
      (hits : Hits) (off : ℕ) (b : Bytes)
      → Grown hits (add_missing hits off b) × HasHit (add_missing hits off b) off
  Grown-add hits off b = elim (Option-cases (get hits off)) [
    | inr (old, q) ↦ rw (add_missing, q) (λ j h. h, (old, q))
    | inl q ↦
        rw (add_missing, q)
          (
            λ j (c, g). elim (Bool-cases (off == j)) [
              | inl s ↦ (b, get-put hits off j b ∙ rw s refl)
              | inr s ↦ (c, get-put hits off j b ∙ rw s g)
            ],
            (b, get-put hits off off b ∙ rw (same_key_refl off) refl),
          )
  ]

  -- The result of fetching subranges: all those from an offset on, up to the end of the range.
  pub record Filled (hits : Hits) (off end : ℕ) (hits' : Hits) : Type 0 where
    pub parts : AreParts hits'
    pub grown : Grown hits hits'
    pub filled : (j : ℕ) → Aligned sub j → off ≤ j → j < end → HasHit hits' j

  abbrev pub Fills : Hits → ℕ → ℕ → Option Hits → Type 0
  Fills hits off end none = ⊥
  Fills hits off end (some hits') = Filled hits off end hits'

  Fills-step :
      (hits hits' : Hits) (off end : ℕ) (o : Option Hits)
      → Aligned sub off
      → Grown hits hits' × HasHit hits' off
      → Fills hits' (off + sub) end o
      → Fills hits off end o
  Fills-step hits hits' off end none a (g, x) f = f
  Fills-step hits hits' off end (some more) a (g, x) f = record {
    parts = f.parts;
    grown = λ j h. f.grown j (g j h);
    filled = λ j b l u. elim (Bool-cases (off == j)) [
      | inl s ↦ let e : off ≡ j = ground arith in subst (HasHit more) e (f.grown off x)
      | inr s ↦ f.filled j b (Aligned-step sub off j a b (ground arith)) u
    ];
  }

  next_left :
      (off end : ℕ) (left : Bytes)
      → off + sub ≤ end
      → left ≡ part object off (end - off)
      → drop sub left ≡ part object (off + sub) (end - (off + sub))
  next_left off end left h e =
      let n : end - off ≡ sub + (end - (off + sub)) = omega arith in
      rw (e, n, drop-take sub (end - (off + sub)) (drop off object), drop-drop sub off object) refl

  module _ (plan : IsPlan) (m : Rng) (aligned : Aligned sub m.end) where
    pub fetch_subranges-Fills :
        (fuel : ℕ) (left : Bytes) (off : ℕ) (hits : Hits)
        → m.end ≤ p.end_range
        → p.start_range ≤ off
        → Aligned sub off
        → 1 ≤ fuel
        → m.end < off + fuel
        → (off < m.end → left ≡ part object off (m.end - off))
        → AreParts hits
        → Fills hits off m.end (fetch_subranges fuel sub p m left off hits)
    unfolding fetch_subranges
    fetch_subranges-Fills zero left off hits e s a u f l h = absurd (omega arith)
    fetch_subranges-Fills (suc fuel) left off hits e s a u f l h =
        let len = piece_length sub p off in
        let hits' = add_missing hits off (take len left) in
        if_cases (Fills hits off m.end) (ltb off m.end) _ _
          (λ b.
            let low : off < m.end = ground arith in
            let piece = plan.pieces off a (omega arith) in
            let next : off + sub ≤ m.end = Aligned-step sub off m.end a aligned low in
            let long : len ≤ length left =
              rw (l low, length-take (m.end - off) (drop off object), length-drop off object)
                (omega (arith, piece.inside, piece.small, next)) in
            let bytes : take len left ≡ part object off sub =
              ap (take len) (l low)
              ∙ take-take len (m.end - off) (drop off object) (omega (arith, piece.small, next))
              ∙ piece.same in
            if_cases (Fills hits off m.end)
              (leb p.start_range off && ltb off p.end_range && leb len (length left)) _ _
              (λ ok. Fills-step hits hits' off m.end _ a (Grown-add hits off (take len left)) (
                fetch_subranges-Fills fuel (drop len left) (off + sub) hits' e (omega (arith, s))
                  (Aligned-next sub off a) (omega (arith, f, next, plan.positive))
                  (omega (arith, f, plan.positive))
                  (λ more. elim piece.whole [
                    | inl q ↦ rw q (next_left off m.end left next (l low))
                    | inr q ↦ absurd (omega (arith, q, e, more))
                  ])
                  (AreParts-add hits off (take len left) h bytes)))
              (λ bad. absurd (ground (arith, long, s, e, low))))
          (λ b. record { parts = h; grown = λ j x. x; filled = λ j x y z. absurd (ground arith) })
