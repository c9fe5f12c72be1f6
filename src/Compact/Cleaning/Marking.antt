-- ===== src/Compact/Cleaning/Marking.antt =====
-- pkg/compact/retention.go and pkg/compact/compact.go: which blocks the retention and the garbage
-- collection mark.
use mathlib.Core.Path.{subst}
use promlts.Prelude.Dict.{nat_eq, get, put, remove, get-put, get-remove}
use promlts.Prelude.Int.{ℤ, pos}
use promlts.Block.Metas.{Meta, Metas}
use promlts.Block.Deletion.{Bucket, Faults, mark_for_deletion}
use promlts.Compact.Cleaning.{collect}
use promlts.Prelude.{
  ◌==◌, if◌then◌else◌, Bool-cases, Option-cases, ℕ, ◌/◌, ◌^◌, ◌≡◌, refl, ap, ◌∙◌, ◌⊎◌, inl, inr,
  Bool, true, false, ◌||◌, Option, none, some, List, [], ◌∷◌, arith,
}

abbrev pub listed : List ℕ → ℕ → Bool
listed [] id = false
listed (x ∷ xs) id = x == id || listed xs id

-- A mark that is there stays.
abbrev pub kept_mark : Option ℤ → ℤ → Option ℤ
kept_mark none time = some time
kept_mark (some t) time = some t

abbrev pub mark_if : Bool → Option ℤ → ℤ → Option ℤ
mark_if chosen o time = if chosen then kept_mark o time else o

-- What marking leaves of a mark, whether or not it came to the block.
abbrev pub Grown : Bool → ℤ → Option ℤ → Option ℤ → Type 0
Grown chosen time o o' = (o' ≡ o) ⊎ ((chosen ≡ true) × (o' ≡ kept_mark o time))

abbrev pub time_of : (ℕ → ℕ) → ℕ → ℤ
time_of clock id = pos (clock id / 10 ^ 9)

abbrev Marks : Bucket → ℕ → ℤ → Option Bucket → Type 0
Marks b id time none = Unit
Marks b id time (some b') = (j : ℕ) → get b'.marks j ≡ mark_if (id == j) (get b.marks j) time

mark_new :
    (b : Bucket) (id : ℕ) (time : ℤ)
    → get b.marks id ≡ none
    → (j : ℕ) → get (put b.marks id time) j ≡ mark_if (id == j) (get b.marks j) time
mark_new b id time h j = elim (Bool-cases (id == j)) [
  | inl p ↦ let e : id ≡ j = ground arith in rw (get-put b.marks id j time, p, ← e, h) refl
  | inr p ↦ rw (get-put b.marks id j time, p) refl
]

mark_old :
    (b : Bucket) (id : ℕ) (t time : ℤ)
    → get b.marks id ≡ some t
    → (j : ℕ) → get b.marks j ≡ mark_if (id == j) (get b.marks j) time
mark_old b id t time h j = elim (Bool-cases (id == j)) [
  | inl p ↦ let e : id ≡ j = ground arith in rw (p, ← e, h) refl
  | inr p ↦ rw p refl
]

mark_for_deletion-Marks :
    (faults : Faults) (b : Bucket) (id : ℕ) (time : ℤ)
    → Marks b id time (mark_for_deletion faults b id time)
unfolding mark_for_deletion
mark_for_deletion-Marks faults b id time = elim (Bool-cases (faults.exists_fails id)) [
  | inl p ↦ rw (mark_for_deletion, p) tt
  | inr p ↦ elim (Option-cases (get b.marks id)) [
    | inl q ↦ elim (Bool-cases (faults.upload_fails id)) [
      | inl r ↦ rw (mark_for_deletion, p, q, r) tt
      | inr r ↦ rw (mark_for_deletion, p, q, r) (mark_new b id time q)
    ]
    | inr (t, q) ↦ rw (mark_for_deletion, p, q) (mark_old b id t time q)
  ]
]

-- A block that is forgotten has a mark.
abbrev pub Forgotten : Option Meta → Option Meta → Option ℤ → Type 0
Forgotten m m' none = m' ≡ m
Forgotten m m' (some time) = (m' ≡ m) ⊎ (m' ≡ none)

-- Without an error every chosen block has a mark, and is forgotten.
abbrev pub Done : Bool → Bool → ℤ → Option ℤ × Option Meta → Option ℤ × Option Meta → Type 0
Done false chosen time s s' = Unit
Done true chosen time (o, m) (o', m') =
    (o' ≡ mark_if chosen o time) × (m' ≡ (if chosen then none else m))

pub record Collected (chosen : ℕ → Bool) (time : ℕ → ℤ) (b : Bucket) (blocks : Metas)
    (r : Bucket × Metas × Bool) : Type 0 where
  pub marks : (id : ℕ) → Grown (chosen id) (time id) (get b.marks id) (get r.0.marks id)
  pub forgotten : (id : ℕ) → Forgotten (get blocks id) (get r.1 id) (get r.0.marks id)
  pub done :
      (id : ℕ)
      → Done r.2
          (chosen id)
          (time id)
          (get b.marks id, get blocks id)
          (get r.0.marks id, get r.1 id)

unmoved : (o : Option ℤ) (m : Option Meta) → Forgotten m m o
unmoved none m = refl
unmoved (some t) m = inl refl

stopped :
    (chosen : ℕ → Bool) (time : ℕ → ℤ) (b : Bucket) (blocks : Metas)
    → Collected chosen time b blocks (b, blocks, false)
stopped chosen time b blocks = record {
  marks = λ id. inl refl;
  forgotten = λ id. unmoved (get b.marks id) (get blocks id);
  done = λ id. tt;
}

Grown-on :
    (x l : Bool) (t : ℤ) (o o₁ o' : Option ℤ)
    → o₁ ≡ mark_if x o t
    → Grown l t o₁ o'
    → Grown (x || l) t o o'
Grown-on true l t none o₁ o' p (inl q) = inr (refl, q ∙ p)
Grown-on true l t (some u) o₁ o' p (inl q) = inl (q ∙ p)
Grown-on true l t none o₁ o' p (inr (h, q)) = inr (refl, q ∙ ap (λ z. kept_mark z t) p)
Grown-on true l t (some u) o₁ o' p (inr (h, q)) = inl (q ∙ ap (λ z. kept_mark z t) p)
Grown-on false l t o o₁ o' p (inl q) = inl (q ∙ p)
Grown-on false l t o o₁ o' p (inr (h, q)) = inr (h, q ∙ ap (λ z. kept_mark z t) p)

-- A block that was marked has a mark in the end.
Forgotten-on :
    (x l : Bool) (t : ℤ) (o o₁ o' : Option ℤ) (m m₁ m' : Option Meta)
    → o₁ ≡ mark_if x o t
    → m₁ ≡ (if x then none else m)
    → Grown l t o₁ o'
    → Forgotten m₁ m' o'
    → Forgotten m m' o'
Forgotten-on false l t o o₁ none m m₁ m' p q g f = f ∙ q
Forgotten-on false l t o o₁ (some u) m m₁ m' p q g (inl f) = inl (f ∙ q)
Forgotten-on x l t o o₁ (some u) m m₁ m' p q g (inr f) = inr f
Forgotten-on true l t o o₁ (some u) m m₁ m' p q g (inl f) = inr (f ∙ q)
Forgotten-on true l t none o₁ none m m₁ m' p q (inl g) f = absurd (ground (arith, g, p))
Forgotten-on true l t (some u) o₁ none m m₁ m' p q (inl g) f = absurd (ground (arith, g, p))
Forgotten-on true l t none none none m m₁ m' p q (inr g) f = absurd (ground (arith, p))
Forgotten-on true l t (some u) none none m m₁ m' p q (inr g) f = absurd (ground (arith, p))
Forgotten-on true l t o (some v) none m m₁ m' p q (inr g) f = absurd (ground (arith, g.1))

Done-on :
    (ok x l : Bool) (t : ℤ) (o o₁ o' : Option ℤ) (m m₁ m' : Option Meta)
    → o₁ ≡ mark_if x o t
    → m₁ ≡ (if x then none else m)
    → Done ok l t (o₁, m₁) (o', m')
    → Done ok (x || l) t (o, m) (o', m')
Done-on false x l t o o₁ o' m m₁ m' p q d = tt
Done-on true true true t none o₁ o' m m₁ m' p q d = (d.0 ∙ ap (λ z. kept_mark z t) p, d.1)
Done-on true true true t (some u) o₁ o' m m₁ m' p q d = (d.0 ∙ ap (λ z. kept_mark z t) p, d.1)
Done-on true true false t o o₁ o' m m₁ m' p q d = (d.0 ∙ p, d.1 ∙ q)
Done-on true false l t o o₁ o' m m₁ m' p q d =
    (d.0 ∙ ap (λ z. mark_if l z t) p, d.1 ∙ ap (λ z. if l then none else z) q)

marked_one :
    (b : Bucket) (id : ℕ) (time : ℤ) (o : Option Bucket) (b' : Bucket)
    → o ≡ some b'
    → Marks b id time o
    → (j : ℕ) → get b'.marks j ≡ mark_if (id == j) (get b.marks j) time
marked_one b id time o b' p h = subst (Marks b id time) p h

same_time :
    (clock : ℕ → ℕ) (id j : ℕ) (o : Option ℤ)
    → mark_if (id == j) o (time_of clock id) ≡ mark_if (id == j) o (time_of clock j)
same_time clock id j o = elim (Bool-cases (id == j)) [
  | inl p ↦ let e : id ≡ j = ground arith in rw e refl
  | inr p ↦ rw p refl
]

pub collect-Collected :
    (faults : Faults) (cancelled : ℕ → Bool) (clock : ℕ → ℕ) (b : Bucket) (blocks : Metas)
    (ids : List ℕ)
    → Collected (listed ids) (time_of clock) b blocks (collect faults cancelled clock b blocks ids)
unfolding collect
collect-Collected faults cancelled clock b blocks [] = record {
  marks = λ id. inl refl;
  forgotten = λ id. unmoved (get b.marks id) (get blocks id);
  done = λ id. (refl, refl);
}
collect-Collected faults cancelled clock b blocks (id ∷ ids) = elim (Bool-cases (cancelled id)) [
  | inl p ↦ rw (collect, p) (stopped (listed (id ∷ ids)) (time_of clock) b blocks)
  | inr p ↦ elim (Option-cases (mark_for_deletion faults b id (time_of clock id))) [
    | inl q ↦ rw (collect, p, q) (stopped (listed (id ∷ ids)) (time_of clock) b blocks)
    | inr (b', q) ↦
        let one =
          marked_one b id (time_of clock id) _ b' q
            (mark_for_deletion-Marks faults b id (time_of clock id)) in
        let rest = collect-Collected faults cancelled clock b' (remove blocks id) ids in
        let now : (j : ℕ) → get b'.marks j ≡ mark_if (id == j) (get b.marks j) (time_of clock j) =
          λ j. one j ∙ same_time clock id j (get b.marks j) in
        rw (collect, p, q)
          (record {
            marks = λ j.
                Grown-on (id == j) (listed ids j) (time_of clock j) _ _ _ (now j) (rest.marks j);
            forgotten = λ j.
                Forgotten-on (id == j) (listed ids j) (time_of clock j) _ _ _ _ _ _ (now j)
                  (get-remove blocks id j) (rest.marks j) (rest.forgotten j);
            done = λ j.
                Done-on _ (id == j) (listed ids j) (time_of clock j) _ _ _ _ _ _ (now j)
                  (get-remove blocks id j) (rest.done j);
          })
  ]
]
