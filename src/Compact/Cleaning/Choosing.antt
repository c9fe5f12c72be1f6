-- ===== src/Compact/Cleaning/Choosing.antt =====
-- pkg/compact/retention.go and pkg/compact/compact.go: the retention and the garbage collection mark
-- the blocks they mean to.
use mathlib.Core.Path.{subst, fun_ext}
use promlts.Prelude.Dict.{nat_eq, Dict, get, remove}
use promlts.Prelude.Int.{ℤ, pos, negsuc, ◌+ℤ◌, ◌*ℤ◌, ◌/ℤ◌, ltb_ℤ}
use promlts.Block.Metas.{Meta, Metas}
use promlts.Block.Marks.{DeletionMark}
use promlts.Block.Deletion.{Bucket, Faults, mark_for_deletion}
use promlts.Compact.Cleaning.{
  is_over, exceeds_retention, apply_retention, garbage_ids, collect, garbage_collect,
}
use promlts.Compact.Cleaning.Marking.{
  listed, mark_if, Grown, time_of, Done, Collected, collect-Collected,
}
use promlts.Prelude.{
  ltb, ◌==◌, if◌then◌else◌, Bool-cases, Option-cases, ℕ, ◌≡◌, refl, sym, ap, ◌∙◌, inl, inr, Bool,
  true, false, ◌&&◌, ◌||◌, not, Option, none, some, List, [], ◌∷◌, arith,
}

abbrev unmarked : Option DeletionMark → Bool
unmarked none = true
unmarked (some time) = false

-- A duplicate without a mark.
abbrev pub is_garbage : Dict ℕ DeletionMark → List ℕ → ℕ → Bool
is_garbage marks ids id = listed ids id && unmarked (get marks id)

garbage_at :
    (x l : Bool) (marks : Dict ℕ DeletionMark) (id j : ℕ) (rest : List ℕ) (o : Option DeletionMark)
    → id == j ≡ x
    → get marks id ≡ o
    → listed rest j ≡ l && unmarked (get marks j)
    → listed (elim o [ some m ↦ rest | none ↦ id ∷ rest ]) j ≡ (x || l) && unmarked (get marks j)
garbage_at false l marks id j rest none p q h = rw p h
garbage_at false l marks id j rest (some t) p q h = h
garbage_at true l marks id j rest none p q h = let e : id ≡ j = ground arith in rw (p, ← e, q) refl
garbage_at true l marks id j rest (some t) p q h =
    let e : id ≡ j = ground arith in
    h ∙ ground (arith, ap (λ z. unmarked (get marks z)) e, ap unmarked q)

listed-garbage :
    (marks : Dict ℕ DeletionMark) (ids : List ℕ) (j : ℕ)
    → listed (garbage_ids marks ids) j ≡ is_garbage marks ids j
unfolding garbage_ids
listed-garbage marks [] j = refl
listed-garbage marks (id ∷ ids) j =
    garbage_at (id == j) (listed ids j) marks id j (garbage_ids marks ids) (get marks id) refl refl
      (listed-garbage marks ids j)

-- Whatever call fails and whenever the context is done: the garbage collection marks only duplicates
-- that the map of marks does not have, keeps the marks that are in the bucket, and forgets no block
-- that has no mark. If it ends without an error, each of these duplicates has a mark, with the time
-- at which it was made unless it had one before, and they are the blocks it has forgotten.
pub garbage_collect-Collected :
    (faults : Faults) (cancelled : ℕ → Bool) (clock : ℕ → ℕ) (marks : Dict ℕ DeletionMark)
    (duplicate_ids : List ℕ) (b : Bucket) (blocks : Metas)
    → Collected
        (is_garbage marks duplicate_ids)
        (time_of clock)
        b
        blocks
        (garbage_collect faults cancelled clock marks duplicate_ids b blocks)
unfolding garbage_collect
garbage_collect-Collected faults cancelled clock marks duplicate_ids b blocks =
    subst
      (λ (f : ℕ → Bool).
        Collected f (time_of clock) b blocks
          (collect faults cancelled clock b blocks (garbage_ids marks duplicate_ids)))
      (fun_ext (listed-garbage marks duplicate_ids))
      (collect-Collected faults cancelled clock b blocks (garbage_ids marks duplicate_ids))

-- The blocks over their retention.
abbrev pub over_ids : (ℕ → ℕ) → (ℤ → ℕ) → Metas → List ℕ
over_ids clock retentions [] = []
over_ids clock retentions ((id, m) ∷ metas) =
    if exceeds_retention clock retentions id m
    then id ∷ over_ids clock retentions metas
    else over_ids clock retentions metas

-- The resolution has a retention, and the end of the block, cut to seconds, plus the retention is
-- before the clock, all in nanoseconds.
abbrev pub is_too_old : (ℕ → ℕ) → (ℤ → ℕ) → ℕ → Meta → Bool
is_too_old clock retentions id m =
    ltb 0 (retentions m.resolution)
    && ltb_ℤ (m.max_time /ℤ pos 1000 *ℤ pos 1000000000 +ℤ pos (retentions m.resolution))
        (pos (clock id))

-- Some metadata under the ID is over its retention.
abbrev pub is_over_id : (ℕ → ℕ) → (ℤ → ℕ) → Metas → ℕ → Bool
is_over_id clock retentions [] j = false
is_over_id clock retentions ((id, m) ∷ metas) j =
    id == j && is_too_old clock retentions id m || is_over_id clock retentions metas j

is_over-seconds :
    (now : ℕ) (time : ℤ) (retention : ℕ)
    → is_over now time retention
      ≡ ltb_ℤ (time /ℤ pos 1000 *ℤ pos 1000000000 +ℤ pos retention) (pos now)
unfolding is_over ◌*ℤ◌ ◌+ℤ◌ ◌/ℤ◌
is_over-seconds now (pos n) retention = ground arith
is_over-seconds now (negsuc n) retention = ground arith

exceeds_retention-too_old :
    (clock : ℕ → ℕ) (retentions : ℤ → ℕ) (id : ℕ) (m : Meta)
    → exceeds_retention clock retentions id m ≡ is_too_old clock retentions id m
unfolding exceeds_retention
exceeds_retention-too_old clock retentions id m =
    ap (λ b. not (retentions m.resolution == 0) && b)
      (is_over-seconds (clock id) m.max_time (retentions m.resolution))
    ∙ ap
        (λ b.
          b
          && ltb_ℤ (m.max_time /ℤ pos 1000 *ℤ pos 1000000000 +ℤ pos (retentions m.resolution))
              (pos (clock id)))
        (ground arith)

listed-over :
    (clock : ℕ → ℕ) (retentions : ℤ → ℕ) (metas : Metas) (j : ℕ)
    → listed (over_ids clock retentions metas) j ≡ is_over_id clock retentions metas j
listed-over clock retentions [] j = refl
listed-over clock retentions ((id, m) ∷ metas) j =
    elim (Bool-cases (exceeds_retention clock retentions id m)) [
      | inl p ↦
          let q = sym (exceeds_retention-too_old clock retentions id m) ∙ p in
          rw (p, q) (ap (λ b. id == j || b) (listed-over clock retentions metas j) ∙ ground arith)
      | inr p ↦
          let q = sym (exceeds_retention-too_old clock retentions id m) ∙ p in
          rw (p, q) (listed-over clock retentions metas j ∙ ground arith)
    ]

abbrev never : ℕ → Bool
never id = false

-- The bucket and the verdict of a collection.
abbrev verdict : Bucket × Metas × Bool → Bucket × Bool
verdict (b, blocks, ok) = (b, ok)

apply_retention-collect :
    (faults : Faults) (clock : ℕ → ℕ) (retentions : ℤ → ℕ) (b : Bucket) (blocks metas : Metas)
    → apply_retention faults clock retentions b metas
      ≡ verdict (collect faults never clock b blocks (over_ids clock retentions metas))
unfolding apply_retention collect
apply_retention-collect faults clock retentions b blocks [] = refl
apply_retention-collect faults clock retentions b blocks ((id, m) ∷ metas) =
    elim (Bool-cases (exceeds_retention clock retentions id m)) [
      | inr p ↦
          rw (apply_retention, p) (apply_retention-collect faults clock retentions b blocks metas)
      | inl p ↦ elim (Option-cases (mark_for_deletion faults b id (time_of clock id))) [
        | inl q ↦ rw (apply_retention, collect, p, q) refl
        | inr (b', q) ↦
            rw (apply_retention, collect, p, q)
              (apply_retention-collect faults clock retentions b' (remove blocks id) metas)
      ]
    ]

abbrev Finished : Bool → Bool → ℤ → Option ℤ → Option ℤ → Type 0
Finished false chosen time o o' = Unit
Finished true chosen time o o' = o' ≡ mark_if chosen o time

pub record Retains (chosen : ℕ → Bool) (time : ℕ → ℤ) (b : Bucket) (r : Bucket × Bool)
    : Type 0 where
  pub marks : (id : ℕ) → Grown (chosen id) (time id) (get b.marks id) (get r.0.marks id)
  pub done : (id : ℕ) → Finished r.1 (chosen id) (time id) (get b.marks id) (get r.0.marks id)

finished :
    (ok chosen : Bool) (t : ℤ) (o o' : Option ℤ) (m m' : Option Meta)
    → Done ok chosen t (o, m) (o', m')
    → Finished ok chosen t o o'
finished false chosen t o o' m m' d = tt
finished true chosen t o o' m m' d = d.0

retained :
    (chosen : ℕ → Bool) (time : ℕ → ℤ) (b : Bucket) (blocks : Metas) (r : Bucket × Metas × Bool)
    → Collected chosen time b blocks r
    → Retains chosen time b (verdict r)
retained chosen time b blocks (b', blocks', ok) c = record {
  marks = c.marks;
  done = λ id. finished ok (chosen id) (time id) _ _ _ _ (c.done id);
}

-- A block is over its retention if its resolution has one, and the end of the block, cut to seconds,
-- plus the retention is before the clock. Whatever call fails: the retention marks only blocks that
-- are over it, and keeps the marks that are in the bucket. If it ends without an error, every block
-- over its retention has a mark, with the time at which it was made unless it had one before.
pub apply_retention-Retains :
    (faults : Faults) (clock : ℕ → ℕ) (retentions : ℤ → ℕ) (b : Bucket) (metas : Metas)
    → Retains
        (is_over_id clock retentions metas)
        (time_of clock)
        b
        (apply_retention faults clock retentions b metas)
apply_retention-Retains faults clock retentions b metas =
    subst (λ r. Retains (is_over_id clock retentions metas) (time_of clock) b r)
      (sym (apply_retention-collect faults clock retentions b [] metas))
      (retained (is_over_id clock retentions metas) (time_of clock) b [] _ (
        subst
          (λ (f : ℕ → Bool).
            Collected f (time_of clock) b []
              (collect faults never clock b [] (over_ids clock retentions metas)))
          (fun_ext (listed-over clock retentions metas))
          (collect-Collected faults never clock b [] (over_ids clock retentions metas))))
