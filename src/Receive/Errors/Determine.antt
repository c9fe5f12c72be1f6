-- ===== src/Receive/Errors/Determine.antt =====
-- pkg/receive/handler.go: `determineWriteErrorCause`.
use promlts.Receive.Errors.{
  Err, conflict, not_ready, unavailable, bad_replica, MultiError, and_error, cause, is_conflict,
  is_not_ready, is_unavailable, count_causes, insert_error, sort_errors, expected_errors, first_if,
  contained, determine_from, determine_write_error_cause,
}
use promlts.Prelude.{
  ltb, leb, if◌then◌else◌, Bool-cases, ℕ, suc, ◌≤◌, ◌<◌, ◌≡◌, refl, inl, inr, some, [], arith,
}

pub data Sentinel : Type 0 where
  on_conflict : Sentinel
  on_not_ready : Sentinel
  on_unavailable : Sentinel

abbrev pub sentinel_err : Sentinel → Err
sentinel_err on_conflict = conflict
sentinel_err on_not_ready = not_ready
sentinel_err on_unavailable = unavailable

abbrev pub count_of : Sentinel → MultiError → ℕ
count_of on_conflict errs = count_causes is_conflict errs
count_of on_not_ready errs = count_causes is_not_ready errs
count_of on_unavailable errs = count_causes is_unavailable errs

-- What the code may answer on the errors `errs` of `e`.
pub data Verdict (errs : MultiError) (e : Err) (threshold : ℕ) : Err → Type 0 where
  frequent :
      (s : Sentinel)
      → threshold ≤ count_of s errs
      → ((z : Sentinel) → count_of z errs ≤ count_of s errs)
      → Verdict errs e threshold (sentinel_err s)
  none_frequent : ((z : Sentinel) → count_of z errs < threshold) → Verdict errs e threshold e

abbrev first_of_three : ℕ → Err → ℕ → ℕ → ℕ → Err
first_of_three t e a b c =
    if ltb a b
    then (if ltb b c
        then (if leb t c then unavailable else e)
        else (if leb t b then not_ready else e))
    else (if ltb a c
        then (if leb t c then unavailable else e)
        else (if leb t a then conflict else e))

at_most :
    (errs : MultiError) (m : ℕ)
    → count_of on_conflict errs ≤ m
    → count_of on_not_ready errs ≤ m
    → count_of on_unavailable errs ≤ m
    → (z : Sentinel) → count_of z errs ≤ m
at_most errs m p q r on_conflict = p
at_most errs m p q r on_not_ready = q
at_most errs m p q r on_unavailable = r

first_sorted :
    (t : ℕ) (e : Err) (errs : MultiError)
    → first_if t e (sort_errors [] (expected_errors errs))
      ≡ first_of_three t e
          (count_of on_conflict errs)
          (count_of on_not_ready errs)
          (count_of on_unavailable errs)
unfolding first_if sort_errors insert_error expected_errors
first_sorted t e errs = ground arith

determine_from_lem :
    (f e : Err) (fs : MultiError) (t : ℕ)
    → determine_from (and_error f fs) e (suc t)
      ≡ some (first_if (suc t) e (sort_errors [] (expected_errors (and_error f fs))))
unfolding determine_from
determine_from_lem f e fs t = refl

module _ (t : ℕ) (e : Err) (errs : MultiError) where
  most :
      (s : Sentinel)
      → ((z : Sentinel) → count_of z errs ≤ count_of s errs)
      → Verdict errs e t (if leb t (count_of s errs) then sentinel_err s else e)
  most s h = elim (Bool-cases (leb t (count_of s errs))) [
    | inl b ↦ rw b (frequent s (ground arith) h)
    | inr b ↦ rw b (none_frequent (λ z. ground (arith, h z)))
  ]

  Verdict-of_three : Verdict errs e t (
      first_of_three t e
        (count_of on_conflict errs)
        (count_of on_not_ready errs)
        (count_of on_unavailable errs))
  Verdict-of_three =
      let a = count_of on_conflict errs in
      let b = count_of on_not_ready errs in
      let c = count_of on_unavailable errs in
      elim (Bool-cases (ltb a b)) [
        | inl p ↦ rw p (elim (Bool-cases (ltb b c)) [
          | inl q ↦ rw q (
              most on_unavailable (
                at_most errs (count_of on_unavailable errs) (ground arith) (ground arith)
                  (ground arith)))
          | inr q ↦ rw q (
              most on_not_ready (
                at_most errs (count_of on_not_ready errs) (ground arith) (ground arith)
                  (ground arith)))
        ])
        | inr p ↦ rw p (elim (Bool-cases (ltb a c)) [
          | inl q ↦ rw q (
              most on_unavailable (
                at_most errs (count_of on_unavailable errs) (ground arith) (ground arith)
                  (ground arith)))
          | inr q ↦ rw q (
              most on_conflict (
                at_most errs (count_of on_conflict errs) (ground arith) (ground arith)
                  (ground arith)))
        ])
      ]

-- For an error that contains an error (any error but an empty MultiError) and a threshold of at
-- least 1, `determineWriteErrorCause` returns either a sentinel that at least `threshold` of the
-- contained errors stand for, and no sentinel stands for more of them; or, when no sentinel reaches
-- the threshold, the error itself.
pub determine-Verdict :
    (e f : Err) (fs : MultiError) (t : ℕ)
    → contained (cause e) ≡ and_error f fs
    → (r : Err) × (determine_write_error_cause (some e) (suc t) ≡ some r)
      × Verdict (and_error f fs) e (suc t) r
unfolding determine_write_error_cause
determine-Verdict e f fs t h = (
  first_if (suc t) e (sort_errors [] (expected_errors (and_error f fs))),
  rw h (determine_from_lem f e fs t),
  rw (first_sorted (suc t) e (and_error f fs)) (Verdict-of_three (suc t) e (and_error f fs)),
)

pub determine-bad_replica : determine_write_error_cause (some bad_replica) 1 ≡ some bad_replica
unfolding determine_write_error_cause determine_from contained cause first_if sort_errors
    insert_error expected_errors count_causes is_conflict is_not_ready is_unavailable
determine-bad_replica = refl
