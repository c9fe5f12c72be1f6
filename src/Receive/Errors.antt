-- ===== src/Receive/Errors.antt =====
-- pkg/errutil/multierror.go, and the errors of pkg/receive/handler.go. An error is its kind; the
-- text is left out, and a wrapped error is `wrap` of its cause. `none` is the nil error.
pub mod Determine
use promlts.Prelude.{
  ltb, leb, ◌==◌, if◌then◌else◌, ℕ, zero, suc, ◌+◌, Bool, true, false, Option, none, some, List, [],
  ◌∷◌,
}

mutual
  pub data Err : Type 0 where
    conflict : Err
    not_ready : Err
    unavailable : Err
    bad_replica : Err
    -- storage.ErrDuplicateSampleForTimestamp, ErrOutOfOrderSample, ErrOutOfBounds
    duplicate_sample : Err
    out_of_order_sample : Err
    out_of_bounds : Err
    tsdb_not_ready : Err
    -- a gRPC status error, by its code
    status : ℕ → Err
    -- insufficientNodesError, `have` and `want`
    insufficient_nodes : ℕ → ℕ → Err
    no_matching_hashring : Err
    hashring_not_ready : Err
    context_done : Err
    -- not an error: the run-time panic on an index out of range
    index_out_of_range : Err
    other : ℕ → Err
    wrap : Err → Err
    non_nil_multi : MultiError → Err

  pub data MultiError : Type 0 where
    no_errors : MultiError
    and_error : Err → MultiError → MultiError

unfoldable pub concat_errors : MultiError → MultiError → MultiError
concat_errors no_errors fs = fs
concat_errors (and_error e es) fs = and_error e (concat_errors es fs)

unfoldable pub add_error : MultiError → Option Err → MultiError
add_error es none = es
add_error es (some (non_nil_multi merr)) = concat_errors es merr
add_error es (some e) = concat_errors es (and_error e no_errors)

unfoldable pub err : MultiError → Option Err
err no_errors = none
err (and_error e es) = some (non_nil_multi (and_error e es))

-- errors.Cause
unfoldable pub cause : Err → Err
cause (wrap e) = cause e
cause e = e

abbrev pub already_exists : ℕ
already_exists = 6

abbrev pub code_unavailable : ℕ
code_unavailable = 14

pub is_conflict : Err → Bool
is_conflict conflict = true
is_conflict duplicate_sample = true
is_conflict out_of_order_sample = true
is_conflict out_of_bounds = true
is_conflict (status code) = code == already_exists
is_conflict e = false

pub is_not_ready : Err → Bool
is_not_ready not_ready = true
is_not_ready tsdb_not_ready = true
is_not_ready (status code) = code == code_unavailable
is_not_ready e = false

pub is_unavailable : Err → Bool
is_unavailable unavailable = true
is_unavailable (status code) = code == code_unavailable
is_unavailable e = false

pub record ExpectedError : Type 0 where
  pub err : Err
  pub count : ℕ

-- The errors whose cause satisfies a test.
unfoldable pub count_causes : (Err → Bool) → MultiError → ℕ
count_causes test no_errors = 0
count_causes test (and_error e es) =
    let rest = count_causes test es in if test (cause e) then rest + 1 else rest

-- `sort.Reverse` of the order by count: the insertion sort that package sort uses on short slices.
pub insert_error : ExpectedError → List ExpectedError → List ExpectedError
insert_error x [] = x ∷ []
insert_error x (y ∷ ys) =
    let rest = insert_error x ys in if ltb y.count x.count then x ∷ (y ∷ ys) else y ∷ rest

pub sort_errors : List ExpectedError → List ExpectedError → List ExpectedError
sort_errors done [] = done
sort_errors done (x ∷ xs) = sort_errors (insert_error x done) xs

pub expected_errors : MultiError → List ExpectedError
expected_errors errs =
    record { err = conflict; count = count_causes is_conflict errs }
    ∷ record { err = not_ready; count = count_causes is_not_ready errs }
    ∷ record { err = unavailable; count = count_causes is_unavailable errs }
    ∷ []

pub first_if : ℕ → Err → List ExpectedError → Err
first_if threshold e [] = e
first_if threshold e (exp ∷ exps) = if leb threshold exp.count then exp.err else e

-- The errors of an error: those of a MultiError, or itself.
unfoldable pub contained : Err → MultiError
contained (non_nil_multi errs) = errs
contained e = and_error e no_errors

pub determine_from : MultiError → Err → ℕ → Option Err
unfolding first_if sort_errors insert_error expected_errors
determine_from no_errors e threshold = none
determine_from (and_error f errs) e zero = some e
determine_from (and_error f errs) e (suc threshold) =
    some (first_if (suc threshold) e (sort_errors [] (expected_errors (and_error f errs))))

pub determine_write_error_cause : Option Err → ℕ → Option Err
unfolding determine_from contained cause
determine_write_error_cause none threshold = none
determine_write_error_cause (some e) threshold = determine_from (contained (cause e)) e threshold
