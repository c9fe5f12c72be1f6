-- ===== src/Receive/Handler/Collect.antt =====
-- pkg/receive/handler.go: the loop of `fanoutForward` that collects the replies.
use mathlib.Core.Path.{subst, ap₂}
use mathlib.Core.List.{Permᴰ}
use promlts.Receive.Errors.{
  Err, context_done, wrap, MultiError, no_errors, and_error, concat_errors, add_error, err, cause,
  contained,
}
use promlts.Receive.Handler.{World, collect, fanout_forward}
use promlts.Prelude.{
  leb, if◌then◌else◌, Bool-cases, length, All, ℕ, suc, ◌+◌, ◌≤◌, ◌<◌, ◌≡◌, refl, sym, ap, ◌∙◌, ◌↔◌,
  inl, inr, Bool, true, false, Option, none, some, List, [], ◌∷◌, arith,
}

abbrev pub nils : List (Option Err) → ℕ
nils [] = 0
nils (none ∷ replies) = nils replies + 1
nils (some e ∷ replies) = nils replies

-- The errors of the replies, with those inside a MultiError taken out.
abbrev pub all_errors : MultiError → List (Option Err) → MultiError
all_errors errs [] = errs
all_errors errs (none ∷ replies) = all_errors errs replies
all_errors errs (some e ∷ replies) = all_errors (add_error errs (some e)) replies

abbrev pub ended : Bool → MultiError → Option Err
ended done errs = if done then some context_done else err errs

collect-enough :
    (t : ℕ) (done : Bool) (s : ℕ) (errs : MultiError) (replies : List (Option Err))
    → s < t
    → t ≤ s + nils replies
    → collect t done s errs replies ≡ none
unfolding collect
collect-enough t done s errs [] p q = ground arith
collect-enough t done s errs (none ∷ replies) p q = elim (Bool-cases (leb t (s + 1))) [
  | inl b ↦ rw b refl
  | inr b ↦ rw b (collect-enough t done (s + 1) errs replies (ground arith) (ground arith))
]
collect-enough t done s errs (some e ∷ replies) p q =
    collect-enough t done s (add_error errs (some e)) replies p q

collect-few :
    (t : ℕ) (done : Bool) (s : ℕ) (errs : MultiError) (replies : List (Option Err))
    → s + nils replies < t
    → collect t done s errs replies ≡ ended done (all_errors errs replies)
unfolding collect
collect-few t done s errs [] p = refl
collect-few t done s errs (none ∷ replies) p =
    rw (more p) (collect-few t done (s + 1) errs replies (ground arith))
  where
    more : s + (nils replies + 1) < t → leb t (s + 1) ≡ false
    more q = ground arith
collect-few t done s errs (some e ∷ replies) p =
    collect-few t done s (add_error errs (some e)) replies p

abbrev pub is_wrapped : Err → Bool
is_wrapped (wrap e) = true
is_wrapped e = false

-- A reply that `fanoutForward` makes: no error, or one wrapped with what it is about.
abbrev pub IsReply : Option Err → Type 0
IsReply none = Unit {0}
IsReply (some e) = is_wrapped e ≡ true

abbrev pub holds_errors : MultiError → Bool
holds_errors no_errors = false
holds_errors (and_error e es) = true

holds-concat :
    (es : MultiError) (e : Err) (fs : MultiError)
    → holds_errors (concat_errors es (and_error e fs)) ≡ true
unfolding concat_errors
holds-concat no_errors e fs = refl
holds-concat (and_error d es) e fs = refl

holds-add_error :
    (es : MultiError) (e : Err) → IsReply (some e) → holds_errors (add_error es (some e)) ≡ true
unfolding add_error
holds-add_error es e h = ground (arith, holds-concat es e no_errors)

holds-concat_left :
    (es fs : MultiError) → holds_errors es ≡ true → holds_errors (concat_errors es fs) ≡ true
unfolding concat_errors
holds-concat_left no_errors fs h = ground arith
holds-concat_left (and_error e es) fs h = refl

holds-all_errors :
    (errs : MultiError) (replies : List (Option Err))
    → All IsReply replies
    → holds_errors errs ≡ true
    → holds_errors (all_errors errs replies) ≡ true
holds-all_errors errs [] a h = h
holds-all_errors errs (none ∷ replies) (r, a) h = holds-all_errors errs replies a h
holds-all_errors errs (some e ∷ replies) (r, a) h =
    holds-all_errors (add_error errs (some e)) replies a (holds-add_error errs e r)

some-failed :
    (errs : MultiError) (replies : List (Option Err))
    → All IsReply replies
    → nils replies < length replies
    → holds_errors (all_errors errs replies) ≡ true
some-failed errs [] a p = ground arith
some-failed errs (none ∷ replies) (r, a) p = some-failed errs replies a (ground arith)
some-failed errs (some e ∷ replies) (r, a) p =
    holds-all_errors (add_error errs (some e)) replies a (holds-add_error errs e r)

err-holds : (errs : MultiError) → holds_errors errs ≡ true → err errs ≡ none → ⊥
unfolding err
err-holds no_errors h e = ground arith
err-holds (and_error f errs) h e = ground arith

nils_le : (replies : List (Option Err)) → nils replies ≤ length replies
nils_le [] = omega arith
nils_le (none ∷ replies) = ground (arith, nils_le replies)
nils_le (some e ∷ replies) = ground (arith, nils_le replies)

collect-no_errors :
    (t s : ℕ) (replies : List (Option Err))
    → nils replies ≡ length replies
    → collect t false s no_errors replies ≡ none
unfolding collect err
collect-no_errors t s [] e = refl
collect-no_errors t s (none ∷ replies) e =
    ground (arith, collect-no_errors t (s + 1) replies (ground arith))
collect-no_errors t s (some f ∷ replies) e = ground (arith, nils_le replies)

nils-cons : (x : Option Err) (rs : List (Option Err)) → nils (x ∷ rs) ≡ nils (x ∷ []) + nils rs
nils-cons none rs = omega arith
nils-cons (some e) rs = omega arith

nils-perm : {rs ss : List (Option Err)} → Permᴰ rs ss → nils rs ≡ nils ss
nils-perm Permᴰ.nil = refl
nils-perm (Permᴰ.cons {a} {b} {l₁} {l₂} e d) =
    nils-cons a l₁ ∙ ap₂ (λ x n. nils (x ∷ []) + n) e (nils-perm d) ∙ sym (nils-cons b l₂)
nils-perm (Permᴰ.swap {a} {b} {a'} {b'} {l} e f) = swapped a b ∙ ap₂ (λ x y. nils (x ∷ y ∷ l)) f e
  where
    swapped : (x y : Option Err) → nils (x ∷ y ∷ l) ≡ nils (y ∷ x ∷ l)
    swapped none none = refl
    swapped none (some y) = refl
    swapped (some x) none = refl
    swapped (some x) (some y) = refl
nils-perm (Permᴰ.trans d d') = nils-perm d ∙ nils-perm d'

length-perm : {rs ss : List (Option Err)} → Permᴰ rs ss → length rs ≡ length ss
length-perm Permᴰ.nil = refl
length-perm (Permᴰ.cons e d) = ap suc (length-perm d)
length-perm (Permᴰ.swap e f) = refl
length-perm (Permᴰ.trans d d') = length-perm d ∙ length-perm d'

IsReply-perm : {rs ss : List (Option Err)} → Permᴰ rs ss → All IsReply ss → All IsReply rs
IsReply-perm Permᴰ.nil h = h
IsReply-perm (Permᴰ.cons e d) (r, h) = (subst IsReply (sym e) r, IsReply-perm d h)
IsReply-perm (Permᴰ.swap e f) (r, (q, h)) = (subst IsReply (sym e) q, (subst IsReply (sym f) r, h))
IsReply-perm (Permᴰ.trans d d') h = IsReply-perm d (IsReply-perm d' h)

collect-quorum :
    (t : ℕ) (done : Bool) (replies : List (Option Err))
    → All IsReply replies
    → 0 < t
    → t ≤ length replies
    → (collect t done 0 no_errors replies ≡ none) ↔ (t ≤ nils replies)
collect-quorum t done replies a p q = elim (Bool-cases (leb t (nils replies))) [
  | inl b ↦ (λ e. ground arith, λ h. collect-enough t done 0 no_errors replies p (omega arith))
  | inr b ↦ (
    λ e. absurd (
        failed done (ground arith)
          (sym (collect-few t done 0 no_errors replies (ground arith)) ∙ e)),
    λ h. ground arith,
  )
]
  where
    failed :
        (d : Bool)
        → nils replies < length replies
        → ended d (all_errors no_errors replies) ≡ none
        → ⊥
    failed true few e = ground arith
    failed false few e =
        err-holds (all_errors no_errors replies) (some-failed no_errors replies a few) e

some_inj : (d e : Err) → some d ≡ some e → d ≡ e
some_inj d e h = ground arith

err-contained :
    (errs : MultiError) (e : Err) → err errs ≡ some e → holds_errors (contained (cause e)) ≡ true
unfolding err contained cause
err-contained no_errors e h = ground arith
err-contained (and_error f fs) e h =
    subst (λ x. holds_errors (contained (cause x)) ≡ true) (some_inj _ e h) refl

collect-contained :
    (t : ℕ) (done : Bool) (s : ℕ) (errs : MultiError) (replies : List (Option Err)) (e : Err)
    → collect t done s errs replies ≡ some e
    → holds_errors (contained (cause e)) ≡ true
unfolding collect contained cause
collect-contained t true s errs [] e h =
    subst (λ x. holds_errors (contained (cause x)) ≡ true) (some_inj _ e h) refl
collect-contained t false s errs [] e h = err-contained errs e h
collect-contained t done s errs (none ∷ replies) e h =
    ground (arith, collect-contained t done (s + 1) errs replies e)
collect-contained t done s errs (some f ∷ replies) e h =
    collect-contained t done s (add_error errs (some f)) replies e h

-- The error of `fanoutForward` contains an error.
pub fanout_forward-contained :
    (world : World) (t : ℕ) (replies : List (Option Err)) (e : Err)
    → fanout_forward world t replies ≡ some e
    → holds_errors (contained (cause e)) ≡ true
unfolding fanout_forward
fanout_forward-contained world t replies e h =
    collect-contained t world.done 0 no_errors (world.arrive replies) e h

module _ (world : World) (replies : List (Option Err))
    (p : Permᴰ (world.arrive replies) replies) where
  -- When every endpoint replies, in whatever order, and there are at least as many of them as the
  -- threshold, which is not 0, `fanoutForward` succeeds exactly when that many replies are free of an error.
  pub fanout_forward-quorum :
      (t : ℕ)
      → All IsReply replies
      → 0 < t
      → t ≤ length replies
      → (fanout_forward world t replies ≡ none) ↔ (t ≤ nils replies)
  unfolding fanout_forward
  fanout_forward-quorum t a q l =
      subst (λ n. (fanout_forward world t replies ≡ none) ↔ (t ≤ n)) (nils-perm p)
        (collect-quorum t world.done (world.arrive replies) (IsReply-perm p a) q
          (subst (λ n. t ≤ n) (sym (length-perm p)) l))

  -- When no reply has an error, and the channel closes before the context ends, `fanoutForward`
  -- succeeds even if there are fewer replies than the threshold.
  pub fanout_forward-no_quorum :
      (t : ℕ)
      → nils replies ≡ length replies
      → world.done ≡ false
      → fanout_forward world t replies ≡ none
  unfolding fanout_forward
  fanout_forward-no_quorum t e d =
      rw d (collect-no_errors t 0 (world.arrive replies) (nils-perm p ∙ e ∙ sym (length-perm p)))
