-- ===== src/Receive/Forward/Batch.antt =====
-- pkg/receive/handler.go: the loop of `forward` that batches the series by endpoint.
-- The series of those that go to the endpoint, in order.
use mathlib.Core.Path.{subst}
use mathlib.Core.List.{append-nil, append_assoc}
use promlts.Receive.Errors.{Err}
use promlts.Receive.Hashring.{TimeSeries, Result, ok, error, Hashring, get_n}
use promlts.Receive.Handler.{World}
use promlts.Receive.Forward.{batch_at, batch}
use promlts.Prelude.Dict.{Dict, get, put, get-put}
use promlts.Labelpb.{Bytes, bytes_eq, bytes_eq_iff, bytes_key, Label}
use promlts.Prelude.{
  if◌then◌else◌, Bool-cases, ℕ, ◌≡◌, refl, sym, ap, ◌∙◌, ◌⊎◌, inl, inr, some, List, [], ◌∷◌, ◌++◌,
  arith,
}

abbrev pub sent_to : Bytes → List (Bytes × TimeSeries) → List TimeSeries
sent_to endpoint [] = []
sent_to endpoint ((k, ts) ∷ ps) =
    let rest = sent_to endpoint ps in if bytes_eq k endpoint then ts ∷ rest else rest

abbrev pub Batches : Type 0
Batches = Dict Bytes (List TimeSeries)

abbrev and_then :
    (Bytes × TimeSeries) → Result (List (Bytes × TimeSeries)) → Result (List (Bytes × TimeSeries))
and_then p (ok ps) = ok (p ∷ ps)
and_then p (error e) = error e

batch_at-put :
    (w : Batches) (k e : Bytes) (wr : List TimeSeries)
    → batch_at (put w k wr) e ≡ (if bytes_eq k e then wr else batch_at w e)
batch_at-put w k e wr = ground (arith, get-put w k e wr)

-- The batches have what was batched before, and what the endpoints were assigned since.
abbrev Extends : Batches → Result (List (Bytes × TimeSeries)) → Result Batches → Type 0
Extends before (error e) after = after ≡ error e
Extends before (ok ps) after =
    (w : Batches) × (after ≡ ok w)
    × ((endpoint : Bytes) → batch_at w endpoint ≡ batch_at before endpoint ++ sent_to endpoint ps)
    × ((endpoint : Bytes) → get w endpoint ≡ some [] → ⊥)

abbrev NoneEmpty : Batches → Type 0
NoneEmpty w = (endpoint : Bytes) → get w endpoint ≡ some [] → ⊥

snoc-nonempty : (ws : List TimeSeries) (ts : TimeSeries) → ws ++ (ts ∷ []) ≡ [] → ⊥
snoc-nonempty [] ts h = ground arith
snoc-nonempty (w ∷ ws) ts h = ground arith

nothing-NoneEmpty : NoneEmpty []
unfolding get
nothing-NoneEmpty endpoint e = ground arith

NoneEmpty-put :
    (w : Batches) (k : Bytes) (ts : TimeSeries)
    → NoneEmpty w
    → NoneEmpty (put w k (batch_at w k ++ (ts ∷ [])))
NoneEmpty-put w k ts h endpoint e = ground (
  arith,
  get-put w k endpoint (batch_at w k ++ (ts ∷ [])),
  snoc-nonempty (batch_at w k) ts,
  h endpoint,
)

append-put :
    (w : Batches) (k : Bytes) (ts : TimeSeries) (ps : List (Bytes × TimeSeries)) (endpoint : Bytes)
    → batch_at (put w k (batch_at w k ++ (ts ∷ []))) endpoint ++ sent_to endpoint ps
      ≡ batch_at w endpoint ++ sent_to endpoint ((k, ts) ∷ ps)
append-put w k ts ps endpoint =
    ap (λ b. b ++ sent_to endpoint ps) (batch_at-put w k endpoint (batch_at w k ++ (ts ∷ [])))
    ∙ elim (Bool-cases (bytes_eq k endpoint)) [
      | inl t ↦ rw t (
          subst
            (λ x.
              (batch_at w k ++ (ts ∷ [])) ++ sent_to endpoint ps
              ≡ batch_at w x ++ (ts ∷ sent_to endpoint ps))
            ((bytes_eq_iff k endpoint).0 t)
            (append_assoc (batch_at w k) (ts ∷ []) (sent_to endpoint ps)))
      | inr t ↦ rw t refl
    ]

Extends-and_then :
    (w : Batches) (k : Bytes) (ts : TimeSeries) (rest : Result (List (Bytes × TimeSeries)))
    (after : Result Batches)
    → Extends (put w k (batch_at w k ++ (ts ∷ []))) rest after
    → Extends w (and_then (k, ts) rest) after
Extends-and_then w k ts (error e) after h = h
Extends-and_then w k ts (ok ps) after (v, e, at, full) =
    (v, e, λ endpoint. at endpoint ∙ append-put w k ts ps endpoint, full)

Result-cases : {A : Type 0} (r : Result A) → ((e : Err) × (r ≡ error e)) ⊎ ((a : A) × (r ≡ ok a))
Result-cases (error e) = inl (e, refl)
Result-cases (ok a) = inr (a, refl)

module _ (hash : Bytes → List Label → ℕ) (world : World) (tenant : Bytes) (n : ℕ) where
  -- The endpoint of each series, as the hashring gives it, one call after the other.
  pub assign : Hashring → List TimeSeries → Result (List (Bytes × TimeSeries))
  assign ring [] = ok []
  assign ring (ts ∷ series) =
      let (after, got) = get_n hash ring tenant ts n in
      let rest = assign after series in
      elim got.node [ error e ↦ error e | ok endpoint ↦ and_then (endpoint, got.series) rest ]

  batch-Extends :
      (ring : Hashring) (series : List TimeSeries) (before : Batches)
      → NoneEmpty before
      → Extends before (assign ring series) (batch hash world ring tenant series n before).wreqs
  unfolding assign batch
  batch-Extends ring [] before h =
      (before, refl, λ endpoint. sym (append-nil (batch_at before endpoint)), h)
  batch-Extends ring (ts ∷ series) before h =
      elim (Result-cases (get_n hash ring tenant ts n).1.node) [
        | inl (e, f) ↦ rw (f, assign, batch) refl
        | inr (k, f) ↦
            rw (f, assign, batch)
              (Extends-and_then before k (get_n hash ring tenant ts n).1.series
                (assign (get_n hash ring tenant ts n).0 series)
                (batch hash world (get_n hash ring tenant ts n).0 tenant series n (
                  put before k
                    (batch_at before k ++ ((get_n hash ring tenant ts n).1.series ∷ [])))).wreqs
                (batch-Extends (get_n hash ring tenant ts n).0 series
                  (put before k
                    (batch_at before k ++ ((get_n hash ring tenant ts n).1.series ∷ [])))
                  (NoneEmpty-put before k (get_n hash ring tenant ts n).1.series h)))
      ]

  abbrev pub IsBatched : Result (List (Bytes × TimeSeries)) → Result Batches → Type 0
  IsBatched (error e) batched = batched ≡ error e
  IsBatched (ok ps) batched =
      (w : Batches) × (batched ≡ ok w)
      × ((endpoint : Bytes) → batch_at w endpoint ≡ sent_to endpoint ps)
      × ((endpoint : Bytes) → get w endpoint ≡ some [] → ⊥)

  -- If the hashring has no node for one of the series, `forward` batches nothing and has that error;
  -- else it has a batch of series for each endpoint, which are those that the hashring assigns to
  -- it, in the order of the request, and no batch is empty.
  pub batch-assign :
      (ring : Hashring) (series : List TimeSeries)
      → IsBatched (assign ring series) (batch hash world ring tenant series n []).wreqs
  unfolding get
  batch-assign ring series =
      from_none (assign ring series) (batch hash world ring tenant series n []).wreqs
        (batch-Extends ring series [] nothing-NoneEmpty)
    where
      from_none :
          (r : Result (List (Bytes × TimeSeries))) (after : Result Batches)
          → Extends [] r after
          → IsBatched r after
      from_none (error e) after h = h
      from_none (ok ps) after (w, e, at, full) = (w, e, at, full)
