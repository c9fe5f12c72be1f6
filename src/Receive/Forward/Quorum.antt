-- ===== src/Receive/Forward/Quorum.antt =====
-- pkg/receive/handler.go: `replicate`.
use mathlib.Core.Path.{subst}
use mathlib.Core.List.{Permᴰ}
use mathlib.Core.Option
use promlts.Receive.Errors.{
  Err, wrap, MultiError, no_errors, and_error, cause, contained, determine_write_error_cause,
}
use promlts.Receive.Errors.Determine.{determine-Verdict}
use promlts.Receive.Hashring.{TimeSeries, Result, ok, sort_series, Hashring, simple_get_n, get_n}
use promlts.Receive.Hashring.Spread.{IsDistinct, simple_get_n-node, simple_get_n-apart}
use promlts.Receive.Hashring.Serving.{Serves, get_n-Serves, node-sorted, series-sorted}
use promlts.Receive.Handler.{Replica, Handler, World, write_quorum, send_all, fanout_forward}
use promlts.Receive.Handler.Collect.{
  nils, holds_errors, fanout_forward-contained, fanout_forward-quorum,
}
use promlts.Receive.Handler.Replies.{send_all-IsReply, length-send_all}
use promlts.Receive.Forward.{Chosen, choose, replicate}
use promlts.Prelude.Dict.{Dict, get, put, get-put, length-put_new}
use promlts.Labelpb.{Bytes, bytes_eq, bytes_eq_iff, bytes_key, Label}
use promlts.Prelude.{
  Bool-cases, Option-cases, length, ℕ, zero, suc, ◌+◌, ◌^◌, ◌≤◌, ◌<◌, ◌≡◌, refl, sym, ap, ◌∙◌, ◌↔◌,
  inl, inr, true, Option, none, some, List, [], ◌∷◌, arith,
}

quorum_le : (rf : ℕ) → 0 < rf → write_quorum rf ≤ rf
quorum_le rf p = omega arith

determine-some :
    (e : Err) (t : ℕ) (errs : MultiError)
    → contained (cause e) ≡ errs
    → holds_errors errs ≡ true
    → determine_write_error_cause (some e) (suc t) ≡ none
    → ⊥
determine-some e t no_errors c h n = ground arith
determine-some e t (and_error f fs) c h n =
    let (r, d, v) = determine-Verdict e f fs t c in absurd (some_none r (sym d ∙ n))
  where
    some_none : (r : Err) → some r ≡ none → ⊥
    some_none r p = ground arith

abbrev quorum_result : ℕ → Option Err → Option Err
quorum_result q none = none
quorum_result q (some e) = Option.map wrap (determine_write_error_cause (some e) q)

quorum_result-none :
    (q : ℕ) (o : Option Err)
    → 0 < q
    → ((e : Err) → o ≡ some e → holds_errors (contained (cause e)) ≡ true)
    → (quorum_result q o ≡ none) ↔ (o ≡ none)
quorum_result-none q none p h = (λ e. refl, λ e. refl)
quorum_result-none zero (some e) p h = ground arith
quorum_result-none (suc t) (some e) p h = (
  λ n. absurd (
      determine-some e t (contained (cause e)) refl (h e refl)
        (map_none (determine_write_error_cause (some e) (suc t)) n)),
  λ n. ground arith,
)
  where
    map_none : (o : Option Err) → Option.map wrap o ≡ none → o ≡ none
    map_none none p = refl
    map_none (some x) p = ground arith

module _ (hash : Bytes → List Label → ℕ) (world : World) (s : List Bytes) (tenant : Bytes)
    (ts : TimeSeries) where
  abbrev node : ℕ → Result Bytes
  node i = (simple_get_n hash s tenant ts i).node

  -- Each node chosen so far is that of a replica below `i`.
  abbrev ChosenBelow : ℕ → Dict Bytes Replica → Type 0
  ChosenBelow i replicas =
      (k : Bytes) (r : Replica) → get replicas k ≡ some r → (j : ℕ) × (j < i) × (node j ≡ ok k)

  none-ChosenBelow : ChosenBelow 0 []
  unfolding get
  none-ChosenBelow k r g = absurd (none_some r g)
    where
      none_some : (r : Replica) → none ≡ some r → ⊥
      none_some r g = ground arith

  -- The state of the loop of `replicate`: the series is as it came, or sorted.
  abbrev SameNodes : TimeSeries → Type 0
  SameNodes x = (n : ℕ) → n < length s → (simple_get_n hash s tenant x n).node ≡ node n

  put-ChosenBelow :
      (i : ℕ) (k : Bytes) (r : Replica) (replicas : Dict Bytes Replica)
      → node i ≡ ok k
      → ChosenBelow i replicas
      → ChosenBelow (i + 1) (put replicas k r)
  put-ChosenBelow i k r replicas e h j q f = elim (Bool-cases (bytes_eq k j)) [
    | inl t ↦ (i, omega arith, e ∙ ap ok ((bytes_eq_iff k j).0 t))
    | inr t ↦
        (let (n, p, g) = h j q (sym (get-put replicas k j r ∙ rw t refl) ∙ f) in
          (n, ground arith, g))
  ]

  module _ (distinct : IsDistinct s)
      (room : hash tenant (sort_series ts).labels + length s ≤ 2 ^ 64) where
    fresh :
        (i : ℕ) (k : Bytes) (replicas : Dict Bytes Replica)
        → i < length s
        → node i ≡ ok k
        → ChosenBelow i replicas
        → get replicas k ≡ none
    fresh i k replicas p e h = elim (Option-cases (get replicas k)) [
      | inl n ↦ n
      | inr (r, f) ↦
          (let (j, q, g) = h k r f in
            absurd (
              below q (
                simple_get_n-apart hash s tenant ts distinct room j i (ground arith) p
                  (g ∙ sym e))))
    ]
      where
        below : {j : ℕ} → j < i → j ≡ i → ⊥
        below q e = omega arith

    choose-ok :
        (left i : ℕ) (ring : Hashring) (x : TimeSeries) (replicas : Dict Bytes Replica) (k : Bytes)
        → (get_n hash ring tenant x i).1.node ≡ ok k
        → choose hash world ring tenant x (suc left) i replicas
          ≡ choose hash world
              (get_n hash ring tenant x i).0
              tenant
              (get_n hash ring tenant x i).1.series
              left
              (i + 1)
              (put replicas k (record { n = i; replicated = true }))
    unfolding choose
    choose-ok left i ring x replicas k e = rw (e, choose) refl

    choose-all :
        (left i : ℕ) (ring : Hashring) (x : TimeSeries) (replicas : Dict Bytes Replica)
        → Serves s tenant ring
        → SameNodes x
        → i + left ≤ length s
        → ChosenBelow i replicas
        → (all : Dict Bytes Replica) × ((choose hash world ring tenant x left i replicas).replicas
            ≡ ok all)
          × (length all ≡ length replicas + left)
    unfolding choose
    choose-all zero i ring x replicas v w p h = (replicas, refl, omega arith)
    choose-all (suc left) i ring x replicas v w p h =
        let (served, got) = get_n-Serves hash s tenant ring x i v in
        let (at, k, found, here) = (simple_get_n-node hash s tenant ts i).0 (ground arith) in
        let r : Replica = record { n = i; replicated = true } in
        let (all, e, l) =
          choose-all left (i + 1) (get_n hash ring tenant x i).0
            (get_n hash ring tenant x i).1.series (put replicas k r) served
            (λ n q.
              ap (λ y. (simple_get_n hash s tenant y n).node)
                (ap (λ g. g.series) got ∙ series-sorted hash s tenant x i (ground arith))
              ∙ node-sorted hash s tenant x n q
              ∙ w n q)
            (ground arith) (put-ChosenBelow i k r replicas here h) in
        (
          all,
          ap (λ c. c.replicas)
                (choose-ok left i ring x replicas k
                  (ap (λ g. g.node) got ∙ w i (ground arith) ∙ here))
              ∙ e,
          l
              ∙ ap (λ n. n + left)
                  (length-put_new replicas k r (fresh i k replicas (ground arith) here h))
              ∙ omega arith,
        )

    abbrev pub chosen : Handler → Hashring → Chosen
    chosen h ring = choose hash world ring tenant ts h.replication_factor 0 []

    -- The replies for the chosen nodes, each of which is sent the whole request.
    abbrev pub replies_of :
        Handler → Hashring → List TimeSeries → Dict Bytes Replica → List (Option Err)
    replies_of h ring wreq all =
        (send_all world h.endpoint h.peers ((chosen h ring).series ∷ wreq) all).1

    replicate-chosen :
        (h : Handler) (ring : Hashring) (wreq : List TimeSeries) (all : Dict Bytes Replica)
        → h.hashring ≡ some ring
        → (chosen h ring).replicas ≡ ok all
        → (replicate hash world h tenant (ts ∷ wreq)).1
          ≡ quorum_result (write_quorum h.replication_factor) (
              fanout_forward world (write_quorum h.replication_factor) (replies_of h ring wreq all))
    unfolding replicate
    replicate-chosen h ring wreq all e f = rw (e, f, replicate) refl

    SameNodes-ts : SameNodes ts
    SameNodes-ts n p = refl

    -- A tenant's hashring that lists no node twice, and of at least as many nodes as the replication
    -- factor; the hash leaves room below 2^64; and every endpoint replies, in whatever order. Then
    -- `replicate` sends the request to as many nodes as the replication factor says, and succeeds
    -- exactly when a majority of them, `writeQuorum`, reply without an error.
    pub replicate-quorum :
        (h : Handler) (ring : Hashring) (wreq : List TimeSeries)
        → h.hashring ≡ some ring
        → Serves s tenant ring
        → 0 < h.replication_factor
        → h.replication_factor ≤ length s
        → ((replies : List (Option Err)) → Permᴰ (world.arrive replies) replies)
        → (all : Dict Bytes Replica) × ((chosen h ring).replicas ≡ ok all)
          × (length all ≡ h.replication_factor)
          × (((replicate hash world h tenant (ts ∷ wreq)).1 ≡ none)
              ↔ (write_quorum h.replication_factor ≤ nils (replies_of h ring wreq all)))
    replicate-quorum h ring wreq e v p q perm =
        let (all, f, l) =
          choose-all h.replication_factor 0 ring ts [] v SameNodes-ts (ground arith)
            none-ChosenBelow in
        (all, f, l ∙ zero_add h.replication_factor, main all f (l ∙ zero_add h.replication_factor))
      where
        zero_add : (n : ℕ) → 0 + n ≡ n
        zero_add n = omega arith

        main :
            (all : Dict Bytes Replica)
            → (chosen h ring).replicas ≡ ok all
            → length all ≡ h.replication_factor
            → ((replicate hash world h tenant (ts ∷ wreq)).1 ≡ none)
              ↔ (write_quorum h.replication_factor ≤ nils (replies_of h ring wreq all))
        main all f l =
            let quorum = write_quorum h.replication_factor in
            let replies = replies_of h ring wreq all in
            let same = replicate-chosen h ring wreq all e f in
            let (to, from) =
              quorum_result-none quorum (fanout_forward world quorum replies) (ground arith)
                (fanout_forward-contained world quorum replies) in
            let (enough, done) =
              fanout_forward-quorum world replies (perm replies) quorum
                (send_all-IsReply world h.endpoint h.peers ((chosen h ring).series ∷ wreq) all)
                (ground arith)
                (subst (λ n. quorum ≤ n)
                  (sym (
                    length-send_all world h.endpoint h.peers ((chosen h ring).series ∷ wreq) all
                    ∙ l))
                  (quorum_le h.replication_factor p)) in
            (λ n. enough (to (sym same ∙ n)), λ m. same ∙ from (done m))
