-- ===== src/Receive/Handler.antt =====
-- pkg/receive/handler.go: how the parts of a write request are sent, and how the
-- replies are collected. Each endpoint's goroutine is one step; `arrive` gives the replies that the
-- collecting loop reads, in the order it reads them, and `done` says whether the context ends before
-- the channel closes. Dialling, the local storage, the remote call and the backoff are parameters.
-- The time is one for the whole request.
pub mod Collect
pub mod Replies
pub mod Backoff
use mathlib.Core.Option
use promlts.Prelude.Dict.{Dict, get, put, remove}
use promlts.Labelpb.{Bytes, bytes_eq, bytes_key}
use promlts.Receive.Errors.{
  Err, unavailable, status, context_done, wrap, MultiError, no_errors, add_error, err,
  code_unavailable, determine_write_error_cause,
}
use promlts.Receive.Hashring.{TimeSeries, u64, Hashring}
use promlts.Prelude.{
  ltb, leb, ◌==◌, if◌then◌else◌, ℕ, ◌+◌, ◌/◌, Bool, false, Option, none, some, List, [], ◌∷◌,
}

pub data ReceiverMode : Type 0 where
  router_only : ReceiverMode
  ingestor_only : ReceiverMode
  router_ingestor : ReceiverMode

pub record Replica : Type 0 where
  pub n : ℕ
  pub replicated : Bool

pub record RetryState : Type 0 where
  pub attempt : ℕ
  pub next_allowed : ℕ

-- The connections there are, and the peers that are backed off from.
pub record Peers : Type 0 where
  pub cache : Dict Bytes (Unit {0})
  pub states : Dict Bytes RetryState

pub record Handler : Type 0 where
  pub replication_factor : ℕ
  pub endpoint : Bytes
  pub mode : ReceiverMode
  pub hashring : Option Hashring
  pub peers : Peers

pub record World : Type 0 where
  pub local_write : List TimeSeries → Option Err
  pub dial : Bytes → Option Err
  pub remote_write : Bytes → List TimeSeries → ℕ → Option Err
  pub for_attempt : ℕ → ℕ
  pub now : ℕ
  pub arrive : List (Option Err) → List (Option Err)
  pub done : Bool

abbrev pub write_quorum : ℕ → ℕ
write_quorum rf = rf / 2 + 1

-- The loop at the end of `fanoutForward`.
pub collect : ℕ → Bool → ℕ → MultiError → List (Option Err) → Option Err
collect threshold done success errs [] = if done then some context_done else err errs
collect threshold done success errs (none ∷ replies) =
    let rest = collect threshold done (success + 1) errs replies in
    if leb threshold (success + 1) then none else rest
collect threshold done success errs (some e ∷ replies) =
    collect threshold done success (add_error errs (some e)) replies

module _ (world : World) where
  pub get_peer : Peers → Bytes → Peers × Option Err
  get_peer p addr = elim (get p.cache addr) [
    | some c ↦ (p, none)
    | none ↦ elim (world.dial addr) [
      | some e ↦ (p, some (wrap e))
      | none ↦ (record p { cache = put p.cache addr tt }, none)
    ]
  ]

  pub is_backing_off : Peers → Bytes → Bool
  is_backing_off p endpoint = elim (get p.states endpoint) [
    | none ↦ false
    | some b ↦ ltb world.now b.next_allowed
  ]

  abbrev code_of : Err → Option ℕ
  code_of (status code) = some code
  code_of e = none

  pub back_off : Peers → Bytes → Peers
  back_off p endpoint = elim (get p.states endpoint) [
    | some b ↦ record p {
      states = put p.states endpoint (record {
        attempt = b.attempt + 1;
        next_allowed = world.now + world.for_attempt (b.attempt + 1);
      });
    }
    | none ↦ record p {
      states =
          put p.states endpoint
            (record { attempt = 0; next_allowed = world.now + world.for_attempt 0 });
    }
  ]

  -- After the call of `RemoteWrite`.
  pub after_write : Peers → Bytes → Option Err → Peers × Option Err
  unfolding back_off
  after_write p endpoint none = (record p { states = remove p.states endpoint }, none)
  after_write p endpoint (some (status code)) =
      (if code == code_unavailable then back_off p endpoint else p, some (wrap (status code)))
  after_write p endpoint (some e) = (p, some (wrap e))

  pub send_remote : Peers → Bytes → List TimeSeries → Replica → Peers × Option Err
  unfolding get_peer is_backing_off after_write
  send_remote p endpoint wr r =
      let (q, dialled) = get_peer p endpoint in
      elim dialled [
        | some e ↦ (q, some (wrap e))
        | none ↦
            if is_backing_off q endpoint
            then (q, some (wrap unavailable))
            else after_write q endpoint (world.remote_write endpoint wr (u64 (r.n + 1)))
      ]

  -- The goroutine of an endpoint that is not replicated to any further.
  pub send : Bytes → Peers → Bytes → List TimeSeries → Replica → Peers × Option Err
  unfolding send_remote
  send self p endpoint wr r =
      if bytes_eq endpoint self
      then (p, Option.map wrap (determine_write_error_cause (world.local_write wr) 1))
      else send_remote p endpoint wr r

  -- All the endpoints of a replicated request.
  pub send_all : Bytes → Peers → List TimeSeries → Dict Bytes Replica → Peers × List (Option Err)
  unfolding send
  send_all self p wr [] = (p, [])
  send_all self p wr ((endpoint, r) ∷ replicas) =
      let (q, reply) = send self p endpoint wr r in
      let (last, replies) = send_all self q wr replicas in (last, reply ∷ replies)

  pub fanout_forward : ℕ → List (Option Err) → Option Err
  unfolding collect
  fanout_forward threshold replies = collect threshold world.done 0 no_errors (world.arrive replies)
