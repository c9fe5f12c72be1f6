-- ===== src/Receive/Forward.antt =====
-- pkg/receive/handler.go: how a write request is checked, split by endpoint and replicated, and the
-- status that answers it. The series of a batch are sent to one endpoint, or to `replicate`.
pub mod Quorum
pub mod Batch
pub mod Status
use mathlib.Core.Option
use promlts.Prelude.Dict.{Dict, get, put}
use promlts.Labelpb.{Bytes, bytes_key, Label}
use promlts.Receive.Errors.{
  Err, conflict, not_ready, unavailable, bad_replica, hashring_not_ready, index_out_of_range, wrap,
  determine_write_error_cause,
}
use promlts.Receive.Hashring.{TimeSeries, Result, ok, error, Hashring, get_n}
use promlts.Receive.Handler.{
  ReceiverMode, router_ingestor, Replica, Handler, World, write_quorum, send, send_all,
  fanout_forward,
}
use promlts.Prelude.{
  ltb, ◌==◌, if◌then◌else◌, length, ℕ, zero, suc, ◌+◌, ◌-◌, true, ◌&&◌, not, Option, none, some,
  List, [], ◌∷◌, ◌++◌,
}

-- What the batching loop of `forward` has made when it ends.
pub record Batched : Type 0 where
  pub ring : Hashring
  pub wreqs : Result (Dict Bytes (List TimeSeries))

abbrev pub batch_at : Dict Bytes (List TimeSeries) → Bytes → List TimeSeries
batch_at wreqs endpoint = elim (get wreqs endpoint) [ none ↦ [] | some wr ↦ wr ]

-- The nodes that `replicate` chooses, with their replica.
pub record Chosen : Type 0 where
  pub ring : Hashring
  -- the series, its labels sorted
  pub series : TimeSeries
  pub replicas : Result (Dict Bytes Replica)

-- The replica's number as it counts in this mode.
abbrev pub counted : ReceiverMode → ℕ → ℕ
counted router_ingestor rep = rep
counted mode rep = 0

module _ (hash : Bytes → List Label → ℕ) (world : World) where
  -- The loop of `replicate`, of which `left` rounds are left at number `i`.
  pub choose : Hashring → Bytes → TimeSeries → ℕ → ℕ → Dict Bytes Replica → Chosen
  choose ring tenant ts zero i replicas = record {
    ring = ring;
    series = ts;
    replicas = ok replicas;
  }
  choose ring tenant ts (suc left) i replicas =
      let (after, got) = get_n hash ring tenant ts i in
      elim got.node [
        | error e ↦ record { ring = after; series = got.series; replicas = error e }
        | ok endpoint ↦
            choose after tenant got.series left (i + 1)
              (put replicas endpoint (record { n = i; replicated = true }))
      ]

  pub replicate : Handler → Bytes → List TimeSeries → Handler × Option Err
  unfolding choose
  replicate h tenant [] = (h, some index_out_of_range)
  replicate h tenant (ts ∷ wreq) = elim h.hashring [
    | none ↦ (h, some hashring_not_ready)
    | some ring ↦
        let chosen = choose ring tenant ts h.replication_factor 0 [] in
        elim chosen.replicas [
          | error e ↦ (record h { hashring = some chosen.ring }, some e)
          | ok replicas ↦
              let (peers, replies) =
                send_all world h.endpoint h.peers (chosen.series ∷ wreq) replicas in
              let quorum = write_quorum h.replication_factor in
              let result = fanout_forward world quorum replies in
              (
                record h { hashring = some chosen.ring; peers = peers },
                elim result [
                  | none ↦ none
                  | some e ↦ Option.map wrap (determine_write_error_cause (some e) quorum)
                ],
              )
        ]
  ]

  pub batch : Hashring → Bytes → List TimeSeries → ℕ → Dict Bytes (List TimeSeries) → Batched
  batch ring tenant [] n wreqs = record { ring = ring; wreqs = ok wreqs }
  batch ring tenant (ts ∷ series) n wreqs =
      let (after, got) = get_n hash ring tenant ts n in
      elim got.node [
        | error e ↦ record { ring = after; wreqs = error e }
        | ok endpoint ↦
            batch after tenant series n
              (put wreqs endpoint (batch_at wreqs endpoint ++ (got.series ∷ [])))
      ]

  -- The goroutine of an endpoint of `forward`.
  pub send_batch : Handler → Bytes → Replica → Bytes → List TimeSeries → Handler × Option Err
  unfolding replicate
  send_batch h tenant r endpoint wr =
      if not r.replicated && ltb 1 h.replication_factor
      then (let (after, result) = replicate h tenant wr in (after, Option.map wrap result))
      else (let (peers, result) = send world h.endpoint h.peers endpoint wr r in
          (record h { peers = peers }, result))

  pub send_batches :
      Handler → Bytes → Replica → Dict Bytes (List TimeSeries) → Handler × List (Option Err)
  unfolding send_batch
  send_batches h tenant r [] = (h, [])
  send_batches h tenant r ((endpoint, wr) ∷ wreqs) =
      let (after, reply) = send_batch h tenant r endpoint wr in
      let (last, replies) = send_batches after tenant r wreqs in (last, reply ∷ replies)

  pub forward : Handler → Bytes → Replica → List TimeSeries → Handler × Option Err
  unfolding batch send_batches
  forward h tenant r wreq = elim h.hashring [
    | none ↦ (h, some hashring_not_ready)
    | some ring ↦
        let batched = batch ring tenant wreq r.n [] in
        let h = record h { hashring = some batched.ring } in
        elim batched.wreqs [
          | error e ↦ (h, some e)
          | ok wreqs ↦
              let (after, replies) = send_batches h tenant r wreqs in
              (after, fanout_forward world (length wreqs) replies)
        ]
  ]

  pub handle_request : Handler → ℕ → Bytes → List TimeSeries → Handler × Option Err
  unfolding forward
  handle_request h rep tenant wreq =
      let rep = counted h.mode rep in
      if ltb h.replication_factor rep
      then (h, some bad_replica)
      else forward h tenant (record { n = rep - 1; replicated = not (rep == 0) }) wreq

pub http_status : Option Err → ℕ
http_status e = elim (determine_write_error_cause e 1) [
  | none ↦ 200
  | some not_ready ↦ 503
  | some unavailable ↦ 503
  | some conflict ↦ 409
  | some bad_replica ↦ 400
  | some other_error ↦ 500
]

-- The gRPC code: OK, Unavailable, AlreadyExists, InvalidArgument, Internal.
pub rpc_code : Option Err → ℕ
rpc_code e = elim (determine_write_error_cause e 1) [
  | none ↦ 0
  | some not_ready ↦ 14
  | some unavailable ↦ 14
  | some conflict ↦ 6
  | some bad_replica ↦ 3
  | some other_error ↦ 13
]
