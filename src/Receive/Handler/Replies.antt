-- ===== src/Receive/Handler/Replies.antt =====
-- pkg/receive/handler.go: the replies of the goroutines of `fanoutForward`.
use promlts.Receive.Errors.{Err}
use promlts.Receive.Hashring.{TimeSeries, u64}
use promlts.Receive.Handler.{
  Replica, Peers, World, get_peer, after_write, send_remote, send, send_all,
}
use promlts.Receive.Handler.Collect.{IsReply}
use promlts.Prelude.Dict.{Dict}
use promlts.Labelpb.{Bytes, bytes_key}
use promlts.Prelude.{length, All, suc, ◌+◌, ◌≡◌, refl, ap, Option, none, some, List, [], ◌∷◌, arith}

module _ (world : World) where
  pub after_write-IsReply :
      (p : Peers) (endpoint : Bytes) (e : Option Err) → IsReply (after_write world p endpoint e).1
  unfolding after_write
  after_write-IsReply p endpoint none = tt
  after_write-IsReply p endpoint (some e) = ground arith

  get_peer-IsReply : (p : Peers) (endpoint : Bytes) → IsReply (get_peer world p endpoint).1
  unfolding get_peer
  get_peer-IsReply p endpoint = ground arith

  send_remote-IsReply :
      (p : Peers) (endpoint : Bytes) (wr : List TimeSeries) (r : Replica)
      → IsReply (send_remote world p endpoint wr r).1
  unfolding send_remote
  send_remote-IsReply p endpoint wr r = ground (
    arith,
    after_write-IsReply (get_peer world p endpoint).0 endpoint
        (world.remote_write endpoint wr (u64 (r.n + 1))),
  )

  pub send-IsReply :
      (self : Bytes) (p : Peers) (endpoint : Bytes) (wr : List TimeSeries) (r : Replica)
      → IsReply (send world self p endpoint wr r).1
  unfolding send
  send-IsReply self p endpoint wr r = ground (arith, send_remote-IsReply p endpoint wr r)

  pub send_all-IsReply :
      (self : Bytes) (p : Peers) (wr : List TimeSeries) (replicas : Dict Bytes Replica)
      → All IsReply (send_all world self p wr replicas).1
  unfolding send_all
  send_all-IsReply self p wr [] = tt
  send_all-IsReply self p wr ((endpoint, r) ∷ replicas) = (
    send-IsReply self p endpoint wr r,
    send_all-IsReply self (send world self p endpoint wr r).0 wr replicas,
  )

  pub length-send_all :
      (self : Bytes) (p : Peers) (wr : List TimeSeries) (replicas : Dict Bytes Replica)
      → length (send_all world self p wr replicas).1 ≡ length replicas
  unfolding send_all
  length-send_all self p wr [] = refl
  length-send_all self p wr ((endpoint, r) ∷ replicas) =
      ap suc (length-send_all self (send world self p endpoint wr r).0 wr replicas)
