-- ===== src/Receive/Forward/Status.antt =====
-- pkg/receive/handler.go: the statuses that answer a write request over HTTP and over gRPC.
-- The gRPC code for an HTTP status.
use promlts.Receive.Errors.{Err, bad_replica}
use promlts.Receive.Errors.Determine.{determine-bad_replica}
use promlts.Receive.Hashring.{TimeSeries}
use promlts.Receive.Handler.{
  ReceiverMode, router_only, ingestor_only, router_ingestor, Handler, World,
}
use promlts.Receive.Forward.{counted, forward, handle_request, http_status, rpc_code}
use promlts.Labelpb.{Bytes, Label}
use promlts.Prelude.{
  ltb, ◌==◌, if◌then◌else◌, ℕ, ◌<◌, ◌≡◌, refl, ap, ◌∙◌, true, false, Option, some, List, arith,
}

abbrev pub code_for : ℕ → ℕ
code_for s =
    if s == 200
    then 0
    else if s == 503
    then 14
    else if s == 409
    then 6
    else if s == 400
    then 3
    else 13

-- The two handlers agree: the gRPC code is the one for the HTTP status of the same error.
pub rpc_code-http_status : (e : Option Err) → rpc_code e ≡ code_for (http_status e)
unfolding rpc_code http_status
rpc_code-http_status e = ground arith

http_status-bad_replica : http_status (some bad_replica) ≡ 400
unfolding http_status
http_status-bad_replica = rw (determine-bad_replica, http_status) refl

counted-other : (m : ReceiverMode) (rep : ℕ) → (m ≡ router_ingestor → ⊥) → counted m rep ≡ 0
counted-other router_only rep h = refl
counted-other ingestor_only rep h = refl
counted-other router_ingestor rep h = absurd (h refl)

module _ (hash : Bytes → List Label → ℕ) (world : World) (h : Handler) (tenant : Bytes)
    (wreq : List TimeSeries) where
  handle_rejects :
      (rep : ℕ)
      → ltb h.replication_factor (counted h.mode rep) ≡ true
      → handle_request hash world h rep tenant wreq ≡ (h, some bad_replica)
  unfolding handle_request
  handle_rejects rep t = rw (t, handle_request) refl

  handle_forwards :
      (rep : ℕ)
      → counted h.mode rep ≡ 0
      → handle_request hash world h rep tenant wreq
        ≡ forward hash world h tenant (record { n = 0; replicated = false }) wreq
  unfolding handle_request
  handle_forwards rep e = rw (e, handle_request) (rw none_below refl)
    where
      none_below : ltb h.replication_factor 0 ≡ false
      none_below = ground arith

  -- A request whose replica number is above the replication factor is answered with 400 (Bad
  -- Request), and nothing changes, if the receiver routes and ingests; a receiver that only routes or
  -- only ingests forwards it like one that is not replicated yet.
  pub handle_request-replica :
      (rep : ℕ)
      → (h.mode ≡ router_ingestor
          → h.replication_factor < rep
          → (http_status (handle_request hash world h rep tenant wreq).1 ≡ 400)
            × ((handle_request hash world h rep tenant wreq).0 ≡ h))
        × ((h.mode ≡ router_ingestor → ⊥)
            → handle_request hash world h rep tenant wreq
              ≡ forward hash world h tenant (record { n = 0; replicated = false }) wreq)
  handle_request-replica rep = (
    λ m q. (
      ap (λ r. http_status r.1) (handle_rejects rep (above m q)) ∙ http_status-bad_replica,
      ap (λ r. r.0) (handle_rejects rep (above m q)),
    ),
    λ m. handle_forwards rep (counted-other h.mode rep m),
  )
    where
      above :
          h.mode ≡ router_ingestor
          → h.replication_factor < rep
          → ltb h.replication_factor (counted h.mode rep) ≡ true
      above m q = rw m (ground arith)
