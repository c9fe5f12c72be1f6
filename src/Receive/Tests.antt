-- ===== src/Receive/Tests.antt =====
-- pkg/receive: the theorems at concrete inputs. Three nodes, and a hash that is 7 for every series.
use mathlib.Core.List.{Permᴰ}
use promlts.Receive.Errors.{
  Err, conflict, out_of_bounds, status, wrap, non_nil_multi, no_errors, and_error, cause, contained,
  determine_write_error_cause,
}
use promlts.Receive.Errors.Determine.{Verdict, determine-Verdict}
use promlts.Receive.Hashring.{
  TimeSeries, ok, Config, simple, multi, new_multi_hashring, simple_get_n,
}
use promlts.Receive.Hashring.Spread.{IsDistinct, simple_get_n-differs, simple_get_n-wraps}
use promlts.Receive.Hashring.Cached.{Request, answer, ask, ask-new}
use promlts.Receive.Hashring.Serving.{new-Serves}
use promlts.Receive.Handler.{
  router_ingestor, Replica, Peers, Handler, World, is_backing_off, after_write, fanout_forward,
}
use promlts.Receive.Handler.Collect.{nils, fanout_forward-quorum}
use promlts.Receive.Handler.Backoff.{fail, state, failures, fail-BacksOff}
use promlts.Receive.Forward.{replicate, batch}
use promlts.Receive.Forward.Quorum.{chosen, replies_of, replicate-quorum}
use promlts.Receive.Forward.Batch.{assign, IsBatched, batch-assign}
use promlts.Prelude.Dict.{Dict}
use promlts.Labelpb.{Bytes, bytes_eq, bytes_key, Label}
use promlts.Prelude.{
  ltb, if◌then◌else◌, length, ℕ, ◌+◌, ◌≤◌, ◌≡◌, refl, ◌≢◌, ◌↔◌, false, Option, none, some, List, [],
  ◌∷◌, map, arith,
}

abbrev three_nodes : List Bytes
three_nodes = (1 ∷ []) ∷ (2 ∷ []) ∷ (3 ∷ []) ∷ []

three_nodes-IsDistinct : IsDistinct three_nodes
three_nodes-IsDistinct i j a e f = ground arith

abbrev seven : Bytes → List Label → ℕ
seven tenant ls = 7

abbrev biggest : Bytes → List Label → ℕ
biggest tenant ls = 18446744073709551615

abbrev tenant : Bytes
tenant = 9 ∷ []

abbrev series : TimeSeries
series = record { labels = record { name = 1 ∷ []; value = 2 ∷ [] } ∷ []; samples = (5, 6) ∷ [] }

determine-Verdict_example :
    (r : Err) × (determine_write_error_cause
        (some (non_nil_multi (and_error (wrap conflict) (and_error out_of_bounds no_errors))))
        2
      ≡ some r)
    × Verdict
        (and_error (wrap conflict) (and_error out_of_bounds no_errors))
        (non_nil_multi (and_error (wrap conflict) (and_error out_of_bounds no_errors)))
        2
        r
unfolding contained cause
determine-Verdict_example =
    determine-Verdict
      (non_nil_multi (and_error (wrap conflict) (and_error out_of_bounds no_errors)))
      (wrap conflict) (and_error out_of_bounds no_errors) 1 refl

simple_get_n-differs_example :
    (simple_get_n seven three_nodes tenant series 0).node
    ≢ (simple_get_n seven three_nodes tenant series 2).node
simple_get_n-differs_example =
    simple_get_n-differs seven three_nodes tenant series three_nodes-IsDistinct (omega arith) 0 2
      (omega arith) (omega arith) (omega arith)

simple_get_n-wraps_example :
    (simple_get_n biggest three_nodes tenant series 0).node
    ≡ (simple_get_n biggest three_nodes tenant series 1).node
simple_get_n-wraps_example =
    simple_get_n-wraps biggest three_nodes tenant series refl refl (omega arith)

abbrev config : List Config
config =
    record { tenants = tenant ∷ []; endpoints = three_nodes }
    ∷ record { tenants = []; endpoints = (4 ∷ []) ∷ [] }
    ∷ []

abbrev requests : List Request
requests =
    record { tenant = tenant; series = series; n = 0 }
    ∷ record { tenant = 8 ∷ []; series = series; n = 0 }
    ∷ record { tenant = tenant; series = series; n = 1 }
    ∷ []

ask-new_example :
    ask seven (new_multi_hashring config) requests ≡ map (answer seven config) requests
ask-new_example = ask-new seven config requests

abbrev world : World
world = record {
  local_write = λ wr. none;
  dial = λ addr. none;
  remote_write = λ addr wr n. if bytes_eq addr (2 ∷ []) then some (status 14) else none;
  for_attempt = λ n. n + 1;
  now = 100;
  arrive = λ replies. replies;
  done = false;
}

perm_refl : (l : List (Option Err)) → Permᴰ l l
perm_refl [] = Permᴰ.nil
perm_refl (x ∷ l) = Permᴰ.cons refl (perm_refl l)

abbrev replies : List (Option Err)
replies = some (wrap conflict) ∷ none ∷ none ∷ []

fanout_forward-quorum_example : (fanout_forward world 2 replies ≡ none) ↔ (2 ≤ nils replies)
fanout_forward-quorum_example =
    fanout_forward-quorum world replies (perm_refl replies) 2 (refl, (tt, (tt, tt))) (omega arith)
      (omega arith)

abbrev handler : Handler
handler = record {
  replication_factor = 3;
  endpoint = 1 ∷ [];
  mode = router_ingestor;
  hashring = some (multi (new_multi_hashring config));
  peers = record { cache = []; states = [] };
}

replicate-quorum_example :
    (all : Dict Bytes Replica) × ((chosen seven world three_nodes tenant series
        three_nodes-IsDistinct
        (omega arith)
        handler
        (multi (new_multi_hashring config))).replicas
      ≡ ok all)
    × (length all ≡ 3)
    × (((replicate seven world handler tenant (series ∷ [])).1 ≡ none) ↔ (
        2
        ≤ nils (
            replies_of seven world three_nodes tenant series three_nodes-IsDistinct
              (omega arith)
              handler
              (multi (new_multi_hashring config))
              []
              all)))
replicate-quorum_example =
    replicate-quorum seven world three_nodes tenant series three_nodes-IsDistinct (omega arith)
      handler (multi (new_multi_hashring config)) [] refl
      (new-Serves seven three_nodes tenant config refl) (omega arith) (omega arith)
      (λ replies. perm_refl replies)

batch-assign_example :
    IsBatched seven world tenant 0
      (assign seven world tenant 0 (simple three_nodes) (series ∷ series ∷ []))
      (batch seven world (simple three_nodes) tenant (series ∷ series ∷ []) 0 []).wreqs
batch-assign_example = batch-assign seven world tenant 0 (simple three_nodes) (series ∷ series ∷ [])

-- An endpoint whose backoff, of the fourth failure, is over.
abbrev expired_peers : Peers
expired_peers = record handler.peers {
  states = (2 ∷ [], record { attempt = 3; next_allowed = 50 }) ∷ [];
}

fail-BacksOff_example :
    (is_backing_off world (fail (2 ∷ []) expired_peers (world ∷ world ∷ [])) (2 ∷ [])
      ≡ ltb world.now
          (world.now + world.for_attempt (failures (2 ∷ []) (state (2 ∷ []) expired_peers) + 1)))
    × (is_backing_off world
          (after_write world (fail (2 ∷ []) expired_peers (world ∷ world ∷ [])) (2 ∷ []) none).0
          (2 ∷ [])
        ≡ false)
fail-BacksOff_example = fail-BacksOff (2 ∷ []) expired_peers (world ∷ []) world world
