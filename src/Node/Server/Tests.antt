-- ===== src/Node/Server/Tests.antt =====
-- Runs and instances for crates/node/src/relay.rs.
use envshare.Prelude.{
  ℕ, ◌≡◌, ◌⊎◌, refl, true, false, Option, none, List, [], ◌∷◌, All, Bytes, bytes_of,
}
use envshare.Node.Address.{Protocol}
use envshare.Node.Address
use envshare.Node.Config.{default}
use envshare.Node.Store.{unregister_request}
use envshare.Node.Discovery.{PeerRecord}
use envshare.Node.Status.{
  is_ready, begin_drain, listeners_ready, touch, start, configure_capacities, expect_listeners,
}
use envshare.Node.Server.{
  new_listen_addr, listener_closed, rendezvous_request, circuit_req_accepted, Turn, started,
  swarm_event, ticked, drain_began, received, new, run, take_turn, handle_event, react, emit,
  count_event, insert_listener, remove_listener,
}
use envshare.Node.Server.Listeners.{contains}
use envshare.Node.Server.History.{is_bound, NamesIn, TurnIn}
use envshare.Node.Server.Health.{IsConsistent}
use envshare.Node.Server.Consistency.{run-IsConsistent}

abbrev signed_record_of : Bytes → Option PeerRecord
signed_record_of bytes = none

abbrev address : List Protocol
address = Address.ip4 (203 ∷ 0 ∷ 114 ∷ 20 ∷ []) ∷ Address.tcp ∷ []

abbrev turns : List Turn
turns =
    started 0
    ∷ swarm_event (new_listen_addr 1 address) 5 1
    ∷ swarm_event (new_listen_addr 2 address) 6 2
    ∷ swarm_event (circuit_req_accepted (bytes_of "a") (bytes_of "b")) 7 3
    ∷ swarm_event (rendezvous_request (bytes_of "a") (unregister_request []) true) 8 4
    ∷ received
    ∷ ticked 9 1000
    ∷ []

abbrev bound : List Turn
bound =
    started 0
    ∷ swarm_event (new_listen_addr 1 address) 5 1
    ∷ swarm_event (new_listen_addr 2 address) 6 2
    ∷ []

-- Ready with both listeners, and no more when one closes or the drain begins.
ready_run : is_ready (run signed_record_of (new default) bound).status ≡ true
unfolding is_ready run new take_turn handle_event react emit insert_listener listeners_ready
    count_event touch start configure_capacities expect_listeners
ready_run = refl

closed_run :
    is_ready
      (run signed_record_of
        (run signed_record_of (new default) bound)
        (swarm_event (listener_closed 2) 9 5 ∷ [])).status
    ≡ false
unfolding is_ready run new take_turn handle_event react emit insert_listener remove_listener
    listeners_ready count_event touch start configure_capacities expect_listeners
closed_run = refl

draining_run :
    is_ready
      (run signed_record_of (run signed_record_of (new default) bound) (drain_began ∷ [])).status
    ≡ false
unfolding is_ready run new take_turn begin_drain
draining_run = refl

-- Two listeners for the two addresses of the default configuration.
abbrev listeners : List ℕ
listeners = 1 ∷ 2 ∷ []

run-IsConsistent_example :
    IsConsistent default (run signed_record_of (new default) turns)
    × ((l : ℕ)
        → contains l (run signed_record_of (new default) turns).ready_listeners
          ≡ is_bound l false turns)
    × (((run signed_record_of (new default) turns).status.ready ≡ false)
        ⊎ All (λ l. is_bound l false turns ≡ true) listeners)
unfolding contains TurnIn NamesIn
run-IsConsistent_example =
    run-IsConsistent signed_record_of default listeners turns refl
      (tt, (refl, (refl, (tt, (tt, (tt, (tt, tt)))))))
