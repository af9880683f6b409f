-- ===== src/Network/Driver/Commands.antt =====
-- crates/network/src/driver.rs: the use of channels and senders by a command.
use envshare.Prelude.{ℕ, not, ◌||◌, ltb, ◌==◌, Bool-cases, inl, inr, Bytes, arith, err}
use envshare.Network.Errors
use envshare.Network.Errors.{Network}
use envshare.Network.Driver
use envshare.Network.Driver.{
  NetworkConfig, NetworkDriver, Command, listen_on, dial_peer, request_of, respond, discovery,
  DiscoveryCommand, add_address, remove_address, register, discover, unregister, Answers, same_id,
  new, call, has_room, try_send, add_peer_addresses, validate,
}
use envshare.Network.Driver.Turns.{handle_discovery_command, handle_command}
use envshare.Network.Driver.Accounting.{
  occurs, count_responded, count_results, result_of, result_of_discovery, Spends,
  add_peer_addresses-Spends, listen_all-Spends, handle_respond-Spends, count-insert,
}

-- A reply after the addresses of a node were added.
replied-Spends :
    (a : ℕ) (s t : NetworkDriver) (result : ℕ) (outcome : Network (Unit {0}))
    → Spends a 0 0 s t
    → Spends a 0 (occurs a result) s (call t (Driver.replied result outcome))
unfolding call count_responded count_results
replied-Spends a s t result outcome h = record {
  channels_le = h.channels_le;
  results_le = omega (arith, h.results_le);
}

registered-Spends :
    (a : ℕ) (s t : NetworkDriver) (node namespace : Bytes) (ttl_seconds : ℕ)
    → Spends a 0 0 s t
    → Spends a 0 0 s (call t (Driver.registered node namespace ttl_seconds))
unfolding call count_responded count_results
registered-Spends a s t node namespace ttl h = record {
  channels_le = h.channels_le;
  results_le = h.results_le;
}

discovered-Spends :
    (a : ℕ) (s t : NetworkDriver) (node namespace : Bytes) (limit : ℕ)
    → Spends a 0 0 s t
    → Spends a 0 0 s (call t (Driver.discovered node namespace limit))
unfolding call count_responded count_results
discovered-Spends a s t node namespace limit h = record {
  channels_le = h.channels_le;
  results_le = h.results_le;
}

handle_discovery_command-Spends :
    (a : ℕ) (s : NetworkDriver) (command : DiscoveryCommand) (answers : Answers)
    → Spends a 0
        (occurs a (result_of_discovery command))
        s
        (handle_discovery_command s command answers)
unfolding handle_discovery_command call count_responded count_results
handle_discovery_command-Spends a s (add_address address result) answers = record {
  channels_le = omega arith;
  results_le = omega arith;
}
handle_discovery_command-Spends a s (remove_address address result) answers = record {
  channels_le = omega arith;
  results_le = omega arith;
}
handle_discovery_command-Spends a s (register node addresses namespace ttl result) answers =
    let added = add_peer_addresses-Spends a s node addresses in
    let s' = add_peer_addresses s node addresses in
    elim (Bool-cases ((ttl == 0 || ltb 86400 ttl) || not (answers.accepts_namespace namespace))) [
      | inl t ↦ rw t (replied-Spends a s s' result (err Errors.configuration) added)
      | inr f ↦ rw f (
          replied-Spends a s (call s' (Driver.registered node namespace ttl)) result _
            (registered-Spends a s s' node namespace ttl added))
    ]
handle_discovery_command-Spends a s (discover node addresses namespace result) answers =
    let added = add_peer_addresses-Spends a s node addresses in
    let s' = add_peer_addresses s node addresses in
    elim (Bool-cases (answers.accepts_namespace namespace)) [
      | inl t ↦ rw t (
          replied-Spends a s (call s' (Driver.discovered node namespace s'.max_discovery_results))
            result _ (discovered-Spends a s s' node namespace s'.max_discovery_results added))
      | inr f ↦ rw f (replied-Spends a s s' result (err Errors.configuration) added)
    ]
handle_discovery_command-Spends a s (unregister node namespace result) answers =
    elim (Bool-cases (answers.accepts_namespace namespace)) [
      | inl t ↦ rw t (record { channels_le = omega arith; results_le = omega arith })
      | inr f ↦ rw f (record { channels_le = omega arith; results_le = omega arith })
    ]

pub handle_command-Spends :
    (a : ℕ) (s : NetworkDriver) (command : Command) (answers : Answers)
    → Spends a 0 (occurs a (result_of command)) s (handle_command s command answers)
unfolding handle_command call count_responded count_results
handle_command-Spends a s (listen_on addresses result) answers =
    replied-Spends a s _ result _ (listen_all-Spends a s addresses)
handle_command-Spends a s (dial_peer peer addresses result) answers = record {
  channels_le = omega arith;
  results_le = omega arith;
}
handle_command-Spends a s (request_of peer addresses request result) answers =
    let added = add_peer_addresses-Spends a s peer addresses in
    let s' = add_peer_addresses s peer addresses in
    record {
      channels_le = added.channels_le;
      results_le =
          omega (arith, added.results_le, count-insert a answers.request_id result s'.outbound);
    }
handle_command-Spends a s (respond request_id response result) answers =
    handle_respond-Spends a s request_id response result answers.sends
handle_command-Spends a s (discovery command) answers =
    handle_discovery_command-Spends a s command answers
