-- ===== src/Network/Driver/Accounting.antt =====
-- crates/network/src/driver.rs: how often a response channel and a sender of results are used, against
-- how often the turns hand them to the driver.
use envshare.Prelude.{
  ℕ, ◌+◌, ◌≤◌, ◌≡◌, sym, Bool, not, some, List, [], ◌∷◌, ◌==◌, if◌then◌else◌, Bool-cases,
  Option-cases, inl, inr, some-inj, Bytes, arith,
}
use envshare.Protocol.Message.{TransferResponse}
use envshare.Node.Maps.{Map, Entry, get, insert, remove, retain}
use envshare.Network.Driver
use envshare.Network.Driver.{
  NetworkConfig, NetworkDriver, NetworkEvent, Command, listen_on, dial_peer, request_of, respond,
  discovery, DiscoveryCommand, add_address, remove_address, register, discover, unregister, Effect,
  responded, replied, answered, Answers, same_id, new, call, has_room, try_send, add_peer_addresses,
  listen_all, protocol_of,
}
use envshare.Network.Driver.Turns.{
  send_response, handle_respond, request_received, transfer, Turn, commanded, swarm_event,
}

-- One if the two are the same.
abbrev pub occurs : ℕ → ℕ → ℕ
occurs a b = if a == b then 1 else 0

-- How many entries have this value.
unfoldable pub count_values : ℕ → Map ℕ ℕ → ℕ
count_values a [] = 0
count_values a (e ∷ m) = occurs a e.value + count_values a m

-- How many responses were sent on the channel.
unfoldable pub count_responded : ℕ → List Effect → ℕ
count_responded a [] = 0
count_responded a (responded channel response ∷ effects) =
    occurs a channel + count_responded a effects
count_responded a (_ ∷ effects) = count_responded a effects

-- How many outcomes were sent to the result.
unfoldable pub count_results : ℕ → List Effect → ℕ
count_results a [] = 0
count_results a (replied result outcome ∷ effects) = occurs a result + count_results a effects
count_results a (answered result outcome ∷ effects) = occurs a result + count_results a effects
count_results a (_ ∷ effects) = count_results a effects

abbrev pub result_of_discovery : DiscoveryCommand → ℕ
result_of_discovery (add_address address result) = result
result_of_discovery (remove_address address result) = result
result_of_discovery (register node node_addresses namespace ttl_seconds result) = result
result_of_discovery (discover node node_addresses namespace result) = result
result_of_discovery (unregister node namespace result) = result

abbrev pub result_of : Command → ℕ
result_of (listen_on addresses result) = result
result_of (dial_peer peer addresses result) = result
result_of (request_of peer addresses request result) = result
result_of (respond request_id response result) = result
result_of (discovery command) = result_of_discovery command

-- How often a turn hands the channel to the driver, and how often the result.
abbrev pub channels_of : ℕ → Turn → ℕ
channels_of a (swarm_event (transfer (request_received peer request_id request channel))) =
    occurs a channel
channels_of a _ = 0

abbrev results_of : ℕ → Turn → ℕ
results_of a (commanded command answers) = occurs a (result_of command)
results_of a _ = 0

unfoldable pub count_channels : ℕ → List Turn → ℕ
count_channels a [] = 0
count_channels a (turn ∷ turns) = channels_of a turn + count_channels a turns

unfoldable pub count_handed : ℕ → List Turn → ℕ
count_handed a [] = 0
count_handed a (turn ∷ turns) = results_of a turn + count_handed a turns

count-retain :
    (a : ℕ) (keep : Entry ℕ ℕ → Bool) (m : Map ℕ ℕ)
    → count_values a (retain keep m) ≤ count_values a m
unfolding count_values retain
count-retain a keep [] = omega arith
count-retain a keep (e ∷ m) = ground (arith, count-retain a keep m)

pub count-remove : (a k : ℕ) (m : Map ℕ ℕ) → count_values a (remove same_id k m) ≤ count_values a m
unfolding remove
count-remove a k m = count-retain a (λ e. not (same_id k e.key)) m

pub count-insert :
    (a k v : ℕ) (m : Map ℕ ℕ)
    → count_values a (insert same_id k v m) ≤ occurs a v + count_values a m
unfolding insert count_values
count-insert a k v m = omega (arith, count-remove a k m)

-- An entry that is taken out of the table is no more in it.
pub count-get :
    (a k v : ℕ) (m : Map ℕ ℕ)
    → get same_id k m ≡ some v
    → occurs a v + count_values a (remove same_id k m) ≤ count_values a m
unfolding count_values get remove retain
count-get a k v [] h = cc
count-get a k v (e ∷ m) h = elim (Bool-cases (same_id k e.key)) [
  | inl t ↦ let v_eq = some-inj (rw t at h) in rw (t, sym v_eq) (omega (arith, count-remove a k m))
  | inr f ↦ let rest = count-get a k v m (rw f at h) in rw f (omega (arith, rest))
]

-- From one driver to another, the channel is used or kept so many times more, and the result too.
pub record Spends (a channels results : ℕ) (s s' : NetworkDriver) : Type 0 where
  pub channels_le :
      count_responded a s'.effects + count_values a s'.inbound
      ≤ channels + (count_responded a s.effects + count_values a s.inbound)
  pub results_le :
      count_results a s'.effects
        + (count_values a s'.outbound + count_values a s'.inbound_confirmations)
      ≤ results
        + (count_results a s.effects
            + (count_values a s.outbound + count_values a s.inbound_confirmations))

pub Spends-then :
    (a c r d q : ℕ) (s t u : NetworkDriver)
    → Spends a c r s t
    → Spends a d q t u
    → Spends a (c + d) (r + q) s u
Spends-then a c r d q s t u h k = record {
  channels_le = omega (arith, h.channels_le, k.channels_le);
  results_le = omega (arith, h.results_le, k.results_le);
}

pub Spends-refl : (a : ℕ) (s : NetworkDriver) → Spends a 0 0 s s
Spends-refl a s = record { channels_le = omega arith; results_le = omega arith }

pub try_send-Spends :
    (a : ℕ) (s : NetworkDriver) (event : NetworkEvent) → Spends a 0 0 s (try_send s event)
unfolding try_send
try_send-Spends a s event = elim (Bool-cases (has_room s)) [
  | inl t ↦ rw t (record { channels_le = omega arith; results_le = omega arith })
  | inr f ↦ rw f (Spends-refl a s)
]

pub add_peer_addresses-Spends :
    (a : ℕ) (s : NetworkDriver) (peer : Bytes) (addresses : List Bytes)
    → Spends a 0 0 s (add_peer_addresses s peer addresses)
unfolding add_peer_addresses call count_responded count_results
add_peer_addresses-Spends a s peer [] = Spends-refl a s
add_peer_addresses-Spends a s peer (address ∷ addresses) =
    let rest =
      add_peer_addresses-Spends a (call s (Driver.peer_address_added peer address)) peer
        addresses in
    record { channels_le = rest.channels_le; results_le = rest.results_le }

pub listen_all-Spends :
    (a : ℕ) (s : NetworkDriver) (addresses : List Bytes) → Spends a 0 0 s (listen_all s addresses)
unfolding listen_all call count_responded count_results
listen_all-Spends a s [] = Spends-refl a s
listen_all-Spends a s (address ∷ addresses) =
    let rest = listen_all-Spends a (call s (Driver.listened address)) addresses in
    record { channels_le = rest.channels_le; results_le = rest.results_le }

pub handle_respond-Spends :
    (a : ℕ) (s : NetworkDriver) (request_id : ℕ) (response : TransferResponse) (result : ℕ)
    (sends : Bool)
    → Spends a 0 (occurs a result) s (handle_respond s request_id response result sends)
unfolding handle_respond send_response call count_responded count_results
handle_respond-Spends a s request_id response result sends =
    elim (Option-cases (protocol_of request_id s.inbound_protocol_ids)) [
      | inl n ↦ rw n (record {
        channels_le = omega (arith, count-remove a request_id s.inbound);
        results_le = omega arith;
      })
      | inr (protocol_id, p) ↦ elim (Option-cases (get same_id request_id s.inbound)) [
        | inl n ↦
            rw (p, n)
              (record {
                channels_le = omega (arith, count-remove a request_id s.inbound);
                results_le = omega arith;
              })
        | inr (channel, q) ↦
            let taken = count-get a request_id channel s.inbound q in
            elim (Bool-cases sends) [
              | inl t ↦
                  rw (p, q, t)
                    (record {
                      channels_le = omega (arith, taken);
                      results_le =
                          omega (arith, count-insert a protocol_id result s.inbound_confirmations);
                    })
              | inr f ↦
                  rw (p, q, f)
                    (record { channels_le = omega (arith, taken); results_le = omega arith })
            ]
      ]
    ]
