-- ===== src/Network/Multiaddr.antt =====
-- The multiaddresses of libp2p, which crates/network only calls. An address is its encoded bytes,
-- which is what its equality compares.
use envshare.Prelude.{ℕ, ◌≡◌, Option, some, List, Bytes}

-- The components that crates/network names; `other` stands for the rest.
pub data Protocol : Type 0 where
  ip4 ip6 : List ℕ → Protocol
  p2p : Bytes → Protocol
  dns dns4 dns6 dnsaddr : Bytes → Protocol
  tcp quic quic_v1 p2p_circuit memory unix onion onion3 other : Protocol

pub record Multiaddrs : Type 0 where
  pub iter : Bytes → List Protocol
  pub to_string : Bytes → Bytes
  pub parse : Bytes → Option Bytes
  -- The last component, with the address that is left.
  pub pop : Bytes → Option (Protocol × Bytes)
  -- The text of an address is read back as the address.
  pub parse-to_string : (address : Bytes) → parse (to_string address) ≡ some address
