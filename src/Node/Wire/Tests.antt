-- ===== src/Node/Wire/Tests.antt =====
-- Runs and instances for crates/node/src/rendezvous/codec.rs, with a protobuf layer of zeros.
use envshare.Prelude.{
  ℕ, zero, suc, ◌+◌, ◌≤◌, ◌≡◌, refl, Bool, true, Option, none, some, List, [], ◌∷◌, ◌++◌, replicate,
  length, Bytes, bytes_of, bytes_eq, to_be_bytes, has_control, arith, ok, err,
}
use envshare.Node.Maps.{contains_key, retain, get, insert}
use envshare.Node.Address.{Protocol, valid_namespace}
use envshare.Node.Address
use envshare.Node.Config
use envshare.Node.Config.{NodeConfig, default, validate, limits_of}
use envshare.Node.Store.{
  Store, Request, register_request, discover_request, Response, discovered_response, invalid_cookie,
}
use envshare.Node.Store
use envshare.Node.Discovery.{PeerRecord, handle, count_peer, count_namespace}
use envshare.Node.Discovery.Calls.{Call, handling, calls}
use envshare.Node.Wire.{
  WireMessage, Prost, no_message, number_bound, result_bound, page_bound, request_too_large,
  missing_field, unexpected_eof, read_frame, read_length, encode_varint, encode_groups, try_from,
}
use envshare.Node.Wire.Fits.{Written, handle-Written}

abbrev zeros : WireMessage → ℕ
zeros m =
    number_bound m.message_type + result_bound m.register_response + page_bound m.discover_response

length-replicate : (n : ℕ) → length (replicate n (zero)) ≡ n
length-replicate zero = refl
length-replicate (suc n) = omega (arith, length-replicate n)

zeros-le :
    (m : WireMessage)
    → m.register ≡ none
    → m.unregister ≡ none
    → m.discover ≡ none
    → zeros m
      ≤ number_bound m.message_type
        + result_bound m.register_response
        + page_bound m.discover_response
zeros-le m r u d = omega arith

abbrev prost : Prost
prost = record {
  encode = λ m. replicate (zeros m) 0;
  decode = λ bytes. none;
  encoded_len = zeros;
  encoded_len_eq = λ m. length-replicate (zeros m);
  encoded_len-le = zeros-le;
}

-- A length of two groups, and a frame that is cut off.
varint_run : encode_varint 300 ≡ 172 ∷ 2 ∷ []
unfolding encode_groups
varint_run = refl

frame_run : read_frame (2 ∷ 7 ∷ 8 ∷ 9 ∷ []) ≡ ok (7 ∷ 8 ∷ [], 9 ∷ [])
unfolding read_frame read_length
frame_run = refl

cut_run : read_frame (2 ∷ 7 ∷ []) ≡ err unexpected_eof
unfolding read_frame read_length
cut_run = refl

large_run : read_frame (0xff ∷ 0xff ∷ 0xff ∷ 1 ∷ []) ≡ err request_too_large
unfolding read_frame read_length
large_run = refl

request_run :
    try_from (record no_message {
      message_type = some 2;
      unregister = some (record { namespace = none; id = none });
    })
    ≡ err missing_field
unfolding try_from
request_run = refl

abbrev peer : Bytes
peer = bytes_of "peer"

abbrev namespace : Bytes
namespace = bytes_of "envshare-v1-" ++ replicate 32 b'a'

abbrev address : List Protocol
address = Address.ip4 (203 ∷ 0 ∷ 114 ∷ 20 ∷ []) ∷ Address.tcp ∷ []

abbrev signed_record_of : Bytes → Option PeerRecord
signed_record_of bytes = some (record { peer_id = peer; addresses = address ∷ [] })

abbrev accepts_filter : Bytes → Bool
accepts_filter directive = true

default_valid : validate accepts_filter default ≡ true
unfolding validate Config.validate_relay Config.validate_connections Config.validate_discovery
    Config.validate_telemetry has_control
default_valid = refl

abbrev registered : List (Call signed_record_of)
registered = handling peer (register_request namespace (bytes_of "record") none) 0 ∷ []

abbrev page : Response
page = discovered_response (
    ok (record {
      registrations =
          record { namespace = namespace; signed_record = bytes_of "record"; ttl = 300 } ∷ [];
      cookie = 0 ∷ 0 ∷ 0 ∷ 0 ∷ 0 ∷ 0 ∷ 0 ∷ 1 ∷ namespace;
    }))

served :
    (handle signed_record_of
      (calls signed_record_of (Store.new (limits_of default)) registered)
      peer
      (discover_request (some namespace) none none)
      1).0.response
    ≡ some page
unfolding handle calls Store.new limits_of Store.admit contains_key retain get valid_namespace
    bytes_eq Address.valid_address count_peer count_namespace insert to_be_bytes
served = refl

handle-Written_example : Written prost page
handle-Written_example =
    handle-Written accepts_filter prost signed_record_of default registered peer
      (discover_request (some namespace) none none) 1 page default_valid served
