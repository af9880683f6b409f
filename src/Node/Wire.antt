-- ===== src/Node/Wire.antt =====
-- crates/node/src/rendezvous/codec.rs: the frames of the rendezvous protocol, and the messages of
-- requests and responses. A stream is the bytes that are left to read or that are written. The
-- protobuf layer, which prost generates, is a parameter.
pub mod Varint
pub mod Fits
mod Tests
use envshare.Prelude.{
  ℕ, zero, suc, ◌+◌, ◌*◌, ◌/◌, ◌%◌, ◌^◌, ◌≤◌, ◌≡◌, Bool, true, false, ◌&&◌, Option, none, some,
  List, [], ◌∷◌, ◌++◌, map, leb, ltb, ◌==◌, if◌then◌else◌, length, take, drop, Bytes, Result, ok,
  err, ◌>>=◌, ◌>>◌, guard, ok_or,
}
use envshare.Node.Store.{
  Request, register_request, unregister_request, discover_request, Status, invalid_namespace,
  invalid_signed_peer_record, invalid_ttl, invalid_cookie, not_authorized, unavailable,
  WireRegistration, DiscoveryPage, Response, registered_response, discovered_response,
}

abbrev pub max_wire_message_bytes : ℕ
max_wire_message_bytes = 1024 * 1024

-- The errors of `io::Result`, one for each message, and the end of the stream.
pub data IoError : Type 0 where
  unexpected_eof invalid_frame_length request_too_large response_too_large : IoError
  undecodable inconsistent_request missing_field : IoError

abbrev Io : Type 0 → Type 0
Io A = Result IoError A

pub record WireRegister : Type 0 where
  pub namespace : Option Bytes
  pub signed_peer_record : Option Bytes
  pub ttl : Option ℕ

pub record WireRegisterResponse : Type 0 where
  pub status : Option ℕ
  pub ttl : Option ℕ

pub record WireUnregister : Type 0 where
  pub namespace : Option Bytes
  pub id : Option Bytes

pub record WireDiscover : Type 0 where
  pub namespace : Option Bytes
  pub limit : Option ℕ
  pub cookie : Option Bytes

pub record WireDiscoverResponse : Type 0 where
  pub registrations : List WireRegister
  pub cookie : Option Bytes
  pub status : Option ℕ

-- An i32 is its 32 bits.
pub record WireMessage : Type 0 where
  pub message_type : Option ℕ
  pub register : Option WireRegister
  pub register_response : Option WireRegisterResponse
  pub unregister : Option WireUnregister
  pub discover : Option WireDiscover
  pub discover_response : Option WireDiscoverResponse

abbrev pub no_message : WireMessage
no_message = record {
  message_type = none;
  register = none;
  register_response = none;
  unregister = none;
  discover = none;
  discover_response = none;
}

-- `status as i32`
unfoldable status_code : Status → ℕ
status_code invalid_namespace = 100
status_code invalid_signed_peer_record = 101
status_code invalid_ttl = 102
status_code invalid_cookie = 103
status_code not_authorized = 200
status_code unavailable = 400

-- `for shift in (0..=63).step_by(7)`: a round for each shift. The groups of bits do not overlap, so
-- `|=` is a sum.
pub read_length : ℕ → ℕ → ℕ → Bytes → Io (ℕ × Bytes)
read_length zero shift size input = err invalid_frame_length
read_length (suc rounds) shift size [] = err unexpected_eof
read_length (suc rounds) shift size (byte ∷ input) =
    let size' = size + byte % 128 * 2 ^ shift % 2 ^ 64 in
    let rest = read_length rounds (shift + 7) size' input in
    if shift == 63 && ltb 1 byte
    then err invalid_frame_length
    else if ltb byte 128
    then ok (size', input)
    else rest

-- A u64 always fits a 64-bit `usize`.
pub read_frame : Bytes → Io (Bytes × Bytes)
read_frame input = do
  (size, input) ← read_length 10 0 0 input
  guard (leb size max_wire_message_bytes) request_too_large
  guard (leb size (length input)) unexpected_eof
  ok (take size input, drop size input)

-- The loop of `encode_varint`; a u64 has ten groups of seven bits at most.
pub encode_groups : ℕ → ℕ → Bytes
encode_groups zero value = []
encode_groups (suc rounds) value =
    let rest = (value % 128 + 128) ∷ encode_groups rounds (value / 128) in
    if value / 128 == 0 then value % 128 ∷ [] else rest

abbrev pub encode_varint : ℕ → Bytes
encode_varint size = encode_groups 10 size

-- The match on the type and the three parts that a request may have.
pub request_of :
    Option ℕ → Option WireRegister → Option WireUnregister → Option WireDiscover → Io Request
request_of (some zero) (some register) _ _ = do
  namespace ← ok_or register.namespace missing_field
  signed_record ← ok_or register.signed_peer_record missing_field
  ok (register_request namespace signed_record register.ttl)
request_of (some (suc (suc zero))) _ (some unregister) _ = do
  namespace ← ok_or unregister.namespace missing_field
  ok (unregister_request namespace)
request_of (some (suc (suc (suc zero)))) _ _ (some discover) =
    ok (discover_request discover.namespace discover.cookie discover.limit)
request_of _ _ _ _ = err inconsistent_request

-- `Request::try_from`
pub try_from : WireMessage → Io Request
unfolding request_of
try_from message =
    request_of message.message_type message.register message.unregister message.discover

pub registration_message : WireRegistration → WireRegister
registration_message registration = record {
  namespace = some registration.namespace;
  signed_peer_record = some registration.signed_record;
  ttl = some registration.ttl;
}

pub register_response_of : Result Status ℕ → WireRegisterResponse
unfolding status_code
register_response_of (ok ttl) = record { status = some 0; ttl = some ttl }
register_response_of (err status) = record { status = some (status_code status); ttl = none }

pub discover_response_of : Result Status DiscoveryPage → WireDiscoverResponse
unfolding status_code registration_message
discover_response_of (ok page) = record {
  registrations = map registration_message page.registrations;
  cookie = some page.cookie;
  status = some 0;
}
discover_response_of (err status) = record {
  registrations = [];
  cookie = none;
  status = some (status_code status);
}

-- `WireMessage::from`
pub message_of : Response → WireMessage
unfolding register_response_of discover_response_of
message_of (registered_response result) = record no_message {
  message_type = some 1;
  register_response = some (register_response_of result);
}
message_of (discovered_response result) = record no_message {
  message_type = some 4;
  discover_response = some (discover_response_of result);
}

-- What a field of bytes takes at most in the protobuf encoding, with its tag and its length.
abbrev field_bound : Option Bytes → ℕ
field_bound none = 0
field_bound (some bytes) = length bytes + 11

abbrev number_bound : Option ℕ → ℕ
number_bound none = 0
number_bound (some n) = 11

abbrev registrations_bound : List WireRegister → ℕ
registrations_bound [] = 0
registrations_bound (r ∷ registrations) =
    11
    + field_bound r.namespace
    + field_bound r.signed_peer_record
    + number_bound r.ttl
    + registrations_bound registrations

abbrev page_bound : Option WireDiscoverResponse → ℕ
page_bound none = 0
page_bound (some page) =
    11 + registrations_bound page.registrations + field_bound page.cookie + number_bound page.status

abbrev result_bound : Option WireRegisterResponse → ℕ
result_bound none = 0
result_bound (some result) = 11 + number_bound result.status + number_bound result.ttl

-- prost for `WireMessage`. A tag below 16 takes one byte, and a number or a length ten at most.
pub record Prost : Type 0 where
  pub encode : WireMessage → Bytes
  pub decode : Bytes → Option WireMessage
  pub encoded_len : WireMessage → ℕ
  pub encoded_len_eq : (m : WireMessage) → length (encode m) ≡ encoded_len m
  pub encoded_len-le :
      (m : WireMessage)
      → m.register ≡ none
      → m.unregister ≡ none
      → m.discover ≡ none
      → encoded_len m
        ≤ number_bound m.message_type
          + result_bound m.register_response
          + page_bound m.discover_response

module _ (P : Prost) where
  unfoldable read_request : Bytes → Io (Request × Bytes)
  unfolding read_frame try_from
  read_request input = do
    (bytes, rest) ← read_frame input
    message ← ok_or (P.decode bytes) undecodable
    request ← try_from message
    ok (request, rest)

  pub write_response : Response → Io Bytes
  unfolding message_of
  write_response response = do
    let message = message_of response
    guard (leb (P.encoded_len message) max_wire_message_bytes) response_too_large
    ok (encode_varint (P.encoded_len message) ++ P.encode message)
