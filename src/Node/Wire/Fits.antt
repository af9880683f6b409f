-- ===== src/Node/Wire/Fits.antt =====
-- crates/node/src/rendezvous/codec.rs: the responses of a store, as they are written.
use envshare.Prelude.{
  ℕ, suc, ◌+◌, ◌*◌, ◌≤◌, ◌≡◌, refl, subst, Bool, true, inl, inr, Option, some, none, List, [], ◌∷◌,
  ◌++◌, map, append-nil, length, length-append, to_be_bytes, length-to_be_bytes, All, Bytes,
  take_append, drop_append, arith, Bool-cases, Result-cases, some-inj, Result, ok, err,
}
use envshare.Node.Config.{NodeConfig, validate, validate_discovery, page_fits, limits_of}
use envshare.Node.Store.{
  Limits, Store, Request, register_request, unregister_request, discover_request, Response,
  registered_response, discovered_response, WireRegistration, Status, response_for_rate_limited,
  admit, rejected, new, unavailable,
}
use envshare.Node.Discovery.{
  PeerRecord, Candidate, handle, dispatch, register, unregister, discover, serve, page, asked,
  insert_cookie, requested_namespace, check_registration, operation_of,
}
use envshare.Node.Discovery.Calls.{Call, calls}
use envshare.Node.Address.{valid_namespace}
use envshare.Node.Discovery.Records.{
  valid_namespace-length, admit-HasRecords, HasRecords, FitsCandidate, page-FitsCandidate,
  calls-HasRecords,
}
use envshare.Node.Discovery.Pages.{length-page}
use envshare.Node.Wire.{
  Prost, max_wire_message_bytes, registration_message, registrations_bound, page_bound,
  number_bound, result_bound, message_of, register_response_of, discover_response_of,
  write_response, read_frame, encode_varint,
}
use envshare.Node.Wire.Varint.{read_length-encode_groups}

-- What a written frame is read back as.
read_frame-append :
    (payload rest : Bytes)
    → length payload ≤ max_wire_message_bytes
    → read_frame (encode_varint (length payload) ++ (payload ++ rest)) ≡ ok (payload, rest)
unfolding read_frame
read_frame-append payload rest le = ground (
  arith,
  read_length-encode_groups 9 0 0 (length payload) (payload ++ rest) (omega arith) (omega arith)
      (omega arith),
  length-append payload rest,
  take_append payload rest,
  drop_append payload rest,
)

-- The upper limit of the length of a response.
abbrev response_bound : Response → ℕ
response_bound response =
    let message = message_of response in
    number_bound message.message_type
    + result_bound message.register_response
    + page_bound message.discover_response

abbrev FitsFrame : Response → Type 0
FitsFrame response = response_bound response ≤ max_wire_message_bytes

registered_response-FitsFrame : (result : Result Status ℕ) → FitsFrame (registered_response result)
unfolding message_of register_response_of
registered_response-FitsFrame (ok ttl) = omega arith
registered_response-FitsFrame (err status) = omega arith

refusal-FitsFrame : (status : Status) → FitsFrame (discovered_response (err status))
unfolding message_of discover_response_of
refusal-FitsFrame status = omega arith

abbrev wires : List Candidate → List WireRegistration
wires = map (λ c. c.wire)

entry_mul : (n k : ℕ) → suc n * k ≡ k + n * k
entry_mul n k = grind arith

wires_bound :
    (config : Limits) (cs : List Candidate)
    → All (FitsCandidate config) cs
    → registrations_bound (map registration_message (wires cs))
      ≤ length cs * (config.record_bytes + 88)
unfolding registration_message
wires_bound config [] h = omega arith
wires_bound config (c ∷ cs) (p, h) =
    omega (arith, wires_bound config cs h, entry_mul (length cs) (config.record_bytes + 88))

page_mul :
    (n results size : ℕ)
    → n ≤ results
    → results ≤ 64
    → results * size ≤ 900 * 1024
    → n * (size + 88) ≤ 900 * 1024 + 64 * 88
page_mul n results size le few fits = grind arith

validate_discovery-page :
    (c : NodeConfig)
    → validate_discovery c ≡ true
    → (c.discovery_results ≤ 64) × (c.discovery_results * c.discovery_record_bytes ≤ 900 * 1024)
unfolding validate_discovery page_fits
validate_discovery-page c h = ground (arith, h)

serve-FitsFrame :
    (c : NodeConfig) (s : Store) (peer namespace : Bytes) (seen : List ℕ) (limit : Option ℕ)
    (response : Response)
    → validate_discovery c ≡ true
    → HasRecords (limits_of c) s
    → length namespace ≡ 44
    → (serve s peer namespace seen limit).0.response ≡ some response
    → FitsFrame response
unfolding serve insert_cookie message_of discover_response_of limits_of
serve-FitsFrame c s peer namespace seen limit response valid h ns e =
    let (few, fits) = validate_discovery-page c valid in
    let cs = page s namespace seen limit in
    let le : length cs ≤ c.discovery_results =
      subst (λ x. length cs ≤ x.results) h.config_eq (length-page s namespace seen limit) in
    let wires_le =
      wires_bound (limits_of c) cs (page-FitsCandidate (limits_of c) s namespace seen limit h) in
    let total_le = page_mul (length cs) c.discovery_results c.discovery_record_bytes le few fits in
    subst FitsFrame (some-inj e) (
      omega (
        arith,
        wires_le,
        total_le,
        ns,
        length-append (to_be_bytes 8 s.next_cookie) namespace,
        length-to_be_bytes 8 s.next_cookie,
      ))

asked_valid :
    (s : Store) (namespace cookie : Option Bytes) (found : Bytes × List ℕ)
    → asked s namespace cookie ≡ ok found
    → valid_namespace found.0 ≡ true
unfolding asked requested_namespace
asked_valid s none cookie found e = cc
asked_valid s (some namespace) cookie found e = ground (arith, e)

discover-FitsFrame :
    (c : NodeConfig) (s : Store) (peer : Bytes) (namespace cookie : Option Bytes) (limit : Option ℕ)
    (response : Response)
    → validate_discovery c ≡ true
    → HasRecords (limits_of c) s
    → (discover s peer namespace cookie limit).0.response ≡ some response
    → FitsFrame response
unfolding discover rejected
discover-FitsFrame c s peer namespace cookie limit response valid h e =
    elim (Result-cases (asked s namespace cookie)) [
      | inl (found, q) ↦
          serve-FitsFrame c s peer found.0 found.1 limit response valid h
            (valid_namespace-length found.0 (asked_valid s namespace cookie found q))
            (rw (q, discover) at e)
      | inr (status, q) ↦
          subst FitsFrame (some-inj (rw (q, discover, rejected) at e)) (refusal-FitsFrame status)
    ]

module _ (signed_record_of : Bytes → Option PeerRecord) where
  dispatch-FitsFrame :
      (c : NodeConfig) (s : Store) (peer : Bytes) (request : Request) (now : ℕ)
      (response : Response)
      → validate_discovery c ≡ true
      → HasRecords (limits_of c) s
      → (dispatch signed_record_of s peer request now).0.response ≡ some response
      → FitsFrame response
  unfolding dispatch register unregister rejected
  dispatch-FitsFrame c s peer (register_request namespace record_bytes ttl) now response v h e =
      elim (Result-cases (check_registration signed_record_of s peer namespace record_bytes ttl)) [
        | inl (t, q) ↦
            subst FitsFrame (some-inj (rw (q, register) at e))
              (registered_response-FitsFrame (ok t))
        | inr (status, q) ↦
            subst FitsFrame (some-inj (rw (q, register, rejected) at e))
              (registered_response-FitsFrame (err status))
      ]
  dispatch-FitsFrame c s peer (unregister_request namespace) now response v h e =
      absurd (ground (arith, e))
  dispatch-FitsFrame c s peer (discover_request namespace cookie limit) now response v h e =
      discover-FitsFrame c s peer namespace cookie limit response v h e

  limited-FitsFrame :
      (request : Request) (response : Response)
      → response_for_rate_limited (operation_of request) ≡ some response
      → FitsFrame response
  unfolding response_for_rate_limited
  limited-FitsFrame (register_request _ _ _) response e =
      subst FitsFrame (some-inj e) (registered_response-FitsFrame (err unavailable))
  limited-FitsFrame (unregister_request _) response e = cc
  limited-FitsFrame (discover_request _ _ _) response e =
      subst FitsFrame (some-inj e) (refusal-FitsFrame unavailable)

  handle-FitsFrame :
      (c : NodeConfig) (s : Store) (peer : Bytes) (request : Request) (now : ℕ)
      (response : Response)
      → validate_discovery c ≡ true
      → HasRecords (limits_of c) s
      → (handle signed_record_of s peer request now).0.response ≡ some response
      → FitsFrame response
  unfolding handle rejected
  handle-FitsFrame c s peer request now response v h e =
      let (admitted, s') = admit s peer (operation_of request) now in
      let h' = admit-HasRecords (limits_of c) s peer (operation_of request) now h in
      elim (Bool-cases admitted) [
        | inl t ↦ dispatch-FitsFrame c s' peer request now response v h' (rw (t, handle) at e)
        | inr f ↦ limited-FitsFrame request response (rw (f, handle, rejected) at e)
      ]

payload_le :
    (P : Prost) (response : Response)
    → FitsFrame response
    → length (P.encode (message_of response)) ≤ max_wire_message_bytes
unfolding message_of
payload_le P (registered_response result) h = omega (
  arith,
  P.encoded_len_eq (message_of (registered_response result)),
  P.encoded_len-le (message_of (registered_response result)) refl refl refl,
)
payload_le P (discovered_response result) h = omega (
  arith,
  P.encoded_len_eq (message_of (discovered_response result)),
  P.encoded_len-le (message_of (discovered_response result)) refl refl refl,
)

write_response-FitsFrame :
    (P : Prost) (response : Response)
    → FitsFrame response
    → write_response P response
      ≡ ok (encode_varint (P.encoded_len (message_of response)) ++ P.encode (message_of response))
unfolding write_response message_of
write_response-FitsFrame P (registered_response result) h =
    ground (arith, h, P.encoded_len-le (message_of (registered_response result)) refl refl refl)
write_response-FitsFrame P (discovered_response result) h =
    ground (arith, h, P.encoded_len-le (message_of (discovered_response result)) refl refl refl)

-- A frame that holds these bytes.
abbrev pub Written : Prost → Response → Type 0
Written P response =
    (frame : Bytes) × (write_response P response ≡ ok frame)
    × (read_frame frame ≡ ok (P.encode (message_of response), []))

FitsFrame-Written : (P : Prost) (response : Response) → FitsFrame response → Written P response
FitsFrame-Written P response h =
    let payload = P.encode (message_of response) in
    let frame_eq = write_response-FitsFrame P response h in
    let le : length payload ≤ max_wire_message_bytes = payload_le P response h in
    (
      encode_varint (length payload) ++ payload,
      rw (P.encoded_len_eq (message_of response)) frame_eq,
      subst (λ rest. read_frame (encode_varint (length payload) ++ rest) ≡ ok (payload, []))
          (append-nil payload) (read_frame-append payload [] le),
    )

validate-validate_discovery :
    (accepts_filter : Bytes → Bool) (c : NodeConfig)
    → validate accepts_filter c ≡ true
    → validate_discovery c ≡ true
unfolding validate
validate-validate_discovery accepts_filter c h = ground (arith, h)

module _ (accepts_filter : Bytes → Bool) (P : Prost) (record_of : Bytes → Option PeerRecord) where
  -- For a valid node configuration and any calls of its store, the response to any further request
  -- is written: its length is within the frame bound, the frame that `write_response` gives is read
  -- back by `read_frame` as the encoded message and nothing else, for a prost whose lengths are
  -- within the bounds of protobuf.
  pub handle-Written :
      (c : NodeConfig) (rest : List (Call record_of)) (peer : Bytes) (request : Request) (now : ℕ)
      (response : Response)
      → validate accepts_filter c ≡ true
      → (handle record_of (calls record_of (new (limits_of c)) rest) peer request now).0.response
        ≡ some response
      → Written P response
  handle-Written c rest peer request now response valid e = FitsFrame-Written P response (
      handle-FitsFrame record_of c (calls record_of (new (limits_of c)) rest) peer request now
        response (validate-validate_discovery accepts_filter c valid)
        (calls-HasRecords record_of (limits_of c) rest) e)
