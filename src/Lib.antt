-- ===== src/Lib.antt =====
-- Verification of envshare: single-use transfer of a secret environment file from a sender to a
-- receiver who holds a share code.
--
-- The program's parts. A share code (crates/code) is the text of a secret of 20 bytes. From the
-- secret, crates/crypto derives the keys of a room, and it binds every proof, key and associated data
-- to a transcript. crates/protocol has the envelope that is encrypted and the messages that cross the
-- network. crates/core has the two ends: the sender's actor, which offers one envelope to one
-- receiver, and the receiver's session, which verifies the offer and acknowledges it. crates/node is
-- the node that peers meet at: it admits connections, keeps registrations within limits and answers
-- requests in frames. crates/network finds peers: it names a room for the nodes, keeps registrations
-- alive, and ranks the addresses that the nodes give. The received text is a dotenv document, which
-- crates/core can select from or merge into another.
--
-- The files.
--   Prelude and its children: tests on numbers, lists, byte strings, and `Result` with its bind.
--   Primitives: SHA-256, HMAC, HKDF and the AEAD, as operations with the behaviour relied on.
--   Cbor: the CBOR codec of minicbor in the same way; Cbor/Sample is an instance after RFC 8949.
--   Code/Alphabet is crates/code/src/alphabet.rs; Code/ShareCode is lib.rs and checksum.rs, with
--     `ShareCode::from_str` as `from_str` and its Display as `to_string`.
--   Protocol/Limits, Errors, Envelope, Message, Body and Frame are limits.rs, error.rs, envelope.rs,
--     message.rs (records and encoders, then bodies) and frame.rs of crates/protocol/src.
--   Crypto/Types, Transcript, Kdf, Proof and Aead are types.rs, transcript.rs, kdf.rs, proof.rs, and
--     aead.rs with digest.rs of crates/crypto/src.
--   Core/Sender and Core/Offer are crates/core/src/sender/actor.rs: a method of `SenderActor` takes the
--     actor and returns the new one. Core/Receiver is crates/core/src/receiver/session.rs.
--     Core/Direct is crates/core/src/direct.rs. Core/Dotenv is crates/core/src/local/dotenv.rs, and
--     Core/BTreeMap is the map of the standard library that it uses.
--   Node/Admission is crates/node/src/admission.rs, and Node/Address, Node/Store and Node/Discovery are
--     crates/node/src/rendezvous/store.rs with the requests of codec.rs; Node/Maps is a HashMap.
--     Node/Wire is crates/node/src/rendezvous/codec.rs, Node/Config is config.rs, Node/Status is
--     telemetry.rs, and Node/Server is relay.rs: an event of the swarm, a tick or the start of the
--     drain is a turn that takes the server to the next.
--   Network/Errors is crates/network/src/error.rs. Network/Multiaddr is libp2p's addresses, as operations
--     with the behaviour relied on. Network/Discovery is crates/network/src/discovery.rs, with
--     `CandidateSet::insert` as `insert_peer`; Network/Provider is its dispatchers and its renewal
--     loop, which give the list of the requests that they make. Network/Driver is crates/network/src/driver.rs
--     with config.rs, and Network/Driver/Turns its handlers: a command, an event or the application's
--     reading of an event is a turn, and the calls of the swarm and of the senders of results are
--     written down as effects.
--   The children of these modules hold their theorems, and the modules named Tests runs and instances.
--
-- Conventions. An array, a Vec<u8> and a String are lists of numbers, their bytes; that an array has
-- its size is a condition of the theorems that need it. Integers are natural numbers, reduced where
-- the source wraps, and bounded by the conditions of the theorems. An encoder returns what the source
-- appends to its buffer; a decoder returns the value and the rest of the input. An Instant is a
-- number, and `checked_add` on it, the entropy source and the network are parameters. All loops are
-- structural recursion on the input, or on a list of events, but for `drain` in Code/Alphabet: its
-- fuel is the number of available bits, which falls by five in each round. A peer, an address and a
-- namespace of libp2p are their bytes.
--
-- The frame of the codec has at most ten bytes of length, so `read_length` has that many rounds, and
-- `encode_varint` has ten, enough for every 64-bit number.
--
-- Not modelled: zeroising and constant-time comparison, which do not change results; random
-- generation; libp2p itself and its codecs over streams, in the client and in the node; the command
-- line, file and process handling; the node's HTTP endpoints, key files, logging and the text of its
-- metrics. TOML, protobuf, dotenv syntax and multiaddresses are read by third-party code.
pub mod Prelude
pub mod Primitives
pub mod Cbor
pub mod Protocol
pub mod Crypto
pub mod Core
pub mod Code
pub mod Node
pub mod Network
