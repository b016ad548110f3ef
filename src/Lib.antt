-- ===== src/Lib.antt =====
-- Chameleon Protocol: the tunnel's wire formats, authentication and replay protection, and the
-- policies that choose how traffic travels, as functions with theorems about them.
--
-- The parts and their files. A comment at the top of each file names the source that it is about.
-- Frame: pkg/core/frame.go. EncodeFrame is encode_frame, DecodeFrame is decode_frame.
-- Crypto: pkg/crypto/crypto.go. Cipher.Seal is seal_frame, Cipher.Open is open_frame. Peer models
-- the keys of peers (handshake_auth.go, key_exchange.go, session_key.go, key_manager.go), Rekey models
-- rekey.go and Envelope models identity.go.
-- Morph: pkg/morph, the padding and the delay of a packet. Transport: pkg/core/profile.go and
-- normalization.go; Send is send, which asks Morph, Crypto, Session and Frame in turn, and returns
-- what it did: the error, the transport, the packet, the observation.
-- Gateway: the receive loop of cmd/server/main.go. One round is receive; it reads what a Transport
-- sent, and keeps Identity and the ciphers of its peers.
-- Socks: pkg/socks5. Request and Reply model clientHandshake of client.go against serverGreeting,
-- readRequestDetails and writeReply of server.go; Datagram models the packets of udp.go; Relaying
-- the pinning of the UDP client and the framing of dns_tcp.go.
-- Io: the loop writeFull of pkg/tunnel/secure_conn.go and io.ReadFull. A reader is the bytes that
-- are still to come; a writer is what went out and the answers that its next calls will give,
-- short writes and failures among them.
-- Tunnel: pkg/tunnel. Destination and Hello model protocol.go, Handshake models protocol_v2.go
-- and server_auth.go, Registry models auth.go, Replay models acceptNonce of server.go and the
-- clock test of readClientHello, Secure models secure_conn.go, Datagram the frames of
-- quic_datagram.go, Relay its map of sockets, Egress what server.go does with an authenticated stream
-- and the status that client.go reads. The server authenticates a connection with Handshake, which asks
-- Registry or Hello and Replay, and then talks through Secure. (Functions keep their
-- names: readClientHello is read_client_hello, serverHandshakeV2 is server_handshake_v2, authenticateConn authenticate_conn.)
-- Session: pkg/state. Lifecycle models session.go, Rekey models rekey.go, Epoch models epoch.go
-- and sync.go.
-- Dpi: pkg/dpi/strategy.go and writer.go, with Engine for engine.go and First for conn.go. Traffic:
-- pkg/traffic/classifier.go. Planner: pkg/planner/planner.go, whose Choose asks Traffic,
-- Carrier.Choice and Dpi.Engine.Choice in this order (planner_choose) and whose Observe feeds the
-- memories of Carrier and Dpi.Engine. Carrier: pkg/carrier/engine.go, with Choice for the scores
-- and Choose. Identity: pkg/identity/store.go.
-- Net: what the program uses of strings.TrimSpace, strconv and net.SplitHostPort. Base: lists,
-- tests, results, 64-bit integers, bytes and maps. Tests: the properties at concrete inputs.
--
-- Conventions. A byte is a number below 256, a text is its bytes. A time and a duration are integers
-- of nanoseconds; a Duration that time.Sub returns stops at its ends, int64 arithmetic wraps. Errors
-- are constructors, one for each return of the source; messages are not modelled. A Go map is an
-- association list with each key once. Where a call reads the clock more than once, each
-- reading is an argument. Locks do not appear: every operation is one step, but for the relay of
-- Tunnel.Relay, whose lock is released in the middle of one. make does not fail for want of memory.
--
-- Parameters. The AEAD (crypto/cipher), with the laws of its documentation where a theorem needs
-- them; the key derivations (HKDF) and HMAC, as functions that do not fail; what crypto/rand
-- delivers; time.Parse; strings.ToLower; float64 with its comparisons; whether a file could be saved;
-- Ed25519, X25519, SHA-256, AES-GCM and base64; how package net parses, prints and classifies IP
-- addresses.
--
-- Fuel. The writing loop of Secure takes a byte at least in each round, so the length of its input
-- is enough; the reading loop read_all has a theorem that one round more than there are bytes is.
--
-- Not modelled: sockets, TLS and QUIC sessions, files and JSON, the command line programs, the
-- mobile binding and the experiments; pkg/adaptive, pkg/probe, pkg/storage and pkg/proxy; the copying of
-- bytes between two connections.
pub mod Base
pub mod Carrier
pub mod Crypto
pub mod Dpi
pub mod Frame
pub mod Gateway
pub mod Identity
pub mod Io
pub mod Morph
pub mod Net
pub mod Planner
pub mod Session
pub mod Socks
pub mod Tests
pub mod Traffic
pub mod Transport
pub mod Tunnel
