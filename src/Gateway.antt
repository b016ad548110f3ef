-- ===== src/Gateway.antt =====
-- cmd/server/main.go: the UDP server, which authenticates peers, remembers the cipher of each, and
-- echoes the packets that it can open. JSON, the text of an address and the algorithms are parameters.
pub mod Admission
pub mod Delivery
use chameleon_protocol.Base.{
  ◌||◌, not, Bool, true, false, if◌then◌else◌, Option, none, some, List, [], ◌∷◌, ◌++◌, Result, ok,
  err, ◌>>=◌, ◌>>◌, fail_if, from_option,
}
use chameleon_protocol.Base.Int.{pos}
use chameleon_protocol.Base.Bytes.{Bytes, codes, is_empty}
use chameleon_protocol.Base.Dict.{Dict, lookup, insert}
use chameleon_protocol.Net.Text.{trim_space}
use chameleon_protocol.Net.HostPort.{contains}
use chameleon_protocol.Crypto.{Aead, CipherError, open_frame}
use chameleon_protocol.Crypto.Peer.{
  Primitives, KeyError, KeyExchange, KeyManager, AuthHandshake, verify_signed_public,
  derive_shared_secret, session_context, derive_session_key, new_cipher_from_key, sign_with,
}
use chameleon_protocol.Frame.{FrameError, decode_frame}
use chameleon_protocol.Identity.{Store, StoreError, register_or_verify}

-- normalizeListenAddress
unfoldable pub normalize_listen_address : Bytes → Bytes
normalize_listen_address address =
    let trimmed = trim_space address in
    if is_empty trimmed
    then codes ":9000"
    else if contains b':' trimmed
    then trimmed
    else trimmed ++ codes ":9000"

-- The four fields of a handshake message, base64 where they are bytes.
pub record Greeting : Type 0 where
  pub identity : Bytes
  pub x25519 : Bytes
  pub ed25519 : Bytes
  pub sig : Bytes

pub data GatewayError : Type 0 where
  bad_x25519_text bad_ed25519_text bad_sig_text no_exchange no_answer no_echo : GatewayError
  not_verified no_shared_secret no_session_key no_session_cipher not_signed :
      KeyError → GatewayError
  not_pinned : StoreError → GatewayError
  not_a_frame : FrameError → GatewayError
  not_opened : CipherError → GatewayError
  unauthenticated : GatewayError

-- What the server keeps between packets, less its own keys.
pub record Gateway : Type 0 where
  pub store : Store
  pub peers : Dict Aead

pub record Setup : Type 0 where
  pub primitives : Primitives
  pub legacy : Aead
  pub require_auth : Bool
  pub manager : KeyManager

-- What the handling of one packet meets: its JSON fields, if it is an object of texts; a fresh key
-- exchange; whether the store could be saved, and whether the answer went out.
pub record Arrival : Type 0 where
  pub from : Bytes
  pub packet : Bytes
  pub greeting : Option Greeting
  pub exchange : Option KeyExchange
  pub saves : Bool
  pub answered : Bool

abbrev pub or_fault {ℓ} :
    {A : Type ℓ} → (KeyError → GatewayError) → Result KeyError A → Result GatewayError A
or_fault f (ok a) = ok a
or_fault f (err e) = err (f e)

-- The keys that a greeting carries, decoded and verified.
pub record Claim : Type 0 where
  pub xpub : Bytes
  pub edpub : Bytes
  pub sig : Bytes

unfoldable pub decoded_claim : Setup → Greeting → Result GatewayError Claim
decoded_claim u g = do
  xpub ← from_option (u.primitives.decode64 g.x25519) bad_x25519_text
  edpub ← from_option (u.primitives.decode64 g.ed25519) bad_ed25519_text
  sig ← from_option (u.primitives.decode64 g.sig) bad_sig_text
  ok (record { xpub = xpub; edpub = edpub; sig = sig })

unfoldable pub verified_claim : Setup → Greeting → Result GatewayError Claim
unfolding decoded_claim
verified_claim u g = do
  c ← decoded_claim u g
  or_fault not_verified (verify_signed_public u.primitives c.xpub c.edpub c.sig)
  ok c

-- From the key exchange to the signed answer that was sent: the cipher of the session.
unfoldable pub session_cipher : Setup → Arrival → Claim → Result GatewayError Aead
session_cipher u a c = do
  exchange ← from_option a.exchange no_exchange
  let handshake : AuthHandshake = record { exchange = exchange; identity = u.manager }
  secret ←
      or_fault no_shared_secret (derive_shared_secret u.primitives handshake c.xpub c.edpub c.sig)
  key ← or_fault no_session_key (
      derive_session_key u.primitives secret (session_context u.primitives c.xpub exchange.public)
        (pos 32))
  cipher ← or_fault no_session_cipher (new_cipher_from_key u.primitives key)
  signature ← or_fault not_signed (sign_with u.primitives u.manager exchange.public)
  fail_if (not a.answered) no_answer
  ok cipher

abbrev pub after_cipher :
    Gateway → Arrival → Store → Result GatewayError Aead → Result GatewayError Bytes × Gateway
after_cipher w a store (err e) = (err e, record w { store = store })
after_cipher w a store (ok cipher) =
    (ok [], record { store = store; peers = insert a.from cipher w.peers })

-- What a handshake leaves, from the answer of the store on.
abbrev pub after_pin :
    Setup
    → Gateway
    → Arrival
    → Claim
    → Result StoreError Bool × Store
    → Result GatewayError Bytes × Gateway
after_pin u w a c (err e, store) = (err (not_pinned e), record w { store = store })
after_pin u w a c (ok created, store) = after_cipher w a store (session_cipher u a c)

abbrev pub after_claim :
    Setup
    → Gateway
    → Arrival
    → Greeting
    → Result GatewayError Claim
    → Result GatewayError Bytes × Gateway
after_claim u w a g (err e) = (err e, w)
after_claim u w a g (ok c) =
    after_pin u w a c (register_or_verify g.identity g.ed25519 a.saves w.store)

unfoldable pub greeted : Setup → Gateway → Arrival → Greeting → Result GatewayError Bytes × Gateway
greeted u w a g = after_claim u w a g (verified_claim u g)

-- The cipher for the data packets of an address.
unfoldable pub active_cipher : Setup → Option Aead → Result GatewayError Aead
active_cipher u (some c) = ok c
active_cipher u none = if u.require_auth then err unauthenticated else ok u.legacy

abbrev pub frame_fault {ℓ} : {A : Type ℓ} → Result FrameError A → Result GatewayError A
frame_fault (ok a) = ok a
frame_fault (err e) = err (not_a_frame e)

abbrev pub open_fault {ℓ} : {A : Type ℓ} → Result CipherError A → Result GatewayError A
open_fault (ok a) = ok a
open_fault (err e) = err (not_opened e)

-- A data packet: the plain text, which is only counted; the packet is echoed.
unfoldable pub opened_packet : Setup → Gateway → Bytes → Bytes → Result GatewayError Bytes
unfolding active_cipher
opened_packet u w from packet = do
  payload ← frame_fault (decode_frame packet)
  cipher ← active_cipher u (lookup from w.peers)
  open_fault (open_frame cipher payload)

abbrev pub is_complete : Greeting → Bool
is_complete g =
    not (is_empty g.identity || is_empty g.x25519 || is_empty g.ed25519 || is_empty g.sig)

abbrev pub received_packet :
    Setup → Gateway → Arrival → Option Greeting → Result GatewayError Bytes × Gateway
received_packet u w a none = (opened_packet u w a.from a.packet, w)
received_packet u w a (some g) =
    if is_complete g then greeted u w a g else (opened_packet u w a.from a.packet, w)

-- One round of the loop.
unfoldable pub receive : Setup → Gateway → Arrival → Result GatewayError Bytes × Gateway
receive u w a = received_packet u w a a.greeting

unfoldable pub serve : Setup → Gateway → List Arrival → Gateway
serve u w [] = w
serve u w (a ∷ arrivals) = serve u (receive u w a).1 arrivals
