-- ===== src/Tunnel/Handshake.antt =====
-- Auth v2 of pkg/tunnel/protocol_v2.go, and authenticateConn of pkg/tunnel/server_auth.go. What the
-- client sends is one stream; what crypto/rand delivers is an argument of each call that draws.
pub mod Complete
pub mod Legacy
pub mod Refused
use mathlib.Core.Option
use chameleon_protocol.Base.{
  ℕ, ◌+◌, ◌/◌, ◌%◌, ◌^◌, ◌==◌, ◌||◌, not, leb, ltb, Bool, true, false, if◌then◌else◌, List, [], ◌∷◌,
  ◌++◌, length, take, drop, get_or, Option, none, some, Result, ok, err, ◌>>=◌, ◌>>◌, fail_if,
  from_option,
}
use chameleon_protocol.Base.Int.{ℤ, pos}
use chameleon_protocol.Base.Bytes.{Bytes, codes, bytes_eq, is_empty, put_uint16, uint16_at}
use chameleon_protocol.Crypto.{Aead, CipherError, seal_frame, open_frame}
use chameleon_protocol.Io.{IoError, Writer, read_full, write_full}
use chameleon_protocol.Net.Text.{trim_space}
use chameleon_protocol.Tunnel.Trim.{strings_trim}
use chameleon_protocol.Tunnel.Destination.{
  DestinationError, max_destination_len, validate_destination,
}
use chameleon_protocol.Tunnel.Registry.{
  AuthError, ClientCredential, Registry, is_some, resolve, validate_client_secret,
}
use chameleon_protocol.Tunnel.Replay.{Seen, accept_nonce}
use chameleon_protocol.Tunnel.Hello.{
  ClientHello, HelloError, nonce_size, max_hello_cipher, derive_cipher, read_client_hello, io,
  cipher, destination, no_random, not_authentic, bad_destination_length, too_large, replayed,
  from_io, from_cipher, from_destination, authentic,
}

abbrev pub auth_v2_magic : Bytes
auth_v2_magic = 0x43 ∷ 0x48 ∷ 0x32 ∷ 0x00 ∷ []

abbrev pub auth_v2_version : ℕ
auth_v2_version = 2

abbrev pub max_client_id_len : ℕ
max_client_id_len = 128

-- hex.EncodeToString
abbrev pub hex_digit : ℕ → ℕ
hex_digit n = if ltb n 10 then b'0' + n else 87 + n

unfoldable pub hex_encode : Bytes → Bytes
hex_encode [] = []
hex_encode (b ∷ s) = hex_digit (b / 16) ∷ hex_digit (b % 16) ∷ hex_encode s

-- The first message of a client: who it claims to be and its nonce, and what follows.
pub record Start : Type 0 where
  pub client_id : Bytes
  pub client_nonce : Bytes
  pub rest : Bytes

unfoldable pub read_start : Bytes → Result HelloError Start
read_start stream = do
  (magic, s1) ← from_io (read_full 4 stream)
  fail_if (not (bytes_eq magic auth_v2_magic)) not_authentic
  (id_len_raw, s2) ← from_io (read_full 2 s1)
  let id_len = uint16_at id_len_raw 0
  fail_if (ltb id_len 8 || ltb max_client_id_len id_len) not_authentic
  (id, s3) ← from_io (read_full id_len s2)
  (client_nonce, s4) ← from_io (read_full nonce_size s3)
  ok (record { client_id = id; client_nonce = client_nonce; rest = s4 })

-- The sealed proof behind its length.
unfoldable pub read_proof : Bytes → Result HelloError Bytes
read_proof stream = do
  (size_raw, s1) ← from_io (read_full 2 stream)
  let size = uint16_at size_raw 0
  fail_if (leb size 0 || ltb max_hello_cipher size) not_authentic
  (encrypted, s2) ← from_io (read_full size s1)
  ok encrypted

module _ (derive : Bytes → Bytes → Bytes → Aead) where
  -- deriveV2Cipher
  unfoldable pub derive_v2_cipher : Bytes → Bytes → Bytes → Bytes → Result HelloError Aead
  derive_v2_cipher secret client_nonce server_nonce info = elim (validate_client_secret secret) [
    | err e ↦ err not_authentic
    | ok u ↦ ok (derive secret (client_nonce ++ server_nonce) info)
  ]

  abbrev pub auth_info : Bytes
  auth_info = codes "chameleon/auth/v2"

  abbrev pub session_info : Bytes
  session_info = codes "chameleon/tunnel/v2/session"

  -- What clientHandshakeV2WithCipher sends first, for a client id that is trimmed already.
  unfoldable pub client_start : Bytes → Bytes → Bytes
  client_start id client_nonce =
      auth_v2_magic ++ (put_uint16 (length id % 2 ^ 16) ++ (id ++ client_nonce))

  abbrev pub proof_plain : Bytes → Bytes
  proof_plain dest = auth_v2_version ∷ (put_uint16 (length dest % 2 ^ 16) ++ dest)

  -- What it sends after the server's challenge.
  unfoldable pub client_proof :
      Bytes → Bytes → Bytes → Bytes → Option Bytes → Result HelloError Bytes
  client_proof secret client_nonce server_nonce dest drawn = do
    auth_cipher ← derive_v2_cipher secret client_nonce server_nonce auth_info
    encrypted ← from_cipher (seal_frame auth_cipher drawn (proof_plain dest))
    fail_if (ltb max_hello_cipher (length encrypted)) too_large
    ok (put_uint16 (length encrypted % 2 ^ 16) ++ encrypted)

  -- The destination in an opened proof.
  unfoldable pub parse_proof : Bytes → Result HelloError Bytes
  parse_proof plain = do
    fail_if (ltb (length plain) 3 || not (get_or plain 0 0 == auth_v2_version)) not_authentic
    let dest_len = uint16_at plain 1
    fail_if
        (leb dest_len 0 || ltb max_destination_len dest_len || not (length plain == 3 + dest_len))
        bad_destination_length
    let dest = drop 3 plain
    from_destination (validate_destination dest)
    ok dest

  -- The part of serverHandshakeV2 behind the challenge. An unknown id comes here with `valid` false
  -- and a random secret.
  unfoldable pub check_proof : Bool → Bytes → Start → Bytes → Result HelloError (ClientHello × Aead)
  check_proof valid secret start server_nonce = do
    encrypted ← read_proof start.rest
    auth_cipher ← derive_v2_cipher secret start.client_nonce server_nonce auth_info
    plain ← authentic (open_frame auth_cipher encrypted)
    fail_if (not valid) not_authentic
    dest ← parse_proof plain
    session_cipher ← derive_v2_cipher secret start.client_nonce server_nonce session_info
    ok (
      record {
        version = auth_v2_version;
        timestamp = pos 0;
        nonce = start.client_nonce;
        destination = dest;
        client_id = start.client_id;
      },
      session_cipher,
    )

  module _ (parse_time : Bytes → Option ℤ) where
    -- The secret to go on with, of the credential or made up.
    abbrev pub secret_of : Option ClientCredential → Option Bytes → Option Bytes
    secret_of (some c) fake = some c.secret
    secret_of none none = none
    secret_of none (some fake) = some (hex_encode fake)

    after_challenge :
        Option IoError × Writer
        → Bool
        → Bytes
        → Start
        → Bytes
        → Result HelloError (ClientHello × Aead) × Writer
    after_challenge (some e, w) valid secret start server_nonce = (err (io e), w)
    after_challenge (none, w) valid secret start server_nonce =
        (check_proof valid secret start server_nonce, w)

    challenge :
        Option Bytes
        → Option Bytes
        → Bool
        → Start
        → Writer
        → Result HelloError (ClientHello × Aead) × Writer
    unfolding after_challenge
    challenge none server_nonce valid start w = (err no_random, w)
    challenge (some secret) none valid start w = (err no_random, w)
    challenge (some secret) (some server_nonce) valid start w =
        after_challenge (write_full w server_nonce) valid secret start server_nonce

    greet :
        Result HelloError Start
        → Registry
        → ℤ
        → Option Bytes
        → Option Bytes
        → Writer
        → Result HelloError (ClientHello × Aead) × Writer
    unfolding challenge
    greet (err e) registry now fake server_nonce w = (err e, w)
    greet (ok start) registry now fake server_nonce w =
        let credential = resolve parse_time registry start.client_id now in
        challenge (secret_of credential fake) server_nonce (is_some credential) start w

    -- serverHandshakeV2
    unfoldable pub server_handshake_v2 :
        Bytes
        → Writer
        → Registry
        → ℤ
        → Option Bytes
        → Option Bytes
        → Result HelloError (ClientHello × Aead) × Writer
    unfolding greet
    server_handshake_v2 stream w registry now fake server_nonce =
        greet (read_start stream) registry now fake server_nonce w

    -- The server's authentication state and configuration.
    pub record ServerState : Type 0 where
      pub psk : Bytes
      pub clients : Registry
      pub max_clock_skew : ℤ
      pub seen : Seen

    admit_hello :
        Result HelloError (ClientHello × Bytes)
        → ℤ
        → ServerState
        → Result HelloError (ClientHello × Aead) × ServerState
    admit_hello (err e) now s = (err e, s)
    admit_hello (ok (hello, rest)) now s =
        let (accepted, seen) = accept_nonce s.max_clock_skew hello.nonce now s.seen in
        (
          (if accepted then ok (hello, derive_cipher derive s.psk hello.nonce) else err replayed),
          record s { seen = seen },
        )

    -- authenticateConn: Auth v2 by its magic, the v1 hello otherwise. The clock
    -- is read before the connection is read further, as `now`, and in the v1 branch a second time when
    -- the hello is there, as `entered`.
    unfoldable pub authenticate_conn :
        Bytes
        → Writer
        → ℤ
        → ℤ
        → Option Bytes
        → Option Bytes
        → ServerState
        → Result HelloError (ClientHello × Aead) × (Writer × ServerState)
    unfolding admit_hello
    authenticate_conn stream w now entered fake server_nonce s =
        if ltb (length stream) 4
        then (err not_authentic, (w, s))
        else if bytes_eq (take 4 stream) auth_v2_magic
        then (if length s.clients == 0
            then (err not_authentic, (w, s))
            else let (answer, w') = server_handshake_v2 stream w s.clients now fake server_nonce in
              (answer, (w', s)))
        else if is_empty (strings_trim s.psk)
        then (err not_authentic, (w, s))
        else let (answer, s') =
            admit_hello (read_client_hello derive stream s.psk now s.max_clock_skew) entered s in
          (answer, (w, s'))
