-- ===== src/Tunnel/Hello.antt =====
-- The v1 hello of pkg/tunnel/protocol.go. The key derivation (HKDF of golang.org/x/crypto) is a
-- parameter that gives an AEAD for a secret, a salt and an info text.
pub mod RoundTrip
use chameleon_protocol.Base.{
  ℕ, ◌+◌, ◌*◌, ◌%◌, ◌^◌, ◌==◌, ◌||◌, not, leb, ltb, Bool, true, false, if◌then◌else◌, [], ◌∷◌, ◌++◌,
  length, take, drop, get_or, Option, none, some, Result, ok, err, ◌>>=◌, ◌>>◌, fail_if,
  from_option,
}
use chameleon_protocol.Base.Int.{ℤ, pos, leb_ℤ, to_word64, of_word64}
use chameleon_protocol.Base.Bytes.{
  Bytes, codes, is_empty, put_uint16, put_uint64, uint16_at, uint64_at,
}
use chameleon_protocol.Crypto.{Aead, CipherError, seal_frame, open_frame}
use chameleon_protocol.Io.{IoError, read_full}
use chameleon_protocol.Net.Text.{trim_space}
use chameleon_protocol.Tunnel.Destination.{
  DestinationError, max_destination_len, validate_destination,
}
use chameleon_protocol.Tunnel.Replay.{unix_time, within_skew}

abbrev pub hello_version : ℕ
hello_version = 1

abbrev pub nonce_size : ℕ
nonce_size = 32

abbrev pub max_hello_cipher : ℕ
max_hello_cipher = 2048

pub record ClientHello : Type 0 where
  pub version : ℕ
  pub timestamp : ℤ
  pub nonce : Bytes
  pub destination : Bytes
  pub client_id : Bytes

pub data HelloError : Type 0 where
  empty_psk no_random too_large bad_length not_authentic bad_hello bad_destination_length :
      HelloError
  skewed replayed : HelloError
  io : IoError → HelloError
  destination : DestinationError → HelloError
  cipher : CipherError → HelloError

-- `if err := f(); err != nil { return err }`, for each kind of callee
abbrev pub from_io {ℓ} : {A : Type ℓ} → Result IoError A → Result HelloError A
from_io (ok x) = ok x
from_io (err e) = err (io e)

abbrev pub from_destination : Result DestinationError (Unit {0}) → Result HelloError (Unit {0})
from_destination (ok x) = ok x
from_destination (err e) = err (destination e)

abbrev pub from_cipher {ℓ} : {A : Type ℓ} → Result CipherError A → Result HelloError A
from_cipher (ok x) = ok x
from_cipher (err e) = err (cipher e)

-- Any failure of Open is reported as a failed authentication.
abbrev pub authentic {ℓ} : {A : Type ℓ} → Result CipherError A → Result HelloError A
authentic (ok x) = ok x
authentic (err e) = err not_authentic

abbrev pub default_skew : ℤ
default_skew = pos (120 * 10 ^ 9)

module _ (derive : Bytes → Bytes → Bytes → Aead) where
  abbrev pub derive_cipher : Bytes → Bytes → Aead
  derive_cipher psk nonce = derive psk nonce (codes "chameleon/tunnel/v1")

  abbrev pub hello_plain : ℤ → Bytes → Bytes
  hello_plain now dest =
      (hello_version ∷ put_uint64 (to_word64 now)) ++ (put_uint16 (length dest % 2 ^ 16) ++ dest)

  -- `now` is now.Unix(); `salt` and `drawn` are what rand.Read gives for the two nonces.
  unfoldable pub build_client_hello :
      Bytes → Bytes → ℤ → Option Bytes → Option Bytes → Result HelloError (Bytes × Bytes)
  build_client_hello psk dest now salt drawn = do
    fail_if (is_empty (trim_space psk)) empty_psk
    from_destination (validate_destination dest)
    nonce ← from_option salt no_random
    encrypted ← from_cipher (seal_frame (derive_cipher psk nonce) drawn (hello_plain now dest))
    fail_if (ltb max_hello_cipher (length encrypted)) too_large
    ok (nonce ++ (put_uint16 (length encrypted % 2 ^ 16) ++ encrypted), nonce)

  -- The part behind Open: version, timestamp, destination, and the clock.
  unfoldable pub parse_hello : Bytes → Bytes → ℤ → ℤ → Result HelloError ClientHello
  parse_hello nonce plain now max_skew = do
    fail_if (ltb (length plain) 11 || not (get_or plain 0 0 == hello_version)) bad_hello
    let timestamp = of_word64 (uint64_at plain 1)
    let dest_len = uint16_at plain 9
    fail_if
        (leb dest_len 0 || ltb max_destination_len dest_len || not (length plain == 11 + dest_len))
        bad_destination_length
    let dest = drop 11 plain
    from_destination (validate_destination dest)
    let skew = if leb_ℤ max_skew (pos 0) then default_skew else max_skew
    fail_if (not (within_skew skew now (unix_time timestamp))) skewed
    ok (record {
      version = hello_version;
      timestamp = timestamp;
      nonce = nonce;
      destination = dest;
      client_id = [];
    })

  -- The hello, and what follows it on the stream.
  unfoldable pub read_client_hello : Bytes → Bytes → ℤ → ℤ → Result HelloError (ClientHello × Bytes)
  read_client_hello stream psk now max_skew = do
    fail_if (is_empty (trim_space psk)) empty_psk
    (fixed, after_fixed) ← from_io (read_full (nonce_size + 2) stream)
    let nonce = take nonce_size fixed
    let encrypted_len = uint16_at fixed nonce_size
    fail_if (leb encrypted_len 0 || ltb max_hello_cipher encrypted_len) bad_length
    (encrypted, rest) ← from_io (read_full encrypted_len after_fixed)
    plain ← authentic (open_frame (derive_cipher psk nonce) encrypted)
    hello ← parse_hello nonce plain now max_skew
    ok (hello, rest)
