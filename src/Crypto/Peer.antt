-- ===== src/Crypto/Peer.antt =====
-- pkg/crypto: the keys of peers (handshake_auth.go, key_exchange.go, session_key.go, key_manager.go)
-- and the two constructors of crypto.go. The algorithms are parameters.
use chameleon_protocol.Base.{
  ℕ, ◌==◌, not, ◌&&◌, Bool, if◌then◌else◌, Option, ◌++◌, length, Result, ok, ◌>>◌, fail_if,
  from_option,
}
use chameleon_protocol.Base.Int.{ℤ, pos, leb_ℤ, pos_part}
use chameleon_protocol.Base.Bytes.{Bytes, codes, is_empty}
use chameleon_protocol.Crypto.{Aead}

-- SHA-256; AES-GCM of a key; HKDF-SHA256 of a secret, a salt and an info; X25519 of a scalar and a
-- point; Ed25519; HMAC-SHA256 of a key; base64. `none` is an error.
pub record Primitives : Type 0 where
  pub sha256 : Bytes → Bytes
  pub aes_gcm : Bytes → Option Aead
  pub hkdf : Bytes → Bytes → Bytes → ℕ → Option Bytes
  pub x25519 : Bytes → Bytes → Option Bytes
  pub sign : Bytes → Bytes → Bytes
  pub verify : Bytes → Bytes → Bytes → Bool
  pub hmac : Bytes → Bytes → Bytes
  pub encode64 : Bytes → Bytes
  pub decode64 : Bytes → Option Bytes

pub data KeyError : Type 0 where
  key_empty passphrase_empty no_cipher : KeyError
  peer_public_empty bad_public_size bad_signature_size bad_signature : KeyError
  not_initialized remote_empty no_secret : KeyError
  secret_empty context_empty bad_length no_key : KeyError
  epoch_empty : KeyError

-- A KeyExchange, and an AuthHandshake with the identity of a KeyManager.
pub record KeyExchange : Type 0 where
  pub private : Bytes
  pub public : Bytes

pub record KeyManager : Type 0 where
  pub private : Bytes
  pub public : Bytes

pub record AuthHandshake : Type 0 where
  pub exchange : KeyExchange
  pub identity : KeyManager

module _ (p : Primitives) where
  abbrev pub key_material : Bytes → Bytes
  key_material key =
      if not (length key == 16) && not (length key == 24) && not (length key == 32)
      then p.sha256 key
      else key

  unfoldable pub new_cipher_from_key : Bytes → Result KeyError Aead
  new_cipher_from_key key = do
    fail_if (is_empty key) key_empty
    from_option (p.aes_gcm (key_material key)) no_cipher

  unfoldable pub new_cipher : Bytes → Result KeyError Aead
  new_cipher passphrase = do
    fail_if (is_empty passphrase) passphrase_empty
    from_option (p.aes_gcm (p.sha256 passphrase)) no_cipher

  -- VerifySignedPublic
  unfoldable pub verify_signed_public : Bytes → Bytes → Bytes → Result KeyError (Unit {0})
  verify_signed_public xpub edpub sig = do
    fail_if (is_empty xpub) peer_public_empty
    fail_if (not (length edpub == 32)) bad_public_size
    fail_if (not (length sig == 64)) bad_signature_size
    fail_if (not (p.verify edpub xpub sig)) bad_signature
    ok tt

  -- SharedSecret of a key exchange
  unfoldable pub shared_secret : KeyExchange → Bytes → Result KeyError Bytes
  shared_secret k remote = do
    fail_if (is_empty k.private) not_initialized
    fail_if (is_empty remote) remote_empty
    from_option (p.x25519 k.private remote) no_secret

  -- DeriveSharedSecret of an AuthHandshake
  unfoldable pub derive_shared_secret :
      AuthHandshake → Bytes → Bytes → Bytes → Result KeyError Bytes
  unfolding verify_signed_public shared_secret
  derive_shared_secret a xpub edpub sig = do
    verify_signed_public xpub edpub sig
    shared_secret a.exchange xpub

  unfoldable pub session_context : Bytes → Bytes → Bytes
  session_context client server = p.sha256 (codes "chameleon/session/v1" ++ (client ++ server))

  unfoldable pub derive_session_key : Bytes → Bytes → ℤ → Result KeyError Bytes
  derive_session_key secret context size = do
    fail_if (is_empty secret) secret_empty
    fail_if (is_empty context) context_empty
    fail_if (leb_ℤ size (pos 0)) bad_length
    from_option (p.hkdf secret context (codes "chameleon peer session key") (pos_part size)) no_key

  -- Sign and GetEpochKey of a KeyManager
  unfoldable pub sign_with : KeyManager → Bytes → Result KeyError Bytes
  sign_with km msg = do fail_if (is_empty km.private) not_initialized; ok (p.sign km.private msg)

  unfoldable pub get_epoch_key : KeyManager → Bytes → ℤ → Result KeyError Bytes
  get_epoch_key km epoch_id size = do
    fail_if (is_empty km.private) not_initialized
    fail_if (is_empty epoch_id) epoch_empty
    fail_if (leb_ℤ size (pos 0)) bad_length
    from_option (p.hkdf km.private epoch_id (codes "chameleon epoch key") (pos_part size)) no_key
