-- ===== src/Crypto/Rekey.antt =====
-- pkg/crypto/rekey.go: the signed messages of a key swap.
use mathlib.Core.List.{append_assoc}
use chameleon_protocol.Base.{
  ◌≡◌, refl, Bool, true, not, ◌==◌, some, ◌++◌, length, Result, ok, ◌>>=◌, ◌>>◌, fail_if,
  from_option, fail_if-ok, >>=-ok,
}
use chameleon_protocol.Base.Bytes.{Bytes, is_empty}
use chameleon_protocol.Crypto.Peer.{Primitives, KeyError, KeyManager, sign_with}

pub data RekeyError : Type 0 where
  unsigned : KeyError → RekeyError
  bad_public bad_epoch_text bad_server_text bad_sig_text forged : RekeyError

-- RekeyMessage and RekeyAck.
pub record RekeyMessage : Type 0 where
  pub epoch_id : Bytes
  pub key_info : Bytes
  pub sig : Bytes

pub record RekeyAck : Type 0 where
  pub epoch_id : Bytes
  pub server : Bytes
  pub sig : Bytes

abbrev pub signed : Result KeyError Bytes → Result RekeyError Bytes
signed (Result.ok sig) = ok sig
signed (Result.err e) = Result.err (unsigned e)

module _ (p : Primitives) where
  unfoldable pub create_rekey_message : KeyManager → Bytes → Bytes → Result RekeyError RekeyMessage
  unfolding sign_with
  create_rekey_message km epoch_id key_info = do
    sig ← signed (sign_with p km (epoch_id ++ key_info))
    ok (record { epoch_id = p.encode64 epoch_id; key_info = key_info; sig = p.encode64 sig })

  unfoldable pub verify_rekey_message : RekeyMessage → Bytes → Result RekeyError Bytes
  verify_rekey_message msg peer = do
    fail_if (not (length peer == 32)) bad_public
    epoch_id ← from_option (p.decode64 msg.epoch_id) bad_epoch_text
    sig ← from_option (p.decode64 msg.sig) bad_sig_text
    fail_if (not (p.verify peer (epoch_id ++ msg.key_info) sig)) forged
    ok epoch_id

  unfoldable pub create_rekey_ack : KeyManager → Bytes → Bytes → Result RekeyError RekeyAck
  unfolding sign_with
  create_rekey_ack km epoch_id server = do
    sig ← signed (sign_with p km (epoch_id ++ server))
    ok (record { epoch_id = p.encode64 epoch_id; server = p.encode64 server; sig = p.encode64 sig })

  unfoldable pub verify_rekey_ack : RekeyAck → Bytes → Result RekeyError Bytes
  verify_rekey_ack msg peer = do
    fail_if (not (length peer == 32)) bad_public
    epoch_id ← from_option (p.decode64 msg.epoch_id) bad_epoch_text
    server ← from_option (p.decode64 msg.server) bad_server_text
    sig ← from_option (p.decode64 msg.sig) bad_sig_text
    fail_if (not (p.verify peer (epoch_id ++ server) sig)) forged
    ok epoch_id

-- The laws of the documentation: what was signed verifies, under a key pair; base64 decodes what it
-- encoded.
pub record SigningLaws (p : Primitives) (km : KeyManager) : Type 0 where
  pub verify_sign : (msg : Bytes) → p.verify km.public msg (p.sign km.private msg) ≡ true
  pub decode_encode : (bytes : Bytes) → p.decode64 (p.encode64 bytes) ≡ some bytes
  pub public_size : length km.public ≡ 32
  pub has_private : is_empty km.private ≡ Bool.false

module _ (p : Primitives) where
  -- A rekey message and an acknowledgement that a key manager created verify under its public key, to
  -- the epoch that they were made for.
  pub verify_rekey-create_rekey :
      (km : KeyManager) (epoch_id key_info server : Bytes)
      → SigningLaws p km
      → ((create_rekey_message p km epoch_id key_info >>= λ msg.
            verify_rekey_message p msg km.public)
          ≡ ok epoch_id)
        × ((create_rekey_ack p km epoch_id server >>= λ msg. verify_rekey_ack p msg km.public)
            ≡ ok epoch_id)
  unfolding create_rekey_message verify_rekey_message create_rekey_ack verify_rekey_ack sign_with
  verify_rekey-create_rekey km epoch_id key_info server laws =
      rw
        (
          laws.has_private,
          laws.public_size,
          laws.decode_encode epoch_id,
          laws.decode_encode server,
          laws.decode_encode (p.sign km.private (epoch_id ++ key_info)),
          laws.decode_encode (p.sign km.private (epoch_id ++ server)),
          laws.verify_sign (epoch_id ++ key_info),
          laws.verify_sign (epoch_id ++ server),
        )
        (refl, refl)

  -- The signature covers the concatenation only. A message that verifies to the epoch `a ++ b` also
  -- verifies, with the same signature, to the epoch `a`, when `b` is moved to the front of the key info.
  pub verify_rekey_message-shifted :
      (a b key_info sig peer : Bytes)
      → ((bytes : Bytes) → p.decode64 (p.encode64 bytes) ≡ some bytes)
      → verify_rekey_message p
          (record { epoch_id = p.encode64 (a ++ b); key_info = key_info; sig = sig })
          peer
        ≡ ok (a ++ b)
      → verify_rekey_message p
          (record { epoch_id = p.encode64 a; key_info = b ++ key_info; sig = sig })
          peer
        ≡ ok a
  unfolding verify_rekey_message
  verify_rekey_message-shifted a b key_info sig peer law h =
      let (size, h1) = fail_if-ok (not (length peer == 32)) _ _ h in
      let (s, got, h2) =
        >>=-ok (from_option (p.decode64 sig) bad_sig_text) _ (rw (law (a ++ b)) at h1) in
      let (good, _) = fail_if-ok (not (p.verify peer ((a ++ b) ++ key_info) s)) _ _ h2 in
      rw (size, law a, got, ← append_assoc a b key_info, good) refl
