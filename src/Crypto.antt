-- ===== src/Crypto.antt =====
-- pkg/crypto/crypto.go: the AEAD wrapper. The AEAD itself (AES-GCM of Go's crypto/cipher) is a
-- parameter, and so is what crypto/rand delivers: each call that draws bytes takes them.
pub mod Peer
pub mod Rekey
pub mod Envelope
use chameleon_protocol.Base.{
  ℕ, ◌+◌, ◌≤◌, ◌≡◌, Option, some, ◌++◌, length, take, drop, ltb, Result, ok, ◌>>=◌, ◌>>◌, fail_if,
  from_option, arith, take-length_append, drop-length_append, length-append,
}
use chameleon_protocol.Base.Bytes.{Bytes}

-- cipher.AEAD, with no additional data.
pub record Aead : Type 0 where
  pub nonce_size : ℕ
  pub overhead : ℕ
  pub seal : Bytes → Bytes → Bytes
  pub unseal : Bytes → Bytes → Option Bytes

-- What the documentation of cipher.AEAD promises, and that its sizes are not absurd.
pub record AeadLaws (a : Aead) : Type 0 where
  pub unseal_seal : (nonce plain : Bytes) → a.unseal nonce (a.seal nonce plain) ≡ some plain
  pub length_seal : (nonce plain : Bytes) → length (a.seal nonce plain) ≡ length plain + a.overhead
  pub small : a.nonce_size + a.overhead ≤ 65536

pub data CipherError : Type 0 where
  no_nonce frame_too_short open_failed : CipherError

-- Seal; `drawn` is what rand.Read put into the nonce.
unfoldable pub seal_frame : Aead → Option Bytes → Bytes → Result CipherError Bytes
seal_frame a drawn plain = do nonce ← from_option drawn no_nonce; ok (nonce ++ a.seal nonce plain)

-- Open
unfoldable pub open_frame : Aead → Bytes → Result CipherError Bytes
open_frame a frame = do
  fail_if (ltb (length frame) a.nonce_size) frame_too_short
  from_option (a.unseal (take a.nonce_size frame) (drop a.nonce_size frame)) open_failed

-- What was sealed under a nonce of the right size opens to itself.
pub open_frame-seal :
    (a : Aead) (nonce plain : Bytes)
    → AeadLaws a
    → length nonce ≡ a.nonce_size
    → open_frame a (nonce ++ a.seal nonce plain) ≡ ok plain
unfolding open_frame
open_frame-seal a nonce plain laws size =
    let sealed = a.seal nonce plain in
    rw (← size) (
      rw
        (
          take-length_append nonce sealed,
          drop-length_append nonce sealed,
          laws.unseal_seal nonce plain,
        )
        (ground (arith, length-append nonce sealed)))
