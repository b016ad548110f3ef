-- ===== src/Gateway/Delivery.antt =====
-- The way of a payload from Send of pkg/core/normalization.go to the server of cmd/server/main.go.
use mathlib.Core.Path.{subst}
use chameleon_protocol.Base.{
  ℕ, ◌+◌, ◌^◌, ◌<◌, ◌≡◌, refl, sym, ap, ◌∙◌, arith, false, Option, some, [], ◌∷◌, ◌++◌, length, ok,
  err, Result, >>=-ok, from_option-ok, from_option, ok_injective, length-append,
}
use chameleon_protocol.Base.Int.{pos, ◌≤ℤ◌, IsInt64}
use chameleon_protocol.Base.Bytes.{Bytes, is_empty}
use chameleon_protocol.Base.Dict.{lookup}
use chameleon_protocol.Crypto.{Aead, AeadLaws, seal_frame, open_frame, open_frame-seal, no_nonce}
use chameleon_protocol.Morph.{RandomLaws}
use chameleon_protocol.Transport.{Transport, Moment}
use chameleon_protocol.Transport.Sending.{send, seal_payload, seal_fault}
use chameleon_protocol.Transport.Delivery.{send-written, decode_frame-body}
use chameleon_protocol.Gateway.{Setup, Gateway, opened_packet, active_cipher}

unsealed : {body : Bytes} (r : Result _ Bytes) → seal_fault r ≡ ok body → r ≡ ok body
unsealed (ok a) h = cc
unsealed (err e) h = cc

seal_payload-nonce :
    (c : Aead) (drawn : Option Bytes) (payload body : Bytes)
    → seal_payload (some c) drawn payload ≡ ok body
    → (nonce : Bytes) × (drawn ≡ some nonce) × (body ≡ nonce ++ c.seal nonce payload)
unfolding seal_frame
seal_payload-nonce c drawn payload body h =
    let (nonce, got, e) = >>=-ok (from_option drawn no_nonce) _ (unsealed _ h) in
    (nonce, from_option-ok drawn no_nonce got, sym (ok_injective e))

nonempty : (s : Bytes) → is_empty s ≡ false → 0 < length s
nonempty [] h = cc
nonempty (b ∷ s) h = omega arith

-- What a transport wrote, a server whose cipher for the sender's address is the transport's opens to
-- the payload that was sent: shaping, framing and sealing lose nothing. (The AEAD and crypto/rand
-- keep their documentation, and the padded packet is smaller than 2^32 bytes.)
pub opened_packet-send :
    (hmac : Bytes → Bytes → Bytes) (t : Transport) (m : Moment) (payload frame from : Bytes)
    (u : Setup) (w : Gateway) (c : Aead) (room : ℕ)
    → AeadLaws c
    → RandomLaws m.random
    → ((nonce : Bytes) → m.nonce ≡ some nonce → length nonce ≡ c.nonce_size)
    → IsInt64 t.normalizer.padding.max_pad
    → t.normalizer.padding.max_pad ≤ℤ pos room
    → length payload + 65536 + room < 2 ^ 32
    → t.cipher ≡ some c
    → active_cipher u (lookup from w.peers) ≡ ok c
    → (send hmac t m payload).written ≡ some frame
    → opened_packet u w from frame ≡ ok payload
unfolding opened_packet
opened_packet-send hmac t m payload frame from u w c room laws random nonces fits cap small same
      active h =
    let (s, (full, was_sealed, packed), was_framed) = send-written hmac t m payload frame h in
    let (nonce, drawn, body) =
      seal_payload-nonce c m.nonce payload s.body
        (subst (λ o. seal_payload o m.nonce payload ≡ ok s.body) same was_sealed) in
    let size = nonces nonce drawn in
    let long : length s.body ≡ length nonce + (length payload + c.overhead) =
      ap length body
      ∙ length-append nonce (c.seal nonce payload)
      ∙ ap (λ k. length nonce + k) (laws.length_seal nonce payload) in
    let small_laws = laws.small in
    let some_payload = nonempty payload full in
    let decoded =
      decode_frame-body t.normalizer m.random s.profile s.body s.normalized frame s.delay room
        random cap fits (omega arith) (omega arith) packed was_framed in
    let opened : open_frame c s.body ≡ ok payload =
      ap (λ b. open_frame c b) body ∙ open_frame-seal c nonce payload laws size in
    rw (decoded, active, opened) refl
