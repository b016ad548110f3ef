-- ===== src/Transport/Delivery.antt =====
-- What Send of pkg/core/normalization.go hands to the connection.
use mathlib.Core.Path.{subst}
use mathlib.Core.List.{append-nil}
use chameleon_protocol.Base.{
  ℕ, ◌+◌, ◌^◌, ◌≤◌, ◌<◌, ◌≡◌, refl, sym, ap, ◌∙◌, arith, Bool, true, false, if◌then◌else◌, Option,
  none, some, [], length, take, Result, ok, err, >>=-ok, fail_if-ok, from_option, ok_injective,
  length-append, take-length_append,
}
use chameleon_protocol.Base.Int.{ℤ, pos, ◌≤ℤ◌, IsInt64}
use chameleon_protocol.Base.Bytes.{Bytes, is_empty}
use chameleon_protocol.Frame.{encode_frame, decode_frame}
use chameleon_protocol.Frame.RoundTrip.{decode_frame-encode_frame}
use chameleon_protocol.Morph.{Random, RandomLaws}
use chameleon_protocol.Transport.{
  Normalizer, Transport, SecurityContext, SendError, Moment, Shaped, shaping_error,
  normalize_packet, index_panic,
}
use chameleon_protocol.Transport.Shaping.{normalize_packet-pad}
use chameleon_protocol.Transport.Sending.{
  send, shaped, frame_payload, framing_fault, seal_payload, profile_name, after_framing,
  after_payment, after_advance, after_shaping, advanced,
}

taken : (b : Bool) (f frame : Bytes) → (if b then some f else none) ≡ some frame → f ≡ frame
taken true f frame e = cc
taken false f frame e = cc

module _ (hmac : Bytes → Bytes → Bytes) where
  after_framing-written :
      (t : Transport) (m : Moment) (payload frame : Bytes) (s : Shaped) (slept : ℤ)
      (r : Result SendError Bytes)
      → (after_framing hmac t m payload s slept r).written ≡ some frame
      → r ≡ ok frame
  after_framing-written t m payload frame s slept (err e) h = cc
  after_framing-written t m payload frame s slept (ok f) h = ap ok (taken m.taken f frame h)

  after_payment-written :
      (t : Transport) (m : Moment) (payload frame : Bytes) (s : Shaped) (slept : ℤ)
      (r : Option SendError × SecurityContext)
      → (after_payment hmac t m payload s slept r).written ≡ some frame
      → frame_payload s.profile s.normalized s.body ≡ ok frame
  after_payment-written t m payload frame s slept (some e, sec) h = cc
  after_payment-written t m payload frame s slept (none, sec) h =
      after_framing-written (record t { sec = sec }) m payload frame s slept _ h

  after_advance-written :
      (m : Moment) (payload frame : Bytes) (s : Shaped) (r : Option SendError × Transport)
      → (after_advance hmac m payload s r).written ≡ some frame
      → frame_payload s.profile s.normalized s.body ≡ ok frame
  after_advance-written m payload frame s (some e, t) h = cc
  after_advance-written m payload frame s (none, t) h =
      after_payment-written t m payload frame s _ _ h

  after_shaping-written :
      (t : Transport) (m : Moment) (payload frame : Bytes) (r : Result SendError Shaped)
      → (after_shaping hmac t m payload r).written ≡ some frame
      → (s : Shaped) × (r ≡ ok s) × (frame_payload s.profile s.normalized s.body ≡ ok frame)
  after_shaping-written t m payload frame (err e) h = cc
  after_shaping-written t m payload frame (ok s) h =
      (s, refl, after_advance-written m payload frame s (advanced hmac m s.profile t) h)

unframed : {frame : Bytes} (r : Result _ Bytes) → framing_fault r ≡ ok frame → r ≡ ok frame
unframed (ok a) h = cc
unframed (err e) h = cc

-- the parts of a successful shaping
shaping_error-ok : {A : Type 0} (r : Result _ A) {a : A} → shaping_error r ≡ ok a → r ≡ ok a
shaping_error-ok (ok a) h = cc
shaping_error-ok (err e) h = cc

-- The bytes that are shaped, behind the sealing, and the normalized bytes.
abbrev pub WasShaped : Transport → Moment → Bytes → Shaped → Type 0
WasShaped t m payload s =
    (is_empty payload ≡ false)
    × (seal_payload t.cipher m.nonce payload ≡ ok s.body)
    × (normalize_packet t.normalizer m.random s.body ≡ ok (s.normalized, s.delay))

module _ (hmac : Bytes → Bytes → Bytes) where
  shaped-WasShaped :
      (t : Transport) (m : Moment) (payload : Bytes) (s : Shaped)
      → shaped hmac t m payload ≡ ok s
      → WasShaped t m payload s
  unfolding shaped
  shaped-WasShaped t m payload s h =
      let (full, h1) = fail_if-ok (is_empty payload) _ _ h in
      let (profile, _, h2) = >>=-ok (from_option (profile_name hmac m t) index_panic) _ h1 in
      let (body, was_sealed, h3) = >>=-ok (seal_payload t.cipher m.nonce payload) _ h2 in
      let (packet, fine, h4) =
        >>=-ok (shaping_error (normalize_packet t.normalizer m.random body)) _ h3 in
      let e = ok_injective h4 in
      let same_body : body ≡ s.body = ap (λ (z : Shaped). z.body) e in
      (
        full,
        was_sealed ∙ ap ok same_body,
        subst (λ b. normalize_packet t.normalizer m.random b ≡ ok (s.normalized, s.delay)) same_body
            (shaping_error-ok _ fine ∙ ap (λ (z : Shaped). ok (z.normalized, z.delay)) e),
      )

  -- A packet that the connection took is the frame of a shaped payload.
  pub send-written :
      (t : Transport) (m : Moment) (payload frame : Bytes)
      → (send hmac t m payload).written ≡ some frame
      → (s : Shaped) × WasShaped t m payload s
        × (encode_frame s.profile s.normalized (pos (length s.body)) ≡ ok frame)
  unfolding send
  send-written t m payload frame h =
      let (s, was_shaped, was_framed) =
        after_shaping-written hmac t m payload frame (shaped hmac t m payload) h in
      (s, shaped-WasShaped t m payload s was_shaped, unframed _ was_framed)

-- The frame of a normalized body decodes to the body, if the padded length fits 32 bits.
pub decode_frame-body :
    (n : Normalizer) (r : Random) (profile body normalized frame : Bytes) (delay : ℤ) (room : ℕ)
    → RandomLaws r
    → n.padding.max_pad ≤ℤ pos room
    → IsInt64 n.padding.max_pad
    → 0 < length body
    → length body + room < 2 ^ 32
    → normalize_packet n r body ≡ ok (normalized, delay)
    → encode_frame profile normalized (pos (length body)) ≡ ok frame
    → decode_frame frame ≡ ok body
decode_frame-body n r profile body normalized frame delay room laws cap fits some_body small done
      e =
    let padded = normalize_packet-pad n r body normalized delay laws fits (omega arith) done in
    let size : length normalized ≡ length body + length padded.pad =
      ap length padded.appended ∙ length-append body padded.pad in
    let high : length padded.pad ≤ room = omega (arith, padded.at_most, cap) in
    let round =
      decode_frame-encode_frame profile normalized [] (length body) some_body (omega arith)
        (omega arith) in
    ap decode_frame (sym (append-nil frame))
    ∙ rw e at round
    ∙ ap ok (ap (λ b. take (length body) b) padded.appended ∙ take-length_append body padded.pad)
