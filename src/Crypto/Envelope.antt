-- ===== src/Crypto/Envelope.antt =====
-- pkg/crypto/identity.go: the identity envelope, a JSON body and its HMAC-SHA256 tag in base64. JSON
-- of the two fields is a parameter.
use chameleon_protocol.Base.{
  ◌-◌, ◌<◌, ◌≡◌, refl, sym, ap, ◌∙◌, arith, Bool, false, not, ◌==◌, ◌||◌, leb, if◌then◌else◌,
  Option, some, ◌++◌, length, take, drop, get_or, Result, ok, err, ◌>>=◌, ◌>>◌, fail_if,
  from_option, inl, inr, fail_if-ok, >>=-ok, from_option-ok, ok_injective, Bool-cases,
  length-append, take-length_append, drop-length_append,
}
use chameleon_protocol.Base.Bytes.{Bytes, is_empty, bytes_eq, bytes_eq_refl, bytes_eq→eq}
use chameleon_protocol.Crypto.Peer.{Primitives}

pub data EnvelopeError : Type 0 where
  identity_empty psk_empty encoded_empty bad_encoding envelope_short : EnvelopeError
  not_authentic bad_body : EnvelopeError

pub record Json : Type 0 where
  pub marshal : Bytes → Bytes → Bytes
  pub unmarshal : Bytes → Option (Bytes × Bytes)

module _ (p : Primitives) (j : Json) where
  unfoldable pub wrap_identity_payload : Bytes → Bytes → Bytes → Result EnvelopeError Bytes
  wrap_identity_payload identity psk payload = do
    fail_if (is_empty identity) identity_empty
    fail_if (is_empty psk) psk_empty
    let body = j.marshal identity payload
    ok (p.encode64 (body ++ p.hmac psk body))

  unfoldable pub valid_identity_tag : Bytes → Bytes → Bytes → Bool
  valid_identity_tag body tag psk = bytes_eq (p.hmac psk body) tag

  -- The body that the tag vouches for: the short-lived legacy format puts a dot behind it.
  unfoldable pub authentic_body : Bytes → Bytes → Bytes → Result EnvelopeError Bytes
  unfolding valid_identity_tag
  authentic_body body tag psk =
      let front = take (length body - 1) body in
      if valid_identity_tag body tag psk
      then ok body
      else if is_empty body || not (get_or body (length body - 1) 0 == b'.')
      then err not_authentic
      else if not (valid_identity_tag front tag psk)
      then err not_authentic
      else ok front

  abbrev pub opened_body : Bytes → Result EnvelopeError (Bytes × Bytes)
  opened_body body = do
    fields ← from_option (j.unmarshal body) bad_body
    fail_if (is_empty fields.0) identity_empty
    ok fields

  unfoldable pub parse_identity_payload : Bytes → Bytes → Result EnvelopeError (Bytes × Bytes)
  unfolding authentic_body
  parse_identity_payload encoded psk = do
    fail_if (is_empty encoded) encoded_empty
    fail_if (is_empty psk) psk_empty
    decoded ← from_option (p.decode64 encoded) bad_encoding
    fail_if (leb (length decoded) 32) envelope_short
    body ←
        authentic_body (take (length decoded - 32) decoded) (drop (length decoded - 32) decoded) psk
    opened_body body

  authentic_body-valid :
      (body tag psk found : Bytes) → authentic_body body tag psk ≡ ok found → p.hmac psk found ≡ tag
  unfolding authentic_body valid_identity_tag
  authentic_body-valid body tag psk found h =
      let front = take (length body - 1) body in
      elim (Bool-cases (bytes_eq (p.hmac psk body) tag)) [
        | inl whole ↦
            let same : body ≡ found = ok_injective (rw whole at h) in
            ap (λ b. p.hmac psk b) (sym same) ∙ bytes_eq→eq (p.hmac psk body) tag whole
        | inr other ↦
            elim (Bool-cases (is_empty body || not (get_or body (length body - 1) 0 == b'.'))) [
              | inl none_left ↦ let stopped = rw (other, none_left) at h in cc
              | inr dotted ↦ elim (Bool-cases (bytes_eq (p.hmac psk front) tag)) [
                | inl legacy ↦
                    let same : front ≡ found = ok_injective (rw (other, dotted, legacy) at h) in
                    ap (λ b. p.hmac psk b) (sym same) ∙ bytes_eq→eq (p.hmac psk front) tag legacy
                | inr bad ↦ let stopped = rw (other, dotted, bad) at h in cc
              ]
            ]
      ]

  -- An envelope is accepted only if its tag, the last 32 bytes, is the HMAC of a body under the shared
  -- secret, and identity and payload are what that body says; the identity is not empty.
  pub parse_identity_payload-authentic :
      (encoded psk identity payload : Bytes)
      → parse_identity_payload encoded psk ≡ ok (identity, payload)
      → (decoded : Bytes) × (body : Bytes) × (p.decode64 encoded ≡ some decoded)
        × (p.hmac psk body ≡ drop (length decoded - 32) decoded)
        × (j.unmarshal body ≡ some (identity, payload))
        × (is_empty identity ≡ false)
  unfolding parse_identity_payload
  parse_identity_payload-authentic encoded psk identity payload h =
      let (_, h1) = fail_if-ok (is_empty encoded) _ _ h in
      let (_, h2) = fail_if-ok (is_empty psk) _ _ h1 in
      let (decoded, e, h3) = >>=-ok (from_option (p.decode64 encoded) bad_encoding) _ h2 in
      let (_, h4) = fail_if-ok (leb (length decoded) 32) _ _ h3 in
      let tag = drop (length decoded - 32) decoded in
      let (body, good, h5) =
        >>=-ok (authentic_body (take (length decoded - 32) decoded) tag psk) opened_body h4 in
      let (fields, read, h6) = >>=-ok (from_option (j.unmarshal body) bad_body) _ h5 in
      let (named, h7) = fail_if-ok (is_empty fields.0) identity_empty (ok fields) h6 in
      let same : fields ≡ (identity, payload) = ok_injective h7 in
      (
        decoded,
        body,
        from_option-ok (p.decode64 encoded) bad_encoding e,
        authentic_body-valid (take (length decoded - 32) decoded) tag psk body good,
        from_option-ok (j.unmarshal body) bad_body read ∙ ap some same,
        ap (λ f. is_empty f.0) (sym same) ∙ named,
      )

-- The laws of the documentation: the tag has 32 bytes; base64 and JSON read what they wrote, and what
-- base64 writes of a text with bytes is not empty.
pub record EnvelopeLaws (p : Primitives) (j : Json) : Type 0 where
  pub tag_size : (key msg : Bytes) → length (p.hmac key msg) ≡ 32
  pub decode_encode : (bytes : Bytes) → p.decode64 (p.encode64 bytes) ≡ some bytes
  pub encode_some : (bytes : Bytes) → 0 < length bytes → is_empty (p.encode64 bytes) ≡ false
  pub unmarshal_marshal :
      (id payload : Bytes) → j.unmarshal (j.marshal id payload) ≡ some (id, payload)
  pub marshal_some : (id payload : Bytes) → 0 < length (j.marshal id payload)

module _ (p : Primitives) (j : Json) where
  -- An envelope of a non-empty identity under a non-empty secret parses, under the same secret, to
  -- the identity and the payload.
  pub parse_identity_payload-wrap :
      (identity psk payload : Bytes)
      → EnvelopeLaws p j
      → is_empty identity ≡ false
      → is_empty psk ≡ false
      → (wrap_identity_payload p j identity psk payload >>= λ encoded.
          parse_identity_payload p j encoded psk)
        ≡ ok (identity, payload)
  unfolding wrap_identity_payload parse_identity_payload authentic_body valid_identity_tag
  parse_identity_payload-wrap identity psk payload laws hi hp =
      let body = j.marshal identity payload in
      let tag = p.hmac psk body in
      let size = laws.tag_size psk body in
      let total = length-append body tag in
      let some_body = laws.marshal_some identity payload in
      let rest : length (body ++ tag) - 32 ≡ length body = omega arith in
      let long : leb (length (body ++ tag)) 32 ≡ false = ground arith in
      rw
        (
          hi,
          hp,
          laws.encode_some (body ++ tag) (omega arith),
          laws.decode_encode (body ++ tag),
          long,
          rest,
          take-length_append body tag,
          drop-length_append body tag,
          bytes_eq_refl tag,
          laws.unmarshal_marshal identity payload,
          hi,
        )
        refl
