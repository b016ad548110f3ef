-- ===== src/Tunnel/Secure/Frames.antt =====
-- The stream that carries a list of chunks, each sealed under a nonce of its own.
use chameleon_protocol.Base.{◌+◌, ◌^◌, ◌≤◌, ◌<◌, ◌≡◌, [], ◌++◌, length, arith, ok, length-append}
use chameleon_protocol.Base.Bytes.{Bytes, put_uint32, uint32_at-put_uint32}
use chameleon_protocol.Crypto.{Aead, AeadLaws, open_frame-seal}
use chameleon_protocol.Io.Reading.{read_full-append, read_full-header}
use chameleon_protocol.Tunnel.Secure.{max_plain_frame, read_chunk, read_body}

module _ (a : Aead) where
  abbrev pub sealed : Bytes → Bytes → Bytes
  sealed nonce chunk = nonce ++ a.seal nonce chunk

  abbrev pub frame : Bytes → Bytes → Bytes
  frame nonce chunk = put_uint32 (length (sealed nonce chunk)) ++ sealed nonce chunk

  -- `Carries stream payload`: the stream is frames of chunks within the limit, which make up the
  -- payload.
  pub data Carries : Bytes → Bytes → Type 0 where
    ended : Carries [] []
    framed :
        (nonce chunk : Bytes) {stream payload : Bytes}
        → length nonce ≡ a.nonce_size
        → 0 < length chunk
        → length chunk ≤ max_plain_frame
        → Carries stream payload
        → Carries (frame nonce chunk ++ stream) (chunk ++ payload)

  pub length-sealed :
      (nonce chunk : Bytes)
      → AeadLaws a
      → length nonce ≡ a.nonce_size
      → length (sealed nonce chunk) ≡ a.nonce_size + length chunk + a.overhead
  length-sealed nonce chunk laws size =
      omega (arith, length-append nonce (a.seal nonce chunk), laws.length_seal nonce chunk)

  -- the body of a frame is read and opened
  read_body-sealed :
      (nonce chunk stream : Bytes)
      → AeadLaws a
      → length nonce ≡ a.nonce_size
      → 0 < length chunk
      → length chunk ≤ max_plain_frame
      → read_body a (length (sealed nonce chunk)) (sealed nonce chunk ++ stream)
        ≡ (ok chunk, stream)
  unfolding read_body
  read_body-sealed nonce chunk stream laws size ne le =
      let s = sealed nonce chunk in
      rw (read_full-append s stream) (
        rw (open_frame-seal a nonce chunk laws size)
          (ground (arith, laws.small, length-sealed nonce chunk laws size)))

  pub read_chunk-frame :
      (nonce chunk stream : Bytes)
      → AeadLaws a
      → length nonce ≡ a.nonce_size
      → 0 < length chunk
      → length chunk ≤ max_plain_frame
      → read_chunk a (frame nonce chunk ++ stream) ≡ (ok chunk, stream)
  unfolding read_chunk
  read_chunk-frame nonce chunk stream laws size ne le =
      let size_word = length (sealed nonce chunk) in
      let small : size_word < 2 ^ 32 =
        omega (arith, laws.small, length-sealed nonce chunk laws size) in
      rw (read_full-header _ _ _ _ (sealed nonce chunk ++ stream), read_chunk)
        (rw (uint32_at-put_uint32 size_word small)
          (read_body-sealed nonce chunk stream laws size ne le))
