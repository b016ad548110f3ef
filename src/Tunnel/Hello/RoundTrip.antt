-- ===== src/Tunnel/Hello/RoundTrip.antt =====
-- The server reads the hello that the client built.
use mathlib.Core.List.{append_assoc}
use chameleon_protocol.Base.{
  ◌+◌, ◌%◌, ◌^◌, ◌<◌, ◌≤◌, ◌≡◌, sym, ap, ◌∙◌, true, false, if◌then◌else◌, [], ◌++◌, length, take,
  some, ok, arith, length-append, take-length_append,
}
use chameleon_protocol.Base.Int.{
  ℤ, pos, negsuc, leb_ℤ, to_word64, of_word64, IsInt64, wrap64, wrap64_exact,
}
use chameleon_protocol.Base.Bytes.{
  Bytes, is_empty, put_uint16, uint16_at-append, uint64_at-put_uint64, uint16_at-put_uint16,
}
use chameleon_protocol.Crypto.{Aead, AeadLaws, seal_frame, open_frame-seal}
use chameleon_protocol.Io.Reading.{read_full-append, read_full-exact}
use chameleon_protocol.Net.Text.{trim_space}
use chameleon_protocol.Tunnel.Destination.{validate_destination, validate_destination-length}
use chameleon_protocol.Tunnel.Replay.{unix_time, within_skew}
use chameleon_protocol.Tunnel.Hello.{
  ClientHello, nonce_size, max_hello_cipher, hello_version, default_skew, derive_cipher,
  hello_plain, build_client_hello, parse_hello, read_client_hello,
}

to_word64-lt : (z : ℤ) → to_word64 z < 2 ^ 64
to_word64-lt (pos n) = omega arith
to_word64-lt (negsuc n) = omega arith

of_word64-to_word64 : (z : ℤ) → IsInt64 z → of_word64 (to_word64 z) ≡ z
unfolding wrap64
of_word64-to_word64 z h = wrap64_exact z h

rejoin : (a b c d : Bytes) → (a ++ (b ++ c)) ++ d ≡ (a ++ b) ++ (c ++ d)
rejoin a b c d = simp append_assoc

module _ (derive : Bytes → Bytes → Bytes → Aead) where
  abbrev pub effective_skew : ℤ → ℤ
  effective_skew max_skew = if leb_ℤ max_skew (pos 0) then default_skew else max_skew

  abbrev pub hello_of : ℤ → Bytes → Bytes → ClientHello
  hello_of sent nonce dest = record {
    version = hello_version;
    timestamp = sent;
    nonce = nonce;
    destination = dest;
    client_id = [];
  }

  length-hello_plain :
      (sent : ℤ) (dest : Bytes) → length (hello_plain derive sent dest) ≡ 11 + length dest
  length-hello_plain sent dest = omega arith

  parse_hello-hello_plain :
      (nonce dest : Bytes) (sent now max_skew : ℤ)
      → IsInt64 sent
      → validate_destination dest ≡ ok tt
      → within_skew (effective_skew max_skew) now (unix_time sent) ≡ true
      → parse_hello derive nonce (hello_plain derive sent dest) now max_skew
        ≡ ok (hello_of sent nonce dest)
  unfolding parse_hello
  parse_hello-hello_plain nonce dest sent now max_skew range valid fresh =
      let (ne, le) = validate_destination-length dest valid in
      let low : length dest % 2 ^ 16 ≡ length dest = omega arith in
      rw
        (uint64_at-put_uint64 1 (to_word64 sent) (put_uint16 (length dest % 2 ^ 16) ++ dest)
          (to_word64-lt sent))
        (rw (of_word64-to_word64 sent range, low, uint16_at-put_uint16 (length dest) (omega arith))
          (ground arith))

  -- what build_client_hello has done when it succeeds
  build_client_hello-ok :
      (psk dest salt drawn buf nonce : Bytes) (sent : ℤ)
      → build_client_hello derive psk dest sent (some salt) (some drawn) ≡ ok (buf, nonce)
      → let encrypted =
          drawn ++ (derive_cipher derive psk salt).seal drawn (hello_plain derive sent dest) in
        (is_empty (trim_space psk) ≡ false)
        × (validate_destination dest ≡ ok tt)
        × (length encrypted ≤ max_hello_cipher)
        × (salt ++ (put_uint16 (length encrypted % 2 ^ 16) ++ encrypted) ≡ buf)
        × (salt ≡ nonce)
  unfolding build_client_hello seal_frame
  build_client_hello-ok psk dest salt drawn buf nonce sent h = ground arith

  -- the reading of a hello whose parts are as the client makes them
  read_client_hello-parts :
      (psk dest salt drawn rest : Bytes) (sent now max_skew : ℤ)
      → let a = derive_cipher derive psk salt in
        let encrypted = drawn ++ a.seal drawn (hello_plain derive sent dest) in
        AeadLaws a
        → length salt ≡ nonce_size
        → length drawn ≡ a.nonce_size
        → is_empty (trim_space psk) ≡ false
        → 0 < length encrypted
        → length encrypted ≤ max_hello_cipher
        → parse_hello derive salt (hello_plain derive sent dest) now max_skew
          ≡ ok (hello_of sent salt dest)
        → read_client_hello derive
            ((salt ++ put_uint16 (length encrypted)) ++ (encrypted ++ rest))
            psk
            now
            max_skew
          ≡ ok (hello_of sent salt dest, rest)
  unfolding read_client_hello
  read_client_hello-parts psk dest salt drawn rest sent now max_skew laws size drawn_size key ne
        small parsed =
      let a = derive_cipher derive psk salt in
      let plain = hello_plain derive sent dest in
      let encrypted = drawn ++ a.seal drawn plain in
      let size_word = put_uint16 (length encrypted) in
      let fixed =
        read_full-exact 34 (salt ++ size_word) (encrypted ++ rest)
          (omega (arith, length-append salt size_word)) in
      let front : take nonce_size (salt ++ size_word) ≡ salt =
        ap (λ n. take n (salt ++ size_word)) (sym size) ∙ take-length_append salt size_word in
      let word = uint16_at-append nonce_size salt size_word size in
      rw (fixed, key)
        (rw (front, word, uint16_at-put_uint16 (length encrypted) (omega arith))
          (rw (read_full-append encrypted rest, open_frame-seal a drawn plain laws drawn_size)
            (ground arith)))

  -- The server reads back the hello that the client built with the same key: version, timestamp,
  -- nonce and destination are the client's, and what follows on the stream is left. It needs the
  -- two clocks within the server's skew (its default, where the configured one is not positive),
  -- the client's clock in the range of an int64, nonces of the right sizes and a lawful AEAD.
  pub read_client_hello-build_client_hello :
      (psk dest salt drawn buf nonce rest : Bytes) (sent now max_skew : ℤ)
      → AeadLaws (derive_cipher derive psk salt)
      → length salt ≡ nonce_size
      → length drawn ≡ (derive_cipher derive psk salt).nonce_size
      → IsInt64 sent
      → within_skew (effective_skew max_skew) now (unix_time sent) ≡ true
      → build_client_hello derive psk dest sent (some salt) (some drawn) ≡ ok (buf, nonce)
      → read_client_hello derive (buf ++ rest) psk now max_skew
        ≡ ok (hello_of sent nonce dest, rest)
  read_client_hello-build_client_hello psk dest salt drawn buf nonce rest sent now max_skew laws
        size drawn_size range fresh built =
      let a = derive_cipher derive psk salt in
      let plain = hello_plain derive sent dest in
      let encrypted : Bytes = drawn ++ a.seal drawn plain in
      let (key, valid, small, shape, same) =
        build_client_hello-ok psk dest salt drawn buf nonce sent built in
      let low : length encrypted % 2 ^ 16 ≡ length encrypted = omega arith in
      let ne : 0 < length encrypted = omega (
        arith,
        length-append drawn (a.seal drawn plain),
        laws.length_seal drawn plain,
        length-hello_plain sent dest,
      ) in
      let read =
        read_client_hello-parts psk dest salt drawn rest sent now max_skew laws size drawn_size key
          ne small (parse_hello-hello_plain salt dest sent now max_skew range valid fresh) in
      let regroup : buf ++ rest ≡ (salt ++ put_uint16 (length encrypted)) ++ (encrypted ++ rest) =
        rw (← shape, low) (rejoin salt (put_uint16 (length encrypted)) encrypted rest) in
      rw (regroup, ← same) read
