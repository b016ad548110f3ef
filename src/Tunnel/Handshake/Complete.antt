-- ===== src/Tunnel/Handshake/Complete.antt =====
-- A registered client that follows the protocol is let in, with one session key on both sides.
use mathlib.Core.List.{append_assoc}
use chameleon_protocol.Base.{
  ◌%◌, ◌^◌, ◌<◌, ◌≤◌, ◌≡◌, refl, ap, true, ◌++◌, length, Option, none, some, ok, ◌>>=◌, arith, ltb,
  fail_if, ◌>>◌, length-append, >>=-ok,
}
use chameleon_protocol.Base.Int.{ℤ, pos}
use chameleon_protocol.Base.Bytes.{Bytes, put_uint16, uint16_at-put_uint16}
use chameleon_protocol.Crypto.{Aead, AeadLaws, seal_frame, open_frame-seal}
use chameleon_protocol.Io.{IoError, Writer, write_full}
use chameleon_protocol.Io.Reading.{read_full-append, read_full-exact}
use chameleon_protocol.Tunnel.Destination.{validate_destination, validate_destination-length}
use chameleon_protocol.Tunnel.Registry.{ClientCredential, Registry, resolve, validate_client_secret}
use chameleon_protocol.Tunnel.Hello.{
  ClientHello, nonce_size, max_hello_cipher, from_cipher, too_large,
}
use chameleon_protocol.Tunnel.Handshake.{
  auth_v2_magic, auth_v2_version, max_client_id_len, read_start, read_proof, derive_v2_cipher,
  auth_info, session_info, client_start, client_proof, proof_plain, parse_proof, check_proof,
  after_challenge, challenge, greet, server_handshake_v2,
}

pair_of : (p : Option IoError × Writer) → p.0 ≡ none → p ≡ (none, p.1)
pair_of (o, w) h = ap (λ z. (z, w)) h

-- the server reads the client's first message, and leaves the rest
read_start-parts :
    (id client_nonce rest : Bytes)
    → 8 ≤ length id
    → length id ≤ max_client_id_len
    → length client_nonce ≡ nonce_size
    → read_start (auth_v2_magic ++ (put_uint16 (length id) ++ (id ++ (client_nonce ++ rest))))
      ≡ ok (record { client_id = id; client_nonce = client_nonce; rest = rest })
unfolding read_start
read_start-parts id client_nonce rest lo hi size =
    let s2 = id ++ (client_nonce ++ rest) in
    let s1 = put_uint16 (length id) ++ s2 in
    rw (read_full-append auth_v2_magic s1) (
      rw
        (
          read_full-append (put_uint16 (length id)) s2,
          uint16_at-put_uint16 (length id) (omega arith),
        )
        (rw (read_full-append id (client_nonce ++ rest), read_full-exact 32 client_nonce rest size)
          (ground arith)))

read_proof-parts :
    (encrypted rest : Bytes)
    → 0 < length encrypted
    → length encrypted ≤ max_hello_cipher
    → read_proof (put_uint16 (length encrypted) ++ (encrypted ++ rest)) ≡ ok encrypted
unfolding read_proof
read_proof-parts encrypted rest ne small =
    rw
      (
        read_full-append (put_uint16 (length encrypted)) (encrypted ++ rest),
        uint16_at-put_uint16 (length encrypted) (omega arith),
      )
      (rw (read_full-append encrypted rest) (ground arith))

module _ (derive : Bytes → Bytes → Bytes → Aead) where
  abbrev auth_cipher : Bytes → Bytes → Bytes → Aead
  auth_cipher secret client_nonce server_nonce =
      derive secret (client_nonce ++ server_nonce) (auth_info derive)

  abbrev pub hello_v2 : Bytes → Bytes → Bytes → ClientHello
  hello_v2 id client_nonce dest = record {
    version = auth_v2_version;
    timestamp = pos 0;
    nonce = client_nonce;
    destination = dest;
    client_id = id;
  }

  parse_proof-proof_plain :
      (dest : Bytes)
      → validate_destination dest ≡ ok tt
      → parse_proof derive (proof_plain derive dest) ≡ ok dest
  unfolding parse_proof
  parse_proof-proof_plain dest valid =
      let (ne, le) = validate_destination-length dest valid in
      let low : length dest % 2 ^ 16 ≡ length dest = omega arith in
      rw (low, uint16_at-put_uint16 (length dest) (omega arith)) (ground arith)

  derive_v2_cipher-valid :
      (secret client_nonce server_nonce info : Bytes)
      → validate_client_secret secret ≡ ok tt
      → derive_v2_cipher derive secret client_nonce server_nonce info
        ≡ ok (derive secret (client_nonce ++ server_nonce) info)
  unfolding derive_v2_cipher
  derive_v2_cipher-valid secret client_nonce server_nonce info valid = ground arith

  derive_v2_cipher-ok :
      (secret client_nonce server_nonce info : Bytes) (a : Aead)
      → derive_v2_cipher derive secret client_nonce server_nonce info ≡ ok a
      → (validate_client_secret secret ≡ ok tt)
        × (derive secret (client_nonce ++ server_nonce) info ≡ a)
  unfolding derive_v2_cipher
  derive_v2_cipher-ok secret client_nonce server_nonce info a h = ground arith

  sealed_proof :
      (a : Aead) (drawn plain proof : Bytes)
      → (do
        encrypted ← from_cipher (seal_frame a (some drawn) plain)
        fail_if (ltb max_hello_cipher (length encrypted)) too_large
        ok (put_uint16 (length encrypted % 2 ^ 16) ++ encrypted))
        ≡ ok proof
      → (length (drawn ++ a.seal drawn plain) ≤ max_hello_cipher)
        × (put_uint16 (length (drawn ++ a.seal drawn plain) % 2 ^ 16)
              ++ (drawn ++ a.seal drawn plain)
            ≡ proof)
  unfolding seal_frame
  sealed_proof a drawn plain proof h = ground arith

  -- what client_proof has done when it succeeds
  client_proof-ok :
      (secret client_nonce server_nonce dest drawn proof : Bytes)
      → client_proof derive secret client_nonce server_nonce dest (some drawn) ≡ ok proof
      → let a = auth_cipher secret client_nonce server_nonce in
        let encrypted = drawn ++ a.seal drawn (proof_plain derive dest) in
        (validate_client_secret secret ≡ ok tt)
        × (length encrypted ≤ max_hello_cipher)
        × (put_uint16 (length encrypted % 2 ^ 16) ++ encrypted ≡ proof)
  unfolding client_proof
  client_proof-ok secret client_nonce server_nonce dest drawn proof h =
      let (a, derived, h1) =
        >>=-ok (derive_v2_cipher derive secret client_nonce server_nonce (auth_info derive)) _ h in
      let (valid, same) =
        derive_v2_cipher-ok secret client_nonce server_nonce (auth_info derive) a derived in
      let (small, shape) = sealed_proof a drawn (proof_plain derive dest) proof h1 in
      (valid, rw same small, rw same shape)

  check_proof-client_proof :
      (secret client_nonce server_nonce dest drawn proof id rest : Bytes)
      → let a = auth_cipher secret client_nonce server_nonce in
        AeadLaws a
        → length drawn ≡ a.nonce_size
        → validate_destination dest ≡ ok tt
        → client_proof derive secret client_nonce server_nonce dest (some drawn) ≡ ok proof
        → check_proof derive true secret
            (record { client_id = id; client_nonce = client_nonce; rest = proof ++ rest })
            server_nonce
          ≡ ok (
            hello_v2 id client_nonce dest,
            derive secret (client_nonce ++ server_nonce) (session_info derive),
          )
  unfolding check_proof
  check_proof-client_proof secret client_nonce server_nonce dest drawn proof id rest laws size
        valid_dest proved =
      let a = auth_cipher secret client_nonce server_nonce in
      let plain = proof_plain derive dest in
      let encrypted : Bytes = drawn ++ a.seal drawn plain in
      let (valid, small, shape) =
        client_proof-ok secret client_nonce server_nonce dest drawn proof proved in
      let low : length encrypted % 2 ^ 16 ≡ length encrypted = omega arith in
      let ne : 0 < length encrypted =
        omega (arith, length-append drawn (a.seal drawn plain), laws.length_seal drawn plain) in
      let regroup : proof ++ rest ≡ put_uint16 (length encrypted) ++ (encrypted ++ rest) =
        rw (← shape, low) (append_assoc (put_uint16 (length encrypted)) encrypted rest) in
      rw
        (
          regroup,
          read_proof-parts encrypted rest ne small,
          derive_v2_cipher-valid secret client_nonce server_nonce (auth_info derive) valid,
        )
        (rw (open_frame-seal a drawn plain laws size) (
          rw (parse_proof-proof_plain dest valid_dest) (
            rw (derive_v2_cipher-valid secret client_nonce server_nonce (session_info derive) valid)
              (ground arith))))

  module _ (parse_time : Bytes → Option ℤ) where
    -- A registered client that follows Auth v2 is let in: when its id is in the registry and its
    -- credential can be used, when its proof is made with that secret for a valid destination and
    -- the challenge could be written, the server names the id and the destination of the client, and
    -- holds the session cipher that the client derives itself. Its id has 8 to
    -- 128 bytes and its first nonce 32; the cipher is a lawful one, and the client's proof is sealed
    -- under a nonce of the cipher's size.
    pub server_handshake_v2-client :
        (id client_nonce server_nonce dest drawn proof rest : Bytes) (w : Writer)
        (registry : Registry) (now : ℤ) (fake : Option Bytes) (c : ClientCredential)
        → let a = auth_cipher c.secret client_nonce server_nonce in
          AeadLaws a
          → length drawn ≡ a.nonce_size
          → 8 ≤ length id
          → length id ≤ max_client_id_len
          → length client_nonce ≡ nonce_size
          → validate_destination dest ≡ ok tt
          → resolve parse_time registry id now ≡ some c
          → client_proof derive c.secret client_nonce server_nonce dest (some drawn) ≡ ok proof
          → (write_full w server_nonce).0 ≡ none
          → server_handshake_v2 derive parse_time
              (client_start derive id client_nonce ++ (proof ++ rest))
              w
              registry
              now
              fake
              (some server_nonce)
            ≡ (
              ok (
                hello_v2 id client_nonce dest,
                derive c.secret (client_nonce ++ server_nonce) (session_info derive),
              ),
              (write_full w server_nonce).1,
            )
    unfolding server_handshake_v2 greet challenge after_challenge client_start
    server_handshake_v2-client id client_nonce server_nonce dest drawn proof rest w registry now
          fake c laws size lo hi nonce valid found proved sent =
        let low : length id % 2 ^ 16 ≡ length id = omega arith in
        let stream =
          auth_v2_magic ++ (put_uint16 (length id) ++ (id ++ (client_nonce ++ (proof ++ rest)))) in
        let regroup : client_start derive id client_nonce ++ (proof ++ rest) ≡ stream =
          rw low (simp append_assoc) in
        rw (regroup, read_start-parts id client_nonce (proof ++ rest) lo hi nonce, found)
          (rw (pair_of (write_full w server_nonce) sent) (
            rw
              (check_proof-client_proof c.secret client_nonce server_nonce dest drawn proof id rest
                laws size valid proved)
              refl))
