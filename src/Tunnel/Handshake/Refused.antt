-- ===== src/Tunnel/Handshake/Refused.antt =====
-- Who is refused by Auth v2, and what a refused client can tell from the server's answers.
use chameleon_protocol.Base.{
  ◌≡◌, ◌≢◌, refl, sym, ◌∙◌, false, Bool, Option, none, some, Result, ok, err, >>=-ok,
}
use chameleon_protocol.Base.Int.{ℤ}
use chameleon_protocol.Base.Bytes.{Bytes}
use chameleon_protocol.Crypto.{Aead, open_frame}
use chameleon_protocol.Io.{IoError, Writer, write_full}
use chameleon_protocol.Tunnel.Registry.{ClientCredential, Registry, is_some, resolve}
use chameleon_protocol.Tunnel.Hello.{ClientHello, HelloError, authentic}
use chameleon_protocol.Tunnel.Handshake.{
  Start, read_start, read_proof, derive_v2_cipher, auth_info, check_proof, secret_of,
  after_challenge, challenge, greet, server_handshake_v2,
}

module _ (derive : Bytes → Bytes → Bytes → Aead) where
  check_proof-invalid :
      (secret server_nonce : Bytes) (start : Start) (p : ClientHello × Aead)
      → check_proof derive false secret start server_nonce ≢ ok p
  unfolding check_proof
  check_proof-invalid secret server_nonce start p h =
      let (encrypted, _, h1) = >>=-ok (read_proof start.rest) _ h in
      let (auth_cipher, _, h2) =
        >>=-ok (derive_v2_cipher derive secret start.client_nonce server_nonce (auth_info derive)) _
          h1 in
      let (plain, _, h3) = >>=-ok (authentic (open_frame auth_cipher encrypted)) _ h2 in cc (h3)

  module _ (parse_time : Bytes → Option ℤ) where
    after_challenge-invalid :
        (r : Option IoError × Writer) (secret server_nonce : Bytes) (start : Start)
        (p : ClientHello × Aead)
        → (after_challenge derive parse_time r false secret start server_nonce).0 ≢ ok p
    unfolding after_challenge
    after_challenge-invalid (some e, w) secret server_nonce start p h = cc
    after_challenge-invalid (none, w) secret server_nonce start p h =
        check_proof-invalid secret server_nonce start p h

    challenge-invalid :
        (secret server_nonce : Option Bytes) (start : Start) (w : Writer) (p : ClientHello × Aead)
        → (challenge derive parse_time secret server_nonce false start w).0 ≢ ok p
    unfolding challenge
    challenge-invalid none server_nonce start w p h = cc
    challenge-invalid (some secret) none start w p h = cc
    challenge-invalid (some secret) (some server_nonce) start w p h =
        after_challenge-invalid (write_full w server_nonce) secret server_nonce start p h

    -- Auth v2 never succeeds for a client id that the registry does not resolve at that time
    -- (unknown, disabled or expired), whatever the client sends and whatever secret it knows.
    pub server_handshake_v2-refuses :
        (stream : Bytes) (w : Writer) (registry : Registry) (now : ℤ)
        (fake server_nonce : Option Bytes) (start : Start) (p : ClientHello × Aead)
        → read_start stream ≡ ok start
        → resolve parse_time registry start.client_id now ≡ none
        → (server_handshake_v2 derive parse_time stream w registry now fake server_nonce).0 ≢ ok p
    unfolding server_handshake_v2
    server_handshake_v2-refuses stream w registry now fake server_nonce start p begun unknown =
        rw (begun, unknown)
          (challenge-invalid (secret_of derive parse_time none fake) server_nonce start w p)

    after_challenge-writer :
        (r : Option IoError × Writer) (valid : Bool) (secret server_nonce : Bytes) (start : Start)
        → (after_challenge derive parse_time r valid secret start server_nonce).1 ≡ r.1
    unfolding after_challenge
    after_challenge-writer (some e, w) valid secret server_nonce start = refl
    after_challenge-writer (none, w) valid secret server_nonce start = refl

    -- what the server has sent when it waits for the proof
    abbrev challenged : Option Bytes → Writer → Writer
    challenged none w = w
    challenged (some server_nonce) w = (write_full w server_nonce).1

    challenge-writer :
        (o : Option ClientCredential) (fake : Bytes) (server_nonce : Option Bytes) (valid : Bool)
        (start : Start) (w : Writer)
        → (challenge derive parse_time
            (secret_of derive parse_time o (some fake))
            server_nonce
            valid
            start
            w).1
          ≡ challenged server_nonce w
    unfolding challenge
    challenge-writer none fake none valid start w = refl
    challenge-writer (some c) fake none valid start w = refl
    challenge-writer none fake (some server_nonce) valid start w =
        after_challenge-writer (write_full w server_nonce) valid _ server_nonce start
    challenge-writer (some c) fake (some server_nonce) valid start w =
        after_challenge-writer (write_full w server_nonce) valid c.secret server_nonce start

    greet-writer :
        (r : Result HelloError Start) (registry other : Registry) (now : ℤ) (fake : Bytes)
        (server_nonce : Option Bytes) (w : Writer)
        → (greet derive parse_time r registry now (some fake) server_nonce w).1
          ≡ (greet derive parse_time r other now (some fake) server_nonce w).1
    unfolding greet
    greet-writer (err e) registry other now fake server_nonce w = refl
    greet-writer (ok start) registry other now fake server_nonce w =
        let mine = resolve parse_time registry start.client_id now in
        let theirs = resolve parse_time other start.client_id now in
        challenge-writer mine fake server_nonce (is_some mine) start w
        ∙ sym (challenge-writer theirs fake server_nonce (is_some theirs) start w)

    -- What the server sends is the same for any two registries, so a client that knows no secret
    -- cannot tell from it whether its id is registered. (The random bytes are there.)
    pub server_handshake_v2-same_challenge :
        (stream : Bytes) (w : Writer) (registry other : Registry) (now : ℤ) (fake : Bytes)
        (server_nonce : Option Bytes)
        → (server_handshake_v2 derive parse_time stream w registry now (some fake) server_nonce).1
          ≡ (server_handshake_v2 derive parse_time stream w other now (some fake) server_nonce).1
    unfolding server_handshake_v2
    server_handshake_v2-same_challenge stream w registry other now fake server_nonce =
        greet-writer (read_start stream) registry other now fake server_nonce w
