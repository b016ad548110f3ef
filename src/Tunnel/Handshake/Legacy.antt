-- ===== src/Tunnel/Handshake/Legacy.antt =====
-- The v1 branch of authenticateConn, and the replay cache behind it.
use chameleon_protocol.Base.{
  ◌≡◌, refl, ap, ◌∙◌, true, false, if◌then◌else◌, Option, ok, err, ◌>>=◌, arith, >>=-ok, >>-ok,
  ok_injective, fail_if, ◌+◌, ltb, take, length,
}
use chameleon_protocol.Base.Int.{ℤ, pos, ◌<ℤ◌, leb_ℤ}
use chameleon_protocol.Base.Bytes.{Bytes, bytes_eq, is_empty, uint16_at}
use chameleon_protocol.Crypto.{Aead, open_frame}
use chameleon_protocol.Io.{Writer, read_full}
use chameleon_protocol.Net.Text.{trim_space}
use chameleon_protocol.Tunnel.Trim.{strings_trim}
use chameleon_protocol.Tunnel.Replay.{unix_time, within_skew, admit}
use chameleon_protocol.Tunnel.Hello.{
  ClientHello, replayed, derive_cipher, parse_hello, read_client_hello, from_io, authentic,
  empty_psk, nonce_size,
}
use chameleon_protocol.Tunnel.Handshake.{auth_v2_magic, ServerState, admit_hello, authenticate_conn}

module _ (derive : Bytes → Bytes → Bytes → Aead) where
  parse_hello-fresh :
      (nonce plain : Bytes) (now skew : ℤ) (hello : ClientHello)
      → pos 0 <ℤ skew
      → parse_hello derive nonce plain now skew ≡ ok hello
      → within_skew skew now (unix_time hello.timestamp) ≡ true
  unfolding parse_hello
  parse_hello-fresh nonce plain now skew hello positive h =
      let own : leb_ℤ skew (pos 0) ≡ false = ground arith in let h1 = rw own at h in ground arith

  read_client_hello-fresh :
      (stream psk rest : Bytes) (now skew : ℤ) (hello : ClientHello)
      → pos 0 <ℤ skew
      → read_client_hello derive stream psk now skew ≡ ok (hello, rest)
      → within_skew skew now (unix_time hello.timestamp) ≡ true
  unfolding read_client_hello
  read_client_hello-fresh stream psk rest now skew hello positive h =
      let (named, h1) = >>-ok (fail_if (is_empty (trim_space psk)) empty_psk) _ h in
      let (fixed, read1, h2) = >>=-ok (from_io (read_full (nonce_size + 2) stream)) _ h1 in
      let (sized, h3) = >>-ok _ _ h2 in
      let (body, read2, h4) =
        >>=-ok (from_io (read_full (uint16_at fixed.0 nonce_size) fixed.1)) _ h3 in
      let (plain, opened, h5) =
        >>=-ok (authentic (open_frame (derive_cipher derive psk (take nonce_size fixed.0)) body.0))
          (λ plain. parse_hello derive (take nonce_size fixed.0) plain now skew >>= λ hello.
            ok (hello, body.1))
          h4 in
      let (parsed, same, h6) =
        >>=-ok (parse_hello derive (take nonce_size fixed.0) plain now skew)
          (λ hello. ok (hello, body.1)) h5 in
      let this : parsed ≡ hello = ap (λ (p : ClientHello × Bytes). p.0) (ok_injective h6) in
      parse_hello-fresh (take nonce_size fixed.0) plain now skew hello positive (same ∙ ap ok this)

  -- The v1 branch of authenticateConn is the clock test and the replay cache: when the hello could be
  -- read under the server's key, the connection is admitted exactly if `admit` admits the hello, by
  -- its nonce and its timestamp, with the clock as it was read before the hello was and after that, and
  -- the cache is the one that `admit` leaves. The skew is positive, as NewServer makes it.
  pub authenticate_conn-admit :
      (parse_time : Bytes → Option ℤ) (stream rest : Bytes) (w : Writer) (now entered : ℤ)
      (fake server_nonce : Option Bytes) (s : ServerState derive parse_time) (hello : ClientHello)
      → ltb (length stream) 4 ≡ false
      → bytes_eq (take 4 stream) auth_v2_magic ≡ false
      → is_empty (strings_trim s.psk) ≡ false
      → pos 0 <ℤ s.max_clock_skew
      → read_client_hello derive stream s.psk now s.max_clock_skew ≡ ok (hello, rest)
      → let outcome =
          authenticate_conn derive parse_time stream w now entered fake server_nonce s in
        let decision =
          admit s.max_clock_skew hello.nonce (unix_time hello.timestamp) now entered s.seen in
        (outcome.0 ≡ (
          if decision.0 then ok (hello, derive_cipher derive s.psk hello.nonce) else err replayed))
        × (outcome.1.1.seen ≡ decision.1)
  unfolding authenticate_conn admit_hello admit
  authenticate_conn-admit parse_time stream rest w now entered fake server_nonce s hello long v1
        keyed positive h =
      let fresh = read_client_hello-fresh stream s.psk rest now s.max_clock_skew hello positive h in
      rw (long, v1, keyed, h, fresh) (refl, refl)
