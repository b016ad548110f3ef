-- ===== src/Socks/Request.antt =====
-- The greeting and the request of pkg/socks5: clientHandshake of client.go writes them, server.go reads
-- them.
use mathlib.Core.List.{append_assoc}
use chameleon_protocol.Base.{
  ℕ, ◌%◌, ◌<◌, ◌≡◌, refl, sym, ap, ◌∙◌, arith, not, Bool, true, false, ◌||◌, ◌==◌, if◌then◌else◌,
  Option, none, some, [], ◌∷◌, ◌++◌, length, get_or, ltb, Result, ok, err, ◌>>=◌, ◌>>◌, fail_if,
  >>=-ok, fail_if-ok, ok_injective,
}
use chameleon_protocol.Base.Bytes.{
  Bytes, is_empty, bytes_eq, put_uint16, uint16_at, uint16_at-put_uint16,
}
use chameleon_protocol.Io.{IoError, read_full}
use chameleon_protocol.Io.Reading.{read_full-exact, read_full-header}
use chameleon_protocol.Net.Number.{atoi, itoa_uint16}
use chameleon_protocol.Net.HostPort.{split_host_port, join_host_port}
use chameleon_protocol.Socks.{
  Ip, v4, v6, IpText, IpTextLaws, SocksError, or_io, or_split, port_of, encode_host, encode_address,
  read_address, bad_version, no_method, bad_request, rejected, bad_domain_length,
}
use chameleon_protocol.Socks.Datagram.{shown_host, domain_guard, port_of-ok, or_split-ok}

abbrev pub client_greeting : Bytes
client_greeting = 5 ∷ 1 ∷ 0 ∷ []

-- The loop over the methods.
unfoldable pub offers_no_auth : Bytes → Bool
offers_no_auth [] = false
offers_no_auth (m ∷ ms) = m == 0 || offers_no_auth ms

abbrev pub method_reply : Bool → Bytes
method_reply true = 5 ∷ 0 ∷ []
method_reply false = 5 ∷ 255 ∷ []

-- serverGreeting, to a writer that takes everything: what it writes, and what is left of the stream.
abbrev pub chosen : Bytes → Bytes → (Result SocksError Bytes × Bytes)
chosen methods rest = (
  (if offers_no_auth methods then ok rest else err no_method),
  method_reply (offers_no_auth methods),
)

abbrev pub greet_methods : Result IoError (Bytes × Bytes) → (Result SocksError Bytes × Bytes)
greet_methods (err e) = (err (SocksError.io e), [])
greet_methods (ok (methods, rest)) = chosen methods rest

abbrev pub greet_header : Result IoError (Bytes × Bytes) → (Result SocksError Bytes × Bytes)
greet_header (err e) = (err (SocksError.io e), [])
greet_header (ok (header, s1)) =
    if not (get_or header 0 0 == 5)
    then (err (bad_version (get_or header 0 0)), [])
    else greet_methods (read_full (get_or header 1 0) s1)

unfoldable pub server_greeting : Bytes → (Result SocksError Bytes × Bytes)
server_greeting stream = greet_header (read_full 2 stream)

-- The client's test of the answer.
unfoldable pub check_greeting : Bytes → Result SocksError Bytes
check_greeting stream = do
  (greeting, rest) ← or_io (read_full 2 stream)
  fail_if (not (bytes_eq greeting (5 ∷ 0 ∷ []))) rejected
  ok rest

module _ (t : IpText) where
  -- The request that the client writes.
  unfoldable pub client_request : Bytes → Result SocksError Bytes
  unfolding encode_address
  client_request destination = do
    (host, port_text) ← or_split (split_host_port destination)
    port ← port_of (atoi port_text)
    address ← encode_address t host
    ok (5 ∷ 1 ∷ 0 ∷ (address ++ put_uint16 port))

  -- readRequestDetails: the command, the destination, and the rest of the stream.
  unfoldable pub read_request_details : Bytes → Result SocksError (ℕ × Bytes × Bytes)
  unfolding read_address
  read_request_details stream = do
    (header, s1) ← or_io (read_full 4 stream)
    fail_if (not (get_or header 0 0 == 5) || not (get_or header 2 0 == 0)) bad_request
    (host, s2) ← read_address t (get_or header 3 0) s1
    (port, rest) ← or_io (read_full 2 s2)
    ok (get_or header 1 0, join_host_port host (itoa_uint16 (uint16_at port 0)), rest)

module _ (t : IpText) where
  read_address-encode_host :
      (host address : Bytes) (o : Option Ip)
      → IpTextLaws t
      → t.parse_ip host ≡ o
      → encode_host t host o ≡ ok address
      → (kind : ℕ) × (body : Bytes) × (address ≡ kind ∷ body)
        × ((rest : Bytes) → read_address t kind (body ++ rest) ≡ ok (shown_host t o host, rest))
  unfolding read_address
  read_address-encode_host host address (some (v4 b)) laws e h = (
    1,
    b,
    sym (ok_injective h),
    λ rest. (let r = read_full-exact 4 b rest (laws.v4_size host b e) in rw r refl),
  )
  read_address-encode_host host address (some (v6 b)) laws e h = (
    4,
    b,
    sym (ok_injective h),
    λ rest. (let r = read_full-exact 16 b rest (laws.v6_size host b e) in rw r refl),
  )
  read_address-encode_host host address none laws e h =
      let (fits, h1) = fail_if-ok (is_empty host || ltb 255 (length host)) bad_domain_length _ h in
      let (some_host, small) = domain_guard host fits in
      let low : length host % 256 ≡ length host = omega arith in
      let size : (length host == 0) ≡ false = ground arith in
      (
        3,
        length host ∷ host,
        sym (ok_injective (rw low at h1)),
        λ rest.
            rw
              (
                read_full-exact 1 (length host ∷ []) (host ++ rest) refl,
                size,
                read_full-exact (length host) host rest refl,
              )
              refl,
      )

  read-parts :
      (host body more : Bytes) (kind port : ℕ)
      → port < 65536
      → ((rest : Bytes) → read_address t kind (body ++ rest) ≡ ok (host, rest))
      → read_request_details t (5 ∷ 1 ∷ 0 ∷ (((kind ∷ body) ++ put_uint16 port) ++ more))
        ≡ ok (1, join_host_port host (itoa_uint16 port), more)
  unfolding read_request_details
  read-parts host body more kind port high reads =
      let number = uint16_at-put_uint16 port high in
      rw
        (
          append_assoc body (put_uint16 port) more,
          read_full-header 5 1 0 kind (body ++ (put_uint16 port ++ more)),
          reads (put_uint16 port ++ more),
          read_full-exact 2 (put_uint16 port) more refl,
          number,
        )
        refl

  -- The request that the client writes for a destination is read by the server as a CONNECT to the
  -- host and the port of the destination, an IP address in the text that String gives it; the bytes
  -- behind the request are left on the stream.
  pub read_request_details-client_request :
      (destination request more : Bytes)
      → IpTextLaws t
      → client_request t destination ≡ ok request
      → (host : Bytes) × (port_text : Bytes) × (port : ℕ) × (split_host_port destination
          ≡ ok (host, port_text))
        × (port_of (atoi port_text) ≡ ok port)
        × (read_request_details t (request ++ more)
            ≡ ok (1, join_host_port (shown_host t (t.parse_ip host) host) (itoa_uint16 port), more))
  unfolding client_request encode_address
  read_request_details-client_request destination request more laws h =
      let (parts, split, h1) = >>=-ok (or_split (split_host_port destination)) _ h in
      let (port, number, h2) = >>=-ok (port_of (atoi parts.1)) _ h1 in
      let (address, encoded, h3) = >>=-ok (encode_host t parts.0 (t.parse_ip parts.0)) _ h2 in
      let (low, high) = port_of-ok (atoi parts.1) port number in
      let (kind, body, e, reads) =
        read_address-encode_host parts.0 address (t.parse_ip parts.0) laws refl encoded in
      (
        parts.0,
        parts.1,
        port,
        or_split-ok (split_host_port destination) split,
        number,
        ap (λ r. read_request_details t (r ++ more))
              (sym (ok_injective h3) ∙ ap (λ w. 5 ∷ 1 ∷ 0 ∷ (w ++ put_uint16 port)) e)
            ∙ read-parts (shown_host t (t.parse_ip parts.0) parts.0) body more kind port high reads,
      )

check_greeting-method_reply :
    (b : Bool) (later : Bytes)
    → check_greeting (method_reply b ++ later) ≡ (if b then ok later else err rejected)
unfolding check_greeting
check_greeting-method_reply true later = rw (read_full-exact 2 (5 ∷ 0 ∷ []) later refl) refl
check_greeting-method_reply false later = rw (read_full-exact 2 (5 ∷ 255 ∷ []) later refl) refl

-- Whatever the client offers, the server answers with method 0 or refuses, and the client goes on
-- exactly when the server does: when method 0 is among those that were offered.
pub check_greeting-server_greeting :
    (methods rest later : Bytes)
    → length methods < 256
    → (server_greeting (5 ∷ length methods ∷ (methods ++ rest))).0
        ≡ (if offers_no_auth methods then ok rest else err no_method)
      × (check_greeting ((server_greeting (5 ∷ length methods ∷ (methods ++ rest))).1 ++ later)
          ≡ (if offers_no_auth methods then ok later else err rejected))
unfolding server_greeting
check_greeting-server_greeting methods rest later small =
    let header = read_full-exact 2 (5 ∷ length methods ∷ []) (methods ++ rest) refl in
    let offered = read_full-exact (length methods) methods rest refl in
    rw (header, offered) (refl, check_greeting-method_reply (offers_no_auth methods) later)
