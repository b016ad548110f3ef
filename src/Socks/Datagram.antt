-- ===== src/Socks/Datagram.antt =====
-- UDP datagrams of pkg/socks5/udp.go: what buildUDPDatagram writes parseUDPDatagram reads.
use mathlib.Core.Path.{subst}
use chameleon_protocol.Base.{
  ℕ, suc, ◌+◌, ◌%◌, ◌≤◌, ◌<◌, ◌≡◌, refl, sym, ap, ◌∙◌, arith, false, ◌||◌, ◌==◌, ltb, Option, none,
  some, [], ◌∷◌, ◌++◌, length, take, Result, ok, err, >>=-ok, fail_if-ok, ok_injective,
  length-append, take-length_append, drop-length_append,
}
use chameleon_protocol.Base.Int.{ℤ, pos, negsuc}
use chameleon_protocol.Base.Bytes.{Bytes, is_empty, put_uint16, uint16_at-put_uint16}
use chameleon_protocol.Net.Number.{atoi, itoa_uint16}
use chameleon_protocol.Net.HostPort.{AddrError, split_host_port, join_host_port}
use chameleon_protocol.Socks.{
  Ip, v4, v6, IpText, IpTextLaws, or_split, port_of, encode_host, encode_address,
  parse_address_bytes, parse_udp_datagram, build_udp_datagram, bad_domain_length,
}

-- How the other side shows a host: an address in its canonical text, a name as it is.
abbrev pub shown_host : IpText → Option Ip → Bytes → Bytes
shown_host t none host = host
shown_host t (some (v4 b)) host = t.ip_string b
shown_host t (some (v6 b)) host = t.ip_string b

pub front : (n : ℕ) (b rest : Bytes) → length b ≡ n → take n (b ++ rest) ≡ b
front n b rest h = subst (λ k. take k (b ++ rest) ≡ b) h (take-length_append b rest)

parse-v4 :
    (t : IpText) (b rest : Bytes)
    → length b ≡ 4
    → parse_address_bytes t (1 ∷ (b ++ rest)) ≡ ok (t.ip_string b, suc (length b))
unfolding parse_address_bytes
parse-v4 t b rest size =
    let long : ltb (length (b ++ rest)) 4 ≡ false = ground (arith, length-append b rest) in
    rw (long, front 4 b rest size, size) refl

parse-v6 :
    (t : IpText) (b rest : Bytes)
    → length b ≡ 16
    → parse_address_bytes t (4 ∷ (b ++ rest)) ≡ ok (t.ip_string b, suc (length b))
unfolding parse_address_bytes
parse-v6 t b rest size =
    let long : ltb (length (b ++ rest)) 16 ≡ false = ground (arith, length-append b rest) in
    rw (long, front 16 b rest size, size) refl

parse-domain :
    (t : IpText) (host rest : Bytes)
    → 0 < length host
    → length host ≤ 255
    → parse_address_bytes t (3 ∷ length host ∷ (host ++ rest)) ≡ ok (host, suc (suc (length host)))
unfolding parse_address_bytes
parse-domain t host rest some_host small =
    let size : (length host == 0) ≡ false = ground arith in
    let long : ltb (suc (length (host ++ rest))) (1 + length host) ≡ false =
      ground (arith, length-append host rest) in
    let there : ltb (suc (length (host ++ rest))) 1 ≡ false = ground arith in
    rw (there, size, long, take-length_append host rest) (ap (λ n. ok (host, n)) (omega arith))

pub domain_guard :
    (host : Bytes)
    → (is_empty host || ltb 255 (length host)) ≡ false
    → (0 < length host) × (length host ≤ 255)
domain_guard [] h = cc
domain_guard (b ∷ s) h = (omega arith, ground arith)

parse_address_bytes-encode_host :
    (t : IpText) (host address : Bytes) (o : Option Ip)
    → IpTextLaws t
    → t.parse_ip host ≡ o
    → encode_host t host o ≡ ok address
    → (rest : Bytes)
    → parse_address_bytes t (address ++ rest) ≡ ok (shown_host t o host, length address)
parse_address_bytes-encode_host t host address (some (v4 b)) laws e h rest =
    rw (← ok_injective h) (parse-v4 t b rest (laws.v4_size host b e))
parse_address_bytes-encode_host t host address (some (v6 b)) laws e h rest =
    rw (← ok_injective h) (parse-v6 t b rest (laws.v6_size host b e))
parse_address_bytes-encode_host t host address none laws e h rest =
    let (fits, h1) = fail_if-ok (is_empty host || ltb 255 (length host)) bad_domain_length _ h in
    let (some_host, small) = domain_guard host fits in
    let low : length host % 256 ≡ length host = omega arith in
    rw (← ok_injective h1, low) (parse-domain t host rest some_host small)

pub port_of-ok : (o : Option ℤ) (port : ℕ) → port_of o ≡ ok port → (0 < port) × (port < 65536)
port_of-ok none port h = cc
port_of-ok (some (pos p)) port h = ground arith
port_of-ok (some (negsuc p)) port h = absurd (ground arith)

parse-parts :
    (t : IpText) (host address payload : Bytes) (port : ℕ)
    → 0 < port
    → port < 65536
    → 0 < length address
    → ((rest : Bytes) → parse_address_bytes t (address ++ rest) ≡ ok (host, length address))
    → parse_udp_datagram t (0 ∷ 0 ∷ 0 ∷ (address ++ (put_uint16 port ++ payload)))
      ≡ ok (join_host_port host (itoa_uint16 port), payload)
unfolding parse_udp_datagram
parse-parts t host address payload port low high some_address parsed =
    let rest = put_uint16 port ++ payload in
    let long : ltb (suc (suc (suc (length (address ++ rest))))) 4 ≡ false =
      ground (arith, length-append address rest) in
    let number = uint16_at-put_uint16 port high in
    let there : (port == 0) ≡ false = ground arith in
    let room : ltb (suc (suc (length payload))) 2 ≡ false = ground arith in
    rw (long, parsed rest, drop-length_append address rest, number, there, room) refl

encode_host-some :
    (t : IpText) (host address : Bytes) (o : Option Ip)
    → encode_host t host o ≡ ok address
    → 0 < length address
encode_host-some t host address (some (v4 b)) h = rw (← ok_injective h) (omega arith)
encode_host-some t host address (some (v6 b)) h = rw (← ok_injective h) (omega arith)
encode_host-some t host address none h =
    let (_, h1) = fail_if-ok (is_empty host || ltb 255 (length host)) bad_domain_length _ h in
    rw (← ok_injective h1) (omega arith)

pub or_split-ok :
    (r : Result AddrError (Bytes × Bytes)) {a : Bytes × Bytes} → or_split r ≡ ok a → r ≡ ok a
or_split-ok (ok a) h = cc
or_split-ok (err e) h = cc

-- A datagram that buildUDPDatagram made of a destination parses to the payload, and to the host and
-- the port of the destination, an IP address in the text that String gives it.
pub parse_udp_datagram-build_udp_datagram :
    (t : IpText) (destination payload packet : Bytes)
    → IpTextLaws t
    → build_udp_datagram t destination payload ≡ ok packet
    → (host : Bytes) × (port_text : Bytes) × (port : ℕ) × (split_host_port destination
        ≡ ok (host, port_text))
      × (port_of (atoi port_text) ≡ ok port)
      × (parse_udp_datagram t packet
          ≡ ok (join_host_port (shown_host t (t.parse_ip host) host) (itoa_uint16 port), payload))
unfolding build_udp_datagram encode_address
parse_udp_datagram-build_udp_datagram t destination payload packet laws h =
    let (parts, split, h1) = >>=-ok (or_split (split_host_port destination)) _ h in
    let (port, number, h2) = >>=-ok (port_of (atoi parts.1)) _ h1 in
    let (address, encoded, h3) = >>=-ok (encode_host t parts.0 (t.parse_ip parts.0)) _ h2 in
    let (low, high) = port_of-ok (atoi parts.1) port number in
    (
      parts.0,
      parts.1,
      port,
      or_split-ok (split_host_port destination) split,
      number,
      ap (parse_udp_datagram t) (sym (ok_injective h3))
          ∙ parse-parts t (shown_host t (t.parse_ip parts.0) parts.0) address payload port low high
              (encode_host-some t parts.0 address (t.parse_ip parts.0) encoded)
              (parse_address_bytes-encode_host t parts.0 address (t.parse_ip parts.0) laws refl
                encoded),
    )
