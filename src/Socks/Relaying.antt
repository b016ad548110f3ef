-- ===== src/Socks/Relaying.antt =====
-- UDP ASSOCIATE of pkg/socks5/udp.go: only the first sender is served. And the DNS fallback of
-- dns_tcp.go. IP.Equal is a parameter.
use mathlib.Core.List.{append_assoc}
use chameleon_protocol.Base.{
  >>-ok, fail_if-ok, ok_injective, ℕ, ◌<◌, ◌≡◌, refl, sym, ap, ◌∙◌, arith, not, ◌&&◌, Bool, true,
  false, ◌==◌, if◌then◌else◌, Option, none, some, List, [], ◌∷◌, ◌++◌, length, ltb, Result, ok, err,
  ◌>>=◌, ◌>>◌, fail_if,
}
use chameleon_protocol.Base.Int.{ℤ, pos}
use chameleon_protocol.Base.Bytes.{Bytes, put_uint16, uint16_at, uint16_at-put_uint16}
use chameleon_protocol.Io.{read_full}
use chameleon_protocol.Io.Reading.{read_full-exact}
use chameleon_protocol.Net.Number.{atoi}
use chameleon_protocol.Net.HostPort.{split_host_port}
use chameleon_protocol.Socks.{IpText, SocksError, or_io, or_split, parse_udp_datagram}

pub record UdpAddr : Type 0 where
  pub ip : Bytes
  pub port : ℕ

pub record Packet : Type 0 where
  pub from : UdpAddr
  pub body : Bytes

module _ (ip_equal : Bytes → Bytes → Bool) where
  abbrev pub same_addr : UdpAddr → UdpAddr → Bool
  same_addr a b = ip_equal a.ip b.ip && (a.port == b.port)

  -- setClient: the answer, and the client from then on.
  unfoldable pub set_client : Option UdpAddr → UdpAddr → Bool × Option UdpAddr
  set_client none addr = (true, some addr)
  set_client (some client) addr = (same_addr client addr, some client)

  module _ (t : IpText) where
    abbrev pub sent_on : Result SocksError (Bytes × Bytes) → List (Bytes × Bytes)
    sent_on (ok sent) = sent ∷ []
    sent_on (err e) = []

    -- The loop that reads from the client, over the packets that arrive: what it passes to the
    -- association. An error of Send that ends the loop is not modelled: the packets are those up to it.
    unfoldable pub forwarded : Option UdpAddr → List Packet → List (Bytes × Bytes)
    unfolding set_client
    forwarded client [] = []
    forwarded client (p ∷ ps) =
        let (mine, client') = set_client client p.from in
        let rest = forwarded client' ps in
        if mine then sent_on (parse_udp_datagram t p.body) ++ rest else rest

    -- All packets that come from one address, parsed.
    unfoldable pub all_from : UdpAddr → List Packet → List (Bytes × Bytes)
    all_from client [] = []
    all_from client (p ∷ ps) =
        let rest = all_from client ps in
        if same_addr client p.from then sent_on (parse_udp_datagram t p.body) ++ rest else rest

    forwarded-client :
        (client : UdpAddr) (ps : List Packet) → forwarded (some client) ps ≡ all_from client ps
    unfolding forwarded all_from set_client
    forwarded-client client [] = refl
    forwarded-client client (p ∷ ps) = rw (forwarded-client client ps) refl

    -- The association belongs to whoever sends the first packet: what is passed on is exactly what
    -- the packets from that address carry, in order, less those that do not parse; packets from any
    -- other address are dropped.
    pub forwarded-all_from :
        (p : Packet) (ps : List Packet)
        → same_addr p.from p.from ≡ true
        → forwarded none (p ∷ ps) ≡ all_from p.from (p ∷ ps)
    unfolding forwarded all_from set_client
    forwarded-all_from p ps self = rw (self, forwarded-client p.from ps) refl

-- Send of the DNS fallback: the bytes that go out on the stream to the destination.
pub data DnsError : Type 0 where
  bad_destination : SocksError → DnsError
  not_dns payload_too_large response_empty : DnsError
  stream_failed : SocksError → DnsError

abbrev pub is_dns_port : Option ℤ → Bool
is_dns_port (some (pos n)) = n == 53
is_dns_port other = false

abbrev pub dns_fault : Result SocksError (Bytes × Bytes) → Result DnsError (Bytes × Bytes)
dns_fault (ok a) = ok a
dns_fault (err e) = err (stream_failed e)

abbrev pub dns_destination : Result SocksError (Bytes × Bytes) → Result DnsError (Unit {0})
dns_destination (err e) = err (bad_destination e)
dns_destination (ok (host, port_text)) = do
  fail_if (not (is_dns_port (atoi port_text))) not_dns
  ok tt

unfoldable pub dns_query : Bytes → Bytes → Result DnsError Bytes
dns_query destination payload = do
  dns_destination (or_split (split_host_port destination))
  fail_if (ltb 65535 (length payload)) payload_too_large
  ok (put_uint16 (length payload) ++ payload)

-- The reading of the answer: a length in two bytes, and as many bytes.
unfoldable pub dns_response : Bytes → Result DnsError Bytes
dns_response stream = do
  (header, s1) ← dns_fault (or_io (read_full 2 stream))
  fail_if (uint16_at header 0 == 0) response_empty
  (answer, rest) ← dns_fault (or_io (read_full (uint16_at header 0) s1))
  ok answer

-- A query is framed as the answers are: the reader of answers gives the payload of a query that was
-- accepted back, if it is not empty.
pub dns_response-dns_query :
    (destination payload query more : Bytes)
    → 0 < length payload
    → dns_query destination payload ≡ ok query
    → dns_response (query ++ more) ≡ ok payload
unfolding dns_query dns_response
dns_response-dns_query destination payload query more some_payload h =
    let (_, h1) = >>-ok (dns_destination (or_split (split_host_port destination))) _ h in
    let (fits, h2) = fail_if-ok (ltb 65535 (length payload)) _ _ h1 in
    let size : uint16_at (put_uint16 (length payload)) 0 ≡ length payload =
      uint16_at-put_uint16 (length payload) (ground arith) in
    let there : (length payload == 0) ≡ false = ground arith in
    ap (λ q. dns_response (q ++ more)) (sym (ok_injective h2))
    ∙ rw
        (
          append_assoc (put_uint16 (length payload)) payload more,
          read_full-exact 2 (put_uint16 (length payload)) (payload ++ more) refl,
          size,
          there,
          read_full-exact (length payload) payload more refl,
        )
        refl
