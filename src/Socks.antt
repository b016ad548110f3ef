-- ===== src/Socks.antt =====
-- pkg/socks5: the addresses of SOCKS5 in packets (udp.go) and on streams (server.go, client.go). How
-- package net reads and writes the text of an IP address is a parameter.
pub mod Datagram
pub mod Request
pub mod Reply
pub mod Relaying
use chameleon_protocol.Base.{
  ◌≡◌, ℕ, zero, suc, ◌+◌, ◌%◌, ◌*◌, ◌==◌, ◌||◌, not, ltb, leb, Bool, true, false, if◌then◌else◌,
  Option, none, some, List, [], ◌∷◌, ◌++◌, length, take, drop, get_or, Result, ok, err, ◌>>=◌, ◌>>◌,
  fail_if, from_option,
}
use chameleon_protocol.Base.Int.{ℤ, pos, leb_ℤ, ltb_ℤ, pos_part, neg_part}
use chameleon_protocol.Base.Bytes.{Bytes, is_empty, put_uint16, uint16_at}
use chameleon_protocol.Io.{IoError, read_full}
use chameleon_protocol.Net.Number.{atoi, itoa_uint16}
use chameleon_protocol.Net.HostPort.{AddrError, split_host_port, join_host_port}

-- A parsed address: `v4` if To4 is not nil, with the bytes of To4, else `v6` with those of To16.
pub data Ip : Type 0 where
  v4 : Bytes → Ip
  v6 : Bytes → Ip

-- net.ParseIP, and String of a net.IP.
pub record IpText : Type 0 where
  pub parse_ip : Bytes → Option Ip
  pub ip_string : Bytes → Bytes

-- To4 has 4 bytes and To16 has 16.
pub record IpTextLaws (t : IpText) : Type 0 where
  pub v4_size : (host b : Bytes) → t.parse_ip host ≡ some (v4 b) → length b ≡ 4
  pub v6_size : (host b : Bytes) → t.parse_ip host ≡ some (v6 b) → length b ≡ 16

pub data SocksError : Type 0 where
  io : IoError → SocksError
  not_host_port : AddrError → SocksError
  too_short reserved_bytes fragmented no_port port_zero bad_port : SocksError
  bad_domain_length missing_type short_ipv4 short_domain bad_domain short_ipv6 : SocksError
  unsupported_type : ℕ → SocksError
  bad_version : ℕ → SocksError
  no_method bad_request empty_domain rejected bad_reply : SocksError
  refused_code : ℕ → SocksError

abbrev pub or_io {ℓ} : {A : Type ℓ} → Result IoError A → Result SocksError A
or_io (ok a) = ok a
or_io (err e) = err (io e)

abbrev pub or_split {ℓ} : {A : Type ℓ} → Result AddrError A → Result SocksError A
or_split (ok a) = ok a
or_split (err e) = err (not_host_port e)

-- A port from its text, between 1 and 65535.
abbrev pub port_of : Option ℤ → Result SocksError ℕ
port_of none = err bad_port
port_of (some p) = if leb_ℤ p (pos 0) || ltb_ℤ (pos 65535) p then err bad_port else ok (pos_part p)

module _ (t : IpText) where
  abbrev pub encode_host : Bytes → Option Ip → Result SocksError Bytes
  encode_host host (some (v4 b)) = ok (1 ∷ b)
  encode_host host (some (v6 b)) = ok (4 ∷ b)
  encode_host host none = do
    fail_if (is_empty host || ltb 255 (length host)) bad_domain_length
    ok (3 ∷ (length host % 256) ∷ host)

  -- encodeAddress, which clientHandshake of client.go has inline.
  unfoldable pub encode_address : Bytes → Result SocksError Bytes
  encode_address host = encode_host host (t.parse_ip host)

  -- parseAddressBytes: the host, and how many bytes it took.
  unfoldable pub parse_address_bytes : Bytes → Result SocksError (Bytes × ℕ)
  parse_address_bytes [] = err missing_type
  parse_address_bytes (kind ∷ s) =
      if kind == 1
      then (if ltb (length s) 4 then err short_ipv4 else ok (t.ip_string (take 4 s), 5))
      else if kind == 3
      then (if ltb (length s) 1
          then err short_domain
          else let size = get_or s 0 0 in
            if size == 0 || ltb (length s) (1 + size)
            then err bad_domain
            else ok (take size (drop 1 s), 2 + size))
      else if kind == 4
      then (if ltb (length s) 16 then err short_ipv6 else ok (t.ip_string (take 16 s), 17))
      else err (unsupported_type kind)

  -- parseUDPDatagram: the destination and the payload.
  unfoldable pub parse_udp_datagram : Bytes → Result SocksError (Bytes × Bytes)
  unfolding parse_address_bytes
  parse_udp_datagram packet = do
    fail_if (ltb (length packet) 4) too_short
    fail_if (not (get_or packet 0 0 == 0) || not (get_or packet 1 0 == 0)) reserved_bytes
    fail_if (not (get_or packet 2 0 == 0)) fragmented
    (host, used) ← parse_address_bytes (drop 3 packet)
    let after = drop used (drop 3 packet)
    fail_if (ltb (length after) 2) no_port
    let port = uint16_at after 0
    fail_if (port == 0) port_zero
    ok (join_host_port host (itoa_uint16 port), drop 2 after)

  unfoldable pub build_udp_datagram : Bytes → Bytes → Result SocksError Bytes
  unfolding encode_address
  build_udp_datagram destination payload = do
    (host, port_text) ← or_split (split_host_port destination)
    port ← port_of (atoi port_text)
    address ← encode_address host
    ok (0 ∷ 0 ∷ 0 ∷ (address ++ (put_uint16 port ++ payload)))

  -- readAddress
  unfoldable pub read_address : ℕ → Bytes → Result SocksError (Bytes × Bytes)
  read_address kind stream =
      if kind == 1
      then (do (b, rest) ← or_io (read_full 4 stream); ok (t.ip_string b, rest))
      else if kind == 3
      then (do
        (size, s1) ← or_io (read_full 1 stream)
        fail_if (get_or size 0 0 == 0) empty_domain
        or_io (read_full (get_or size 0 0) s1))
      else if kind == 4
      then (do (b, rest) ← or_io (read_full 16 stream); ok (t.ip_string b, rest))
      else err (unsupported_type kind)
