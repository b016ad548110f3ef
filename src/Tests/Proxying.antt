-- ===== src/Tests/Proxying.antt =====
-- The tunnel server's egress, the datagram relay and SOCKS5 at concrete inputs.
use chameleon_protocol.Base.{
  ℕ, zero, suc, ◌+◌, ◌≤◌, ◌≡◌, refl, arith, Bool, true, false, ◌==◌, if◌then◌else◌, none, some,
  List, [], ◌∷◌, ◌++◌, length, get_or, All, ok, err,
}
use chameleon_protocol.Base.Bytes.{Bytes, codes, bytes_eq}
use chameleon_protocol.Base.Dict.{lookup, insert, remove}
use chameleon_protocol.Crypto.{seal_frame}
use chameleon_protocol.Io.{write_full, write_loop}
use chameleon_protocol.Net.Number.{atoi, itoa_uint16}
use chameleon_protocol.Net.HostPort.{split_host_port, join_host_port}
use chameleon_protocol.Tunnel.Secure.{Outgoing, read, write, write_chunks, write_chunk}
use chameleon_protocol.Tunnel.Secure.Write.{Sized}
use chameleon_protocol.Tunnel.Egress.{
  IpRules, Remote, ip_address, serve_stream, check_status, is_blocked, reject_private_ip,
  reject_private_destination_literal, reject_private_remote,
}
use chameleon_protocol.Tunnel.Egress.Blocked.{IsPublic, serve_stream-IsPublic}
use chameleon_protocol.Tunnel.Egress.Status.{
  IsFresh, accepts, was_ready, received, check_status-serve_stream,
}
use chameleon_protocol.Tunnel.Relay.{
  new_relay, Step, start, enter, drop_it, run_relay, relay_step, close_relay, close_socket, landed,
  nth, start_upstream, enter_upstream, drop_upstream,
}
use chameleon_protocol.Tunnel.Relay.Sockets.{hits, sockets, ids, Once, run_relay-sockets}
use chameleon_protocol.Socks.{
  v4, v6, IpText, IpTextLaws, SocksError, port_of, encode_address, build_udp_datagram,
  parse_udp_datagram,
}
use chameleon_protocol.Socks.Datagram.{shown_host, parse_udp_datagram-build_udp_datagram}
use chameleon_protocol.Socks.Request.{
  client_request, read_request_details, server_greeting, check_greeting, offers_no_auth,
  read_request_details-client_request, check_greeting-server_greeting,
}
use chameleon_protocol.Socks.Reply.{
  Bound, Server, handle_request, check_reply, goes_on, is_ok, check_reply-handle_request,
}
use chameleon_protocol.Socks.Relaying.{
  Packet, UdpAddr, forwarded, all_from, forwarded-all_from, dns_query, dns_response,
  dns_response-dns_query,
}
use chameleon_protocol.Tests.Wire.{toy, toy-AeadLaws}

abbrev ten_is_private : IpRules
ten_is_private = record {
  parse_ip = λ s. if bytes_eq s (codes "10.0.0.1") then some (10 ∷ 0 ∷ 0 ∷ 1 ∷ []) else none;
  is_loopback = λ ip. false;
  is_private = λ ip. get_or ip 0 0 == 10;
  is_link_local_unicast = λ ip. false;
  is_link_local_multicast = λ ip. false;
  is_unspecified = λ ip. false;
}

unfoldable many : ℕ → List Bytes
many zero = []
many (suc n) = (1 ∷ 2 ∷ []) ∷ many n

many-Sized : (n : ℕ) → All (Sized toy) (many n)
unfolding many
many-Sized zero = tt
many-Sized (suc n) = (refl, many-Sized n)

abbrev out : Outgoing
out = record { writer = record { sent = []; answers = [] }; nonces = many 27 }

out-IsFresh : IsFresh toy 27 out
unfolding many
out-IsFresh = record { empty = refl; willing = refl; supply = omega arith; sized = many-Sized 27 }

abbrev public_host : Remote
public_host = ip_address (some (8 ∷ 8 ∷ 8 ∷ 8 ∷ []))

forwards_to_it :
    (serve_stream ten_is_private toy false true (codes "a.b:80") (some public_host) out).upstream
    ≡ some public_host
unfolding serve_stream reject_private_destination_literal reject_private_remote reject_private_ip
    is_blocked split_host_port write write_chunks write_chunk many seal_frame write_full write_loop
forwards_to_it = refl

serve_stream-IsPublic_example :
    (some public_host ≡ some public_host) × IsPublic ten_is_private (codes "a.b:80") public_host
serve_stream-IsPublic_example =
    serve_stream-IsPublic ten_is_private toy true (codes "a.b:80") (some public_host) out
      public_host forwards_to_it

check_status-serve_stream_example :
    accepts (
      check_status
        (read toy 4096 (
          received
            (serve_stream ten_is_private toy false true (codes "a.b:80") none out).outgoing)).0)
    ≡ was_ready (serve_stream ten_is_private toy false true (codes "a.b:80") none out).error
check_status-serve_stream_example =
    check_status-serve_stream ten_is_private toy false true (codes "a.b:80") none out toy-AeadLaws
      out-IsFresh

abbrev site : Bytes
site = codes "a.b:53"

-- A write to the first socket fails, and the socket is dropped; the next datagram opens another; then
-- the reader of the first socket sees its error.
abbrev late_reader : List Step
late_reader =
    start site (some public_host)
    ∷ enter 0
    ∷ drop_it site
    ∷ start site (some public_host)
    ∷ enter 0
    ∷ drop_it site
    ∷ []

-- The socket that is in use is closed too.
late_reader_closes : (run_relay ten_is_private false late_reader new_relay).opened ≡ []
unfolding run_relay relay_step new_relay start_upstream enter_upstream drop_upstream lookup insert
    remove landed nth close_socket reject_private_destination_literal reject_private_remote
    reject_private_ip is_blocked split_host_port
late_reader_closes = refl

run_relay-sockets_example :
    (length (run_relay ten_is_private false late_reader new_relay).upstreams ≤ 64)
    × Once (run_relay ten_is_private false late_reader new_relay).upstreams
    × (hits 1 (run_relay ten_is_private false late_reader new_relay).opened
        ≡ hits 1 (sockets (run_relay ten_is_private false late_reader new_relay).upstreams)
          + hits 1 (ids (run_relay ten_is_private false late_reader new_relay).flying))
    × (hits 1 (close_relay (run_relay ten_is_private false late_reader new_relay)).opened
        ≡ hits 1 (ids (run_relay ten_is_private false late_reader new_relay).flying))
run_relay-sockets_example = run_relay-sockets ten_is_private false late_reader 1

abbrev four : Bytes
four = 1 ∷ 2 ∷ 3 ∷ 4 ∷ []

abbrev one_address : IpText
one_address = record {
  parse_ip = λ s. if bytes_eq s (codes "1.2.3.4") then some (v4 four) else none;
  ip_string = λ b. codes "1.2.3.4";
}

only_four :
    (b : Bool) (ip : Bytes) → (if b then some (v4 four) else none) ≡ some (v4 ip) → length ip ≡ 4
only_four true ip h = let e : four ≡ ip = cc in rw (← e) refl
only_four false ip h = cc

no_six :
    (b : Bool) (ip : Bytes) → (if b then some (v4 four) else none) ≡ some (v6 ip) → length ip ≡ 16
no_six true ip h = cc
no_six false ip h = cc

one_address-IpTextLaws : IpTextLaws one_address
one_address-IpTextLaws = record {
  v4_size = λ host b. only_four (bytes_eq host (codes "1.2.3.4")) b;
  v6_size = λ host b. no_six (bytes_eq host (codes "1.2.3.4")) b;
}

abbrev packet : Bytes
packet = 0 ∷ 0 ∷ 0 ∷ 1 ∷ 1 ∷ 2 ∷ 3 ∷ 4 ∷ 0 ∷ 53 ∷ 9 ∷ []

built : build_udp_datagram one_address (codes "1.2.3.4:53") (9 ∷ []) ≡ ok packet
unfolding build_udp_datagram encode_address split_host_port atoi
built = refl

parse_udp_datagram-build_udp_datagram_example :
    (host : Bytes) × (port_text : Bytes) × (port : ℕ) × (split_host_port (codes "1.2.3.4:53")
      ≡ ok (host, port_text))
    × (port_of (atoi port_text) ≡ ok port)
    × (parse_udp_datagram one_address packet
        ≡ ok (
          join_host_port
              (shown_host one_address (one_address.parse_ip host) host)
              (itoa_uint16 port),
          9 ∷ [],
        ))
parse_udp_datagram-build_udp_datagram_example =
    parse_udp_datagram-build_udp_datagram one_address (codes "1.2.3.4:53") (9 ∷ []) packet
      one_address-IpTextLaws built

abbrev request : Bytes
request = 5 ∷ 1 ∷ 0 ∷ 3 ∷ 3 ∷ 97 ∷ 46 ∷ 98 ∷ 0 ∷ 53 ∷ []

requested : client_request one_address site ≡ ok request
unfolding client_request encode_address split_host_port atoi
requested = refl

read_request_details-client_request_example :
    (host : Bytes) × (port_text : Bytes) × (port : ℕ) × (split_host_port site
      ≡ ok (host, port_text))
    × (port_of (atoi port_text) ≡ ok port)
    × (read_request_details one_address (request ++ (7 ∷ []))
        ≡ ok (
          1,
          join_host_port
              (shown_host one_address (one_address.parse_ip host) host)
              (itoa_uint16 port),
          7 ∷ [],
        ))
read_request_details-client_request_example =
    read_request_details-client_request one_address site request (7 ∷ []) one_address-IpTextLaws
      requested

check_greeting-server_greeting_example :
    ((server_greeting (5 ∷ 2 ∷ ((2 ∷ 0 ∷ []) ++ (9 ∷ [])))).0
      ≡ (if offers_no_auth (2 ∷ 0 ∷ []) then ok (9 ∷ []) else err SocksError.no_method))
    × (check_greeting ((server_greeting (5 ∷ 2 ∷ ((2 ∷ 0 ∷ []) ++ (9 ∷ [])))).1 ++ (8 ∷ []))
        ≡ (if offers_no_auth (2 ∷ 0 ∷ []) then ok (8 ∷ []) else err SocksError.rejected))
check_greeting-server_greeting_example =
    check_greeting-server_greeting (2 ∷ 0 ∷ []) (9 ∷ []) (8 ∷ []) (omega arith)

abbrev proxy : Server
proxy = record { dials = true; opens_udp = false }

abbrev local_addr : Bound
local_addr = record { ip4 = some four; port = 1080 }

local_size : (b : Bound) (ip : Bytes) → some local_addr ≡ some b → b.ip4 ≡ some ip → length ip ≡ 4
local_size b ip h e =
    let same : local_addr ≡ b = cc in
    let found : some four ≡ some ip = rw (← same) at e in let f : four ≡ ip = cc in rw (← f) refl

check_reply-handle_request_example :
    is_ok (
      check_reply one_address
        ((handle_request proxy (ok (1, site, [])) (some local_addr) true).0 ++ (7 ∷ [])))
    ≡ goes_on (handle_request proxy (ok (1, site, [])) (some local_addr) true).1
check_reply-handle_request_example =
    check_reply-handle_request one_address proxy (ok (1, site, [])) (some local_addr) (7 ∷ [])
      local_size

abbrev sender : UdpAddr
sender = record { ip = four; port = 5000 }

abbrev datagram : Packet
datagram = record { from = sender; body = packet }

abbrev stranger : Packet
stranger = record { from = record { ip = four; port = 5001 }; body = packet }

forwarded-all_from_example :
    forwarded bytes_eq one_address none (datagram ∷ stranger ∷ [])
    ≡ all_from bytes_eq one_address sender (datagram ∷ stranger ∷ [])
forwarded-all_from_example = forwarded-all_from bytes_eq one_address datagram (stranger ∷ []) refl

queried : dns_query site (9 ∷ 8 ∷ []) ≡ ok (0 ∷ 2 ∷ 9 ∷ 8 ∷ [])
unfolding dns_query split_host_port atoi
queried = refl

dns_response-dns_query_example : dns_response (0 ∷ 2 ∷ 9 ∷ 8 ∷ 7 ∷ []) ≡ ok (9 ∷ 8 ∷ [])
dns_response-dns_query_example =
    dns_response-dns_query site (9 ∷ 8 ∷ []) (0 ∷ 2 ∷ 9 ∷ 8 ∷ []) (7 ∷ []) (omega arith) queried
