-- ===== src/Tunnel/Egress.antt =====
-- pkg/tunnel/server.go: what the server does with an authenticated stream, up to the copying of bytes;
-- and the status that client.go reads. Addresses are parsed and classified by package net, which is
-- a parameter; a net.IP is its bytes.
pub mod Blocked
pub mod Status
use chameleon_protocol.Base.{
  ℕ, zero, suc, ◌==◌, ◌||◌, ◌&&◌, not, Bool, true, false, if◌then◌else◌, Option, none, some, [],
  ◌∷◌, length, Result, ok, err, ◌>>=◌, ◌>>◌, fail_if,
}
use chameleon_protocol.Base.Int.{ℤ, pos, leb_ℤ}
use chameleon_protocol.Base.Bytes.{Bytes, codes, bytes_eq, is_empty}
use chameleon_protocol.Crypto.{Aead}
use chameleon_protocol.Tunnel.Trim.{strings_trim}
use chameleon_protocol.Net.HostPort.{AddrError, split_host_port}
use chameleon_protocol.Tunnel.Secure.{SecureError, Outgoing, write}

pub record IpRules : Type 0 where
  pub parse_ip : Bytes → Option Bytes
  pub is_loopback : Bytes → Bool
  pub is_private : Bytes → Bool
  pub is_link_local_unicast : Bytes → Bool
  pub is_link_local_multicast : Bytes → Bool
  pub is_unspecified : Bytes → Bool

-- The address of a connection: a TCP or UDP address with its IP, which may be nil, or another type.
pub data Remote : Type 0 where
  ip_address : Option Bytes → Remote
  other_address : Remote

pub data EgressError : Type 0 where
  bad_destination : AddrError → EgressError
  private_destination dial_failed deadline_failed : EgressError
  status_failed : SecureError → EgressError

abbrev pub probe_session_destination : Bytes
probe_session_destination = codes "probe.session:1"

-- The durations of the configuration, with the defaults of NewServer.
pub record Timing : Type 0 where
  pub handshake_timeout : ℤ
  pub dial_timeout : ℤ
  pub max_clock_skew : ℤ

abbrev pub seconds_or : ℕ → ℤ → ℤ
seconds_or n given = if leb_ℤ given (pos 0) then pos n else given

-- NewServer; `none` is its error. `clients` is the size of the registry, 0 for a nil one.
unfoldable pub new_server : Bytes → ℕ → Timing → Option Timing
new_server psk clients t =
    if is_empty (strings_trim psk) && clients == 0
    then none
    else some (record {
      handshake_timeout = seconds_or 8000000000 t.handshake_timeout;
      dial_timeout = seconds_or 8000000000 t.dial_timeout;
      max_clock_skew = seconds_or 120000000000 t.max_clock_skew;
    })

module _ (rules : IpRules) where
  unfoldable pub is_blocked : Bytes → Bool
  is_blocked ip =
      rules.is_loopback ip
      || rules.is_private ip
      || rules.is_link_local_unicast ip
      || rules.is_link_local_multicast ip
      || rules.is_unspecified ip

  unfoldable pub reject_private_ip : Bytes → Result EgressError (Unit {0})
  unfolding is_blocked
  reject_private_ip ip = do fail_if (is_blocked ip) private_destination; ok tt

  abbrev pub reject_parsed : Option Bytes → Result EgressError (Unit {0})
  reject_parsed none = ok tt
  reject_parsed (some ip) = reject_private_ip ip

  abbrev pub reject_host : Result AddrError (Bytes × Bytes) → Result EgressError (Unit {0})
  reject_host (err e) = err (bad_destination e)
  reject_host (ok (host, port)) = reject_parsed (rules.parse_ip host)

  unfoldable pub reject_private_destination_literal : Bytes → Result EgressError (Unit {0})
  reject_private_destination_literal destination = reject_host (split_host_port destination)

  unfoldable pub reject_private_remote : Remote → Result EgressError (Unit {0})
  reject_private_remote (ip_address ip) = reject_parsed ip
  reject_private_remote other_address = ok tt

  -- A test that `AllowPrivateDestinations` switches off.
  abbrev pub unless_allowed : Bool → Result EgressError (Unit {0}) → Result EgressError (Unit {0})
  unless_allowed true check = ok tt
  unless_allowed false check = check

  -- What became of the stream: the error that HandleConn returns before it copies; the upstream that it
  -- copies from and to; whether a dialed upstream is closed; what was written to the client.
  pub record Served : Type 0 where
    pub error : Option EgressError
    pub upstream : Option Remote
    pub closed_upstream : Bool
    pub outgoing : Outgoing

  -- `cleared` is whether SetDeadline succeeds, behind the status of a stream.
  module _ (a : Aead) (allow_private cleared : Bool) where
    -- A refusal with a message for the client; an error of this Write is dropped.
    abbrev pub refuse_stream : EgressError → Bytes → Bool → Outgoing → Served
    refuse_stream e message dialed out = record {
      error = some e;
      upstream = none;
      closed_upstream = dialed;
      outgoing = (write a (1 ∷ message) out).1;
    }

    -- The stream ends with an error, or without one, and nothing is copied.
    abbrev pub stream_ended : Option EgressError → Bool → Outgoing → Served
    stream_ended e dialed out = record {
      error = e;
      upstream = none;
      closed_upstream = dialed;
      outgoing = out;
    }

    -- Behind the status byte 0 of a probe.
    abbrev pub after_probe : (Option SecureError × ℕ) × Outgoing → Served
    after_probe ((some e, n), out) = stream_ended (some (status_failed e)) false out
    after_probe ((none, n), out) = stream_ended none false out

    -- Behind the status byte 0 of a stream: the deadline is cleared, and the bytes are copied.
    abbrev pub after_ready : Remote → (Option SecureError × ℕ) × Outgoing → Served
    after_ready remote ((some e, n), out) = stream_ended (some (status_failed e)) true out
    after_ready remote ((none, n), out) =
        if cleared
        then record {
          error = none;
          upstream = some remote;
          closed_upstream = false;
          outgoing = out;
        }
        else stream_ended (some deadline_failed) true out

    abbrev pub after_remote : Remote → Outgoing → Result EgressError (Unit {0}) → Served
    after_remote remote out (err e) = refuse_stream e (codes "destination is not allowed") true out
    after_remote remote out (ok u) = after_ready remote (write a (0 ∷ []) out)

    abbrev pub after_dial : Outgoing → Option Remote → Served
    after_dial out none = refuse_stream dial_failed (codes "remote dial failed") false out
    after_dial out (some remote) =
        after_remote remote out (unless_allowed allow_private (reject_private_remote remote))

    abbrev pub after_literal : Outgoing → Option Remote → Result EgressError (Unit {0}) → Served
    after_literal out dialed (err e) =
        refuse_stream e (codes "destination is not allowed") false out
    after_literal out dialed (ok u) = after_dial out dialed

    -- HandleConn behind the authentication. `dialed` is what DialContext answers for the destination:
    -- the remote address, or an error.
    unfoldable pub serve_stream : Bytes → Option Remote → Outgoing → Served
    serve_stream destination dialed out =
        if bytes_eq destination probe_session_destination
        then after_probe (write a (0 ∷ []) out)
        else after_literal out dialed
            (unless_allowed allow_private (reject_private_destination_literal destination))

-- The client's reading of the status (the end of clientHandshakeLegacyWithCipher).
pub data StatusError : Type 0 where
  status_unreadable : SecureError → StatusError
  status_empty : StatusError
  status_refused : Bytes → StatusError

unfoldable pub check_status : Result SecureError Bytes → Result StatusError (Unit {0})
check_status (err e) = err (status_unreadable e)
check_status (ok []) = err status_empty
check_status (ok (zero ∷ rest)) = ok tt
check_status (ok (suc b ∷ [])) = err (status_refused (codes "remote dial failed"))
check_status (ok (suc b ∷ c ∷ message)) = err (status_refused (c ∷ message))
