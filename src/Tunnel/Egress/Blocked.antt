-- ===== src/Tunnel/Egress/Blocked.antt =====
-- Private destinations in pkg/tunnel/server.go.
use chameleon_protocol.Base.{
  ◌≡◌, refl, sym, ap, ◌∙◌, Bool, false, Bool-cases, inl, inr, Option, none, some, [], ◌∷◌, ℕ,
  Result, ok, err, fail_if-ok,
}
use chameleon_protocol.Base.Bytes.{Bytes, bytes_eq}
use chameleon_protocol.Crypto.{Aead}
use chameleon_protocol.Net.HostPort.{split_host_port}
use chameleon_protocol.Tunnel.Secure.{Outgoing, SecureError, write}
use chameleon_protocol.Tunnel.Egress.{
  IpRules, Remote, ip_address, EgressError, probe_session_destination, is_blocked,
  reject_private_ip, reject_private_destination_literal, reject_private_remote, after_ready,
  after_probe, after_remote, after_dial, after_literal, serve_stream,
}

-- An upstream that may be used: neither the address in the destination's text nor the one that was
-- dialed is blocked.
pub record IsPublic (rules : IpRules) (destination : Bytes) (remote : Remote) : Type 0 where
  pub literal :
      (host port ip : Bytes)
      → split_host_port destination ≡ ok (host, port)
      → rules.parse_ip host ≡ some ip
      → is_blocked rules ip ≡ false
  pub dialed : (ip : Bytes) → remote ≡ ip_address (some ip) → is_blocked rules ip ≡ false

module _ (rules : IpRules) where
  reject_private_ip-ok :
      (ip : Bytes) → reject_private_ip rules ip ≡ ok tt → is_blocked rules ip ≡ false
  unfolding reject_private_ip
  reject_private_ip-ok ip h = (fail_if-ok (is_blocked rules ip) _ _ h).0

  literal-ok :
      (destination host port ip : Bytes)
      → reject_private_destination_literal rules destination ≡ ok tt
      → split_host_port destination ≡ ok (host, port)
      → rules.parse_ip host ≡ some ip
      → is_blocked rules ip ≡ false
  unfolding reject_private_destination_literal
  literal-ok destination host port ip h split parsed =
      reject_private_ip-ok ip (rw (split, parsed) at h)

  remote-ok :
      (remote : Remote) (ip : Bytes)
      → reject_private_remote rules remote ≡ ok tt
      → remote ≡ ip_address (some ip)
      → is_blocked rules ip ≡ false
  unfolding reject_private_remote
  remote-ok remote ip h same = reject_private_ip-ok ip (rw same at h)

  module _ (a : Aead) (cleared : Bool) where
    after_probe-upstream :
        (r : (Option SecureError × ℕ) × Outgoing)
        → (after_probe rules a false cleared r).upstream ≡ none
    after_probe-upstream ((some e, n), out) = refl
    after_probe-upstream ((none, n), out) = refl

    after_ready-upstream :
        (given : Remote) (r : (Option SecureError × ℕ) × Outgoing) (remote : Remote)
        → (after_ready rules a false cleared given r).upstream ≡ some remote
        → given ≡ remote
    after_ready-upstream given ((some e, n), out) remote h = cc
    after_ready-upstream given ((none, n), out) remote h = elim (Bool-cases cleared) [
      | inl going_on ↦ let e = rw going_on at h in cc
      | inr stopped ↦ let e = rw stopped at h in cc
    ]

    after_remote-upstream :
        (given : Remote) (out : Outgoing) (r : Result EgressError (Unit {0})) (remote : Remote)
        → (after_remote rules a false cleared given out r).upstream ≡ some remote
        → (given ≡ remote) × (r ≡ ok tt)
    after_remote-upstream given out (err e) remote h = cc
    after_remote-upstream given out (ok _) remote h =
        (after_ready-upstream given (write a (0 ∷ []) out) remote h, refl)

    after_dial-upstream :
        (out : Outgoing) (dialed : Option Remote) (remote : Remote)
        → (after_dial rules a false cleared out dialed).upstream ≡ some remote
        → (dialed ≡ some remote) × (reject_private_remote rules remote ≡ ok tt)
    after_dial-upstream out none remote h = cc
    after_dial-upstream out (some given) remote h =
        let (same, fine) =
          after_remote-upstream given out (reject_private_remote rules given) remote h in
        (ap some same, ap (reject_private_remote rules) (sym same) ∙ fine)

    after_literal-upstream :
        (out : Outgoing) (dialed : Option Remote) (r : Result EgressError (Unit {0}))
        (remote : Remote)
        → (after_literal rules a false cleared out dialed r).upstream ≡ some remote
        → (r ≡ ok tt) × (dialed ≡ some remote) × (reject_private_remote rules remote ≡ ok tt)
    after_literal-upstream out dialed (err e) remote h = cc
    after_literal-upstream out dialed (ok _) remote h =
        let (same, fine) = after_dial-upstream out dialed remote h in (refl, same, fine)

    -- A server that does not allow private destinations copies bytes only to the upstream that it
    -- dialed for this destination, and only if neither an IP literal in the destination nor the IP
    -- address that was dialed is blocked: a name that resolves to a private address is refused too.
    pub serve_stream-IsPublic :
        (destination : Bytes) (dialed : Option Remote) (out : Outgoing) (remote : Remote)
        → (serve_stream rules a false cleared destination dialed out).upstream ≡ some remote
        → (dialed ≡ some remote) × IsPublic rules destination remote
    unfolding serve_stream
    serve_stream-IsPublic destination dialed out remote h =
        elim (Bool-cases (bytes_eq destination probe_session_destination)) [
          | inl probe ↦
              let none_there = after_probe-upstream (write a (0 ∷ []) out) in
              let found = rw probe at h in cc
          | inr stream ↦
              let (literal, same, fine) =
                after_literal-upstream out dialed
                  (reject_private_destination_literal rules destination) remote (rw stream at h) in
              (
                same,
                record {
                  literal = λ host port ip. literal-ok destination host port ip literal;
                  dialed = λ ip. remote-ok remote ip fine;
                },
              )
        ]
