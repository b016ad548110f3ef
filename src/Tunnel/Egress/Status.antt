-- ===== src/Tunnel/Egress/Status.antt =====
-- The status that the server of pkg/tunnel/server.go writes and the client of client.go reads.
use mathlib.Core.Path.{subst}
use chameleon_protocol.Base.{
  ℕ, zero, suc, ◌≤◌, ◌<◌, ◌≡◌, refl, sym, ap, ◌∙◌, arith, Bool, true, false, Bool-cases, inl, inr,
  Option, none, some, [], ◌∷◌, ◌++◌, length, All, Result, ok, err, fail_if, ◌>>◌,
}
use chameleon_protocol.Base.Bytes.{Bytes, bytes_eq, codes}
use chameleon_protocol.Net.HostPort.{AddrError, split_host_port}
use chameleon_protocol.Crypto.{Aead, AeadLaws}
use chameleon_protocol.Tunnel.Secure.{SecureError, Incoming, Outgoing, read, write}
use chameleon_protocol.Tunnel.Secure.Frames.{Carries}
use chameleon_protocol.Tunnel.Secure.Write.{Sized, write-Delivered, write-willing}
use chameleon_protocol.Tunnel.Secure.Read.{Holds, read-Gives}
use chameleon_protocol.Tunnel.Egress.{
  IpRules, Remote, EgressError, Served, StatusError, check_status, probe_session_destination,
  dial_failed, refuse_stream, after_ready, after_probe, deadline_failed, private_destination,
  bad_destination, ip_address, other_address, reject_parsed, reject_host, reject_private_ip,
  reject_private_remote, reject_private_destination_literal, is_blocked, unless_allowed,
  after_remote, after_dial, after_literal, serve_stream,
}

-- The client's verdict as a test.
abbrev pub accepts : Result StatusError (Unit {0}) → Bool
accepts (ok u) = true
accepts (err e) = false

-- The server got as far as the status 0: it has no error, or the one of the step behind the status.
abbrev pub was_ready : Option EgressError → Bool
was_ready none = true
was_ready (some deadline_failed) = true
was_ready (some _) = false

-- The errors of a refusal.
abbrev Refuses : EgressError → Type 0
Refuses e = was_ready (some e) ≡ false

abbrev is_ready : Bytes → Bool
is_ready [] = false
is_ready (zero ∷ s) = true
is_ready (suc b ∷ s) = false

-- What the client holds when the server has written `out` on a new stream.
abbrev pub received : Outgoing → Incoming
received out = record { stream = out.writer.sent; pending = [] }

accepts-front :
    (front left p : Bytes)
    → 0 < length front
    → p ≡ front ++ left
    → accepts (check_status (ok front)) ≡ is_ready p
unfolding check_status
accepts-front [] left p some_bytes split = absurd (omega arith)
accepts-front (zero ∷ s) left p some_bytes split = rw split refl
accepts-front (suc b ∷ []) left p some_bytes split = rw split refl
accepts-front (suc b ∷ c ∷ s) left p some_bytes split = rw split refl

module _ (a : Aead) where
  -- A stream that starts empty, whose writes succeed, with `n` nonces at least.
  pub record IsFresh (n : ℕ) (out : Outgoing) : Type 0 where
    pub empty : out.writer.sent ≡ []
    pub willing : out.writer.answers ≡ []
    pub supply : n ≤ length out.nonces
    pub sized : All (Sized a) out.nonces

  status_read :
      (p : Bytes) (out : Outgoing)
      → AeadLaws a
      → IsFresh (length p) out
      → 0 < length p
      → accepts (check_status (read a 4096 (received (write a p out).1)).0) ≡ is_ready p
  status_read p out laws fresh some_bytes =
      let done = write-willing a p out laws fresh.sized fresh.willing fresh.supply in
      let d = write-Delivered a p out laws fresh.sized done in
      let stream_is : (write a p out).1.writer.sent ≡ d.stream =
        d.out ∙ ap (λ t. t ++ d.stream) fresh.empty in
      let carried : Holds a (received (write a p out).1) p = record {
        payload = p;
        carries = subst (λ s. Carries a s p) (sym stream_is) d.carries;
        whole = refl;
      } in
      let g =
        read-Gives a 4096 (received (write a p out).1) p laws (omega arith) some_bytes carried in
      ap (λ r. accepts (check_status r)) g.given ∙ accepts-front g.out g.left p g.some_bytes g.split

-- What the server wrote for an outcome: the status that its error calls for.
module _ (a : Aead) where
  abbrev Tells : Option EgressError → Outgoing → Type 0
  Tells e out = accepts (check_status (read a 4096 (received out)).0) ≡ was_ready e

  refuse_stream-Tells :
      (rules : IpRules) (allow cleared dialed : Bool) (e : EgressError) (message : Bytes)
      (out : Outgoing)
      → AeadLaws a
      → IsFresh a (suc (length message)) out
      → Refuses e
      → Tells (some e) (refuse_stream rules a allow cleared e message dialed out).outgoing
  refuse_stream-Tells rules allow cleared dialed e message out laws fresh refused =
      status_read a (1 ∷ message) out laws fresh (omega arith) ∙ sym refused

  weaker : (m n : ℕ) (out : Outgoing) → m ≤ n → IsFresh a n out → IsFresh a m out
  weaker m n out le fresh = record {
    empty = fresh.empty;
    willing = fresh.willing;
    supply = omega (arith, fresh.supply);
    sized = fresh.sized;
  }

  after_probe-Tells :
      (rules : IpRules) (allow cleared : Bool) (r : (Option SecureError × ℕ) × Outgoing)
      → r.0.0 ≡ none
      → Tells none r.1
      → Tells
          (after_probe rules a allow cleared r).error
          (after_probe rules a allow cleared r).outgoing
  after_probe-Tells rules allow cleared ((none, n), c) done h = h
  after_probe-Tells rules allow cleared ((some e, n), c) done h = cc

  after_ready-Tells :
      (rules : IpRules) (allow cleared : Bool) (given : Remote)
      (r : (Option SecureError × ℕ) × Outgoing)
      → r.0.0 ≡ none
      → Tells none r.1
      → Tells
          (after_ready rules a allow cleared given r).error
          (after_ready rules a allow cleared given r).outgoing
  after_ready-Tells rules allow true given ((none, n), c) done h = h
  after_ready-Tells rules allow false given ((none, n), c) done h = h
  after_ready-Tells rules allow cleared given ((some e, n), c) done h = cc

  ready-Tells :
      (out : Outgoing)
      → AeadLaws a
      → IsFresh a 27 out
      → ((write a (0 ∷ []) out).0.0 ≡ none) × Tells none (write a (0 ∷ []) out).1
  ready-Tells out laws fresh =
      let one = weaker 1 27 out (omega arith) fresh in
      (
        write-willing a (0 ∷ []) out laws one.sized one.willing one.supply,
        status_read a (0 ∷ []) out laws one (omega arith),
      )

-- The errors of the guards are those of a refusal.
Refusing : Result EgressError (Unit {0}) → Type 0
Refusing r = (e : EgressError) → r ≡ err e → Refuses e

refuses_if : (blocked : Bool) → Refusing (fail_if blocked private_destination >> ok tt)
unfolding Refusing
refuses_if true e h = let same : private_destination ≡ e = cc in rw (← same) refl
refuses_if false e h = cc

module _ (rules : IpRules) where
  reject_parsed-Refusing : (ip : Option Bytes) → Refusing (reject_parsed rules ip)
  unfolding Refusing reject_private_ip
  reject_parsed-Refusing none e h = cc
  reject_parsed-Refusing (some ip) e h = refuses_if (is_blocked rules ip) e h

  reject_host-Refusing : (r : Result AddrError (Bytes × Bytes)) → Refusing (reject_host rules r)
  unfolding Refusing
  reject_host-Refusing (err a) e h = let same : bad_destination a ≡ e = cc in rw (← same) refl
  reject_host-Refusing (ok (host, port)) e h = reject_parsed-Refusing (rules.parse_ip host) e h

  reject_private_remote-Refusing : (remote : Remote) → Refusing (reject_private_remote rules remote)
  unfolding Refusing reject_private_remote
  reject_private_remote-Refusing (ip_address ip) e h = reject_parsed-Refusing ip e h
  reject_private_remote-Refusing other_address e h = cc

  unless_allowed-Refusing :
      (allow : Bool) (r : Result EgressError (Unit {0}))
      → Refusing r
      → Refusing (unless_allowed rules allow r)
  unfolding Refusing
  unless_allowed-Refusing true r refusing e h = cc
  unless_allowed-Refusing false r refusing e h = refusing e h

module _ (rules : IpRules) (a : Aead) (allow cleared : Bool) where
  -- The outcome and what the client makes of the status agree.
  abbrev Agrees : Served rules → Type 0
  Agrees s = accepts (check_status (read a 4096 (received s.outgoing)).0) ≡ was_ready s.error

  after_remote-Agrees :
      (remote : Remote) (out : Outgoing) (r : Result EgressError (Unit {0}))
      → AeadLaws a
      → IsFresh a 27 out
      → Refusing r
      → Agrees (after_remote rules a allow cleared remote out r)
  unfolding Refusing
  after_remote-Agrees remote out (err e) laws fresh refusing =
      refuse_stream-Tells a rules allow cleared true e (codes "destination is not allowed") out laws
        fresh (refusing e refl)
  after_remote-Agrees remote out (ok _) laws fresh refusing =
      let (done, told) = ready-Tells a out laws fresh in
      after_ready-Tells a rules allow cleared remote (write a (0 ∷ []) out) done told

  after_dial-Agrees :
      (out : Outgoing) (dialed : Option Remote)
      → AeadLaws a
      → IsFresh a 27 out
      → Agrees (after_dial rules a allow cleared out dialed)
  after_dial-Agrees out none laws fresh =
      refuse_stream-Tells a rules allow cleared false dial_failed (codes "remote dial failed") out
        laws (weaker a 19 27 out (omega arith) fresh) refl
  after_dial-Agrees out (some remote) laws fresh =
      after_remote-Agrees remote out _ laws fresh
        (unless_allowed-Refusing rules allow _ (reject_private_remote-Refusing rules remote))

  after_literal-Agrees :
      (out : Outgoing) (dialed : Option Remote) (r : Result EgressError (Unit {0}))
      → AeadLaws a
      → IsFresh a 27 out
      → Refusing r
      → Agrees (after_literal rules a allow cleared out dialed r)
  unfolding Refusing
  after_literal-Agrees out dialed (err e) laws fresh refusing =
      refuse_stream-Tells a rules allow cleared false e (codes "destination is not allowed") out
        laws fresh (refusing e refl)
  after_literal-Agrees out dialed (ok _) laws fresh refusing =
      after_dial-Agrees out dialed laws fresh

  literal-Refusing :
      (destination : Bytes) → Refusing (reject_private_destination_literal rules destination)
  unfolding reject_private_destination_literal
  literal-Refusing destination = reject_host-Refusing rules (split_host_port destination)

  -- The client reads the status that the server wrote on a new stream as a success exactly when the
  -- server probed, copies to the upstream, or failed in the one step behind the status, the
  -- SetDeadline that clears the deadline: every refusal reaches the client, and nothing else does as
  -- one. (The writes succeed, 27 nonces are there, the cipher is a lawful one.)
  pub check_status-serve_stream :
      (destination : Bytes) (dialed : Option Remote) (out : Outgoing)
      → AeadLaws a
      → IsFresh a 27 out
      → accepts (
          check_status
            (read a 4096
              (received (serve_stream rules a allow cleared destination dialed out).outgoing)).0)
        ≡ was_ready (serve_stream rules a allow cleared destination dialed out).error
  unfolding serve_stream
  check_status-serve_stream destination dialed out laws fresh =
      elim (Bool-cases (bytes_eq destination probe_session_destination)) [
        | inl probe ↦
            let (done, told) = ready-Tells a out laws fresh in
            rw probe (after_probe-Tells a rules allow cleared (write a (0 ∷ []) out) done told)
        | inr stream ↦ rw stream (
            after_literal-Agrees out dialed _ laws fresh
              (unless_allowed-Refusing rules allow _ (literal-Refusing destination)))
      ]
