-- ===== src/Tunnel/Relay/Sockets.antt =====
-- No socket of the relay of pkg/tunnel/quic_datagram.go is lost.
use mathlib.Core.Path.{subst}
use chameleon_protocol.Base.{
  ℕ, zero, suc, ◌+◌, ◌-◌, ◌≤◌, ◌≡◌, refl, ◌∙◌, arith, ◌==◌, ==_iff, leb, leb-false→lt, Bool, true,
  false, Bool-cases, inl, inr, if◌then◌else◌, Option, none, some, List, [], ◌∷◌, length, Result, ok,
  err,
}
use chameleon_protocol.Base.Bytes.{Bytes, bytes_eq, bytes_eq_iff}
use chameleon_protocol.Base.Dict.{
  Dict, lookup, insert, remove, lookup-insert, lookup-remove, length-insert, length-remove,
}
use chameleon_protocol.Tunnel.Egress.{IpRules, Remote, EgressError}
use chameleon_protocol.Tunnel.Relay.{
  Relay, new_relay, close_socket, close_all, landed, nth, Step, start, enter, drop_it, relay_step,
  run_relay, start_upstream, enter_upstream, enter_at, enter_flying, drop_upstream, drop_at,
  close_relay, after_remote_check, after_literal_check, on_lookup, max_datagram_destinations,
}

abbrev one_if : Bool → ℕ
one_if true = 1
one_if false = 0

-- How often a socket occurs.
unfoldable pub hits : ℕ → List ℕ → ℕ
hits x [] = 0
hits x (o ∷ os) = one_if (o == x) + hits x os

unfoldable pub sockets : Dict ℕ → List ℕ
sockets [] = []
sockets ((d, c) ∷ m) = c ∷ sockets m

-- Every key of a map once.
unfoldable pub Once : Dict ℕ → Type 0
Once [] = Unit
Once ((d, c) ∷ m) = (lookup d m ≡ none) × Once m

hits-close_socket :
    (x c : ℕ) (os : List ℕ) → hits x (close_socket c os) ≡ hits x os - one_if (c == x)
unfolding hits close_socket
hits-close_socket x c [] = ground arith
hits-close_socket x c (o ∷ os) = ground (arith, hits-close_socket x c os)

hits-close_all :
    (x : ℕ) (m : Dict ℕ) (os : List ℕ) → hits x (close_all m os) ≡ hits x os - hits x (sockets m)
unfolding hits close_all sockets
hits-close_all x [] os = omega arith
hits-close_all x ((d, c) ∷ m) os =
    omega (arith, hits-close_all x m (close_socket c os), hits-close_socket x c os)

hits-insert :
    (x c : ℕ) (d : Bytes) (m : Dict ℕ)
    → lookup d m ≡ none
    → hits x (sockets (insert d c m)) ≡ hits x (sockets m) + one_if (c == x)
unfolding hits sockets lookup insert
hits-insert x c d [] h = omega arith
hits-insert x c d ((e, o) ∷ m) h = ground (arith, hits-insert x c d m)

remove-absent : (d : Bytes) (m : Dict ℕ) → lookup d m ≡ none → remove d m ≡ m
unfolding lookup remove
remove-absent d [] h = refl
remove-absent d ((e, o) ∷ m) h = ground (arith, remove-absent d m)

hits-remove :
    (x c : ℕ) (d : Bytes) (m : Dict ℕ)
    → Once m
    → lookup d m ≡ some c
    → hits x (sockets (remove d m)) + one_if (c == x) ≡ hits x (sockets m)
unfolding hits sockets lookup remove Once
hits-remove x c d [] o h = cc
hits-remove x c d ((e, w) ∷ m) o h = elim (Bool-cases (bytes_eq e d)) [
  | inl same ↦
      let here : w ≡ c = (let s = rw same at h in cc) in
      let there : remove d m ≡ m = remove-absent d m (rw ((bytes_eq_iff e d).0 same) at o.0) in
      rw (same, there, here) (omega arith)
  | inr other ↦ rw other (omega (arith, hits-remove x c d m o.1 (rw other at h)))
]

none_either : (b : Bool) (o : Option ℕ) → o ≡ none → (if b then none else o) ≡ none
none_either true o h = refl
none_either false o h = h

not_same : (d e : Bytes) → bytes_eq e d ≡ false → bytes_eq d e ≡ false
not_same d e h = ground (arith, bytes_eq_iff d e, bytes_eq_iff e d)

Once-insert : (c : ℕ) (d : Bytes) (m : Dict ℕ) → Once m → Once (insert d c m)
unfolding Once insert lookup
Once-insert c d [] o = (refl, tt)
Once-insert c d ((e, w) ∷ m) o = elim (Bool-cases (bytes_eq e d)) [
  | inl same ↦ rw same (subst (λ k. lookup k m ≡ none) ((bytes_eq_iff e d).0 same) o.0, o.1)
  | inr other ↦
      rw other (lookup-insert d e c m ∙ rw (not_same d e other) o.0, Once-insert c d m o.1)
]

Once-remove : (d : Bytes) (m : Dict ℕ) → Once m → Once (remove d m)
unfolding Once remove
Once-remove d [] o = tt
Once-remove d ((e, w) ∷ m) o = elim (Bool-cases (bytes_eq e d)) [
  | inl same ↦ rw same (Once-remove d m o.1)
  | inr other ↦
      rw other
        (lookup-remove d e m ∙ none_either (bytes_eq d e) (lookup e m) o.0, Once-remove d m o.1)
]

unfoldable pub ids : List (Bytes × ℕ) → List ℕ
ids [] = []
ids ((d, c) ∷ fs) = c ∷ ids fs

hits-landed :
    (x c k : ℕ) (d : Bytes) (fs : List (Bytes × ℕ))
    → nth k fs ≡ some (d, c)
    → hits x (ids (landed c fs)) + one_if (c == x) ≡ hits x (ids fs)
unfolding hits ids landed nth
hits-landed x c k d [] h = cc
hits-landed x c zero d ((e, o) ∷ fs) h =
    let same : o ≡ c = cc in
    let test : (o == c) ≡ true = (==_iff o c).1 same in rw test (rw same (omega arith))
hits-landed x c (suc k) d ((e, o) ∷ fs) h = elim (Bool-cases (o == c)) [
  | inl same ↦ rw same (rw ((==_iff o c).0 same) (omega arith))
  | inr other ↦ rw other (omega (arith, hits-landed x c k d fs h))
]

-- The state of a relay between two steps: the sockets that are open are those of the map and those
-- that are flying, each as often; every destination has one entry, and there are 64 of them at most.
pub record IsTidy (r : Relay) : Type 0 where
  pub keyed : Once r.upstreams
  pub balanced : (x : ℕ) → hits x r.opened ≡ hits x (sockets r.upstreams) + hits x (ids r.flying)
  pub bounded : length r.upstreams ≤ max_datagram_destinations

new_relay-IsTidy : IsTidy new_relay
unfolding new_relay Once hits sockets ids
new_relay-IsTidy = record { keyed = tt; balanced = λ x. omega arith; bounded = omega arith }

drop_upstream-IsTidy : (d : Bytes) (r : Relay) → IsTidy r → IsTidy (drop_upstream d r)
unfolding drop_upstream
drop_upstream-IsTidy d r h = dropped (lookup d r.upstreams) refl
  where
    dropped : (o : Option ℕ) → lookup d r.upstreams ≡ o → IsTidy (drop_at d r o)
    dropped none e = h
    dropped (some c) e = record {
      keyed = Once-remove d r.upstreams h.keyed;
      balanced = λ x. omega (
        arith,
        hits-close_socket x c r.opened,
        hits-remove x c d r.upstreams h.keyed e,
        h.balanced x,
      );
      bounded = omega (arith, length-remove d r.upstreams, h.bounded);
    }

enter_at-IsTidy :
    (d : Bytes) (c k : ℕ) (r : Relay) (o : Option ℕ)
    → nth k r.flying ≡ some (d, c)
    → lookup d r.upstreams ≡ o
    → IsTidy r
    → IsTidy (enter_at d c (record r { flying = landed c r.flying }) o).1
enter_at-IsTidy d c k r (some other) f e h = record {
  keyed = h.keyed;
  balanced = λ x.
      omega (arith, hits-close_socket x c r.opened, hits-landed x c k d r.flying f, h.balanced x);
  bounded = h.bounded;
}
enter_at-IsTidy d c k r none f e h =
    elim (Bool-cases (leb max_datagram_destinations (length r.upstreams))) [
      | inl full ↦ rw full (record {
        keyed = h.keyed;
        balanced = λ x.
            omega
              (arith, hits-close_socket x c r.opened, hits-landed x c k d r.flying f, h.balanced x);
        bounded = h.bounded;
      })
      | inr room ↦ rw room (record {
        keyed = Once-insert c d r.upstreams h.keyed;
        balanced = λ x.
            omega (
              arith,
              hits-insert x c d r.upstreams e,
              hits-landed x c k d r.flying f,
              h.balanced x,
            );
        bounded = omega (arith, length-insert d c r.upstreams e, leb-false→lt _ _ room);
      })
    ]

enter_flying-IsTidy :
    (k : ℕ) (r : Relay) (f : Option (Bytes × ℕ))
    → nth k r.flying ≡ f
    → IsTidy r
    → IsTidy (enter_flying r f)
unfolding enter_upstream
enter_flying-IsTidy k r none e h = h
enter_flying-IsTidy k r (some (d, c)) e h = enter_at-IsTidy d c k r (lookup d r.upstreams) e refl h

module _ (rules : IpRules) (allow : Bool) where
  after_remote_check-IsTidy :
      (d : Bytes) (r : Relay) (e : Result EgressError (Unit {0}))
      → IsTidy r
      → IsTidy (after_remote_check rules allow d r e).1
  unfolding hits ids
  after_remote_check-IsTidy d r (err e) h = record {
    keyed = h.keyed;
    balanced = h.balanced;
    bounded = h.bounded;
  }
  after_remote_check-IsTidy d r (ok u) h = record {
    keyed = h.keyed;
    balanced = λ x. omega (arith, h.balanced x);
    bounded = h.bounded;
  }

  after_literal_check-IsTidy :
      (d : Bytes) (remote : Option Remote) (r : Relay) (e : Result EgressError (Unit {0}))
      → IsTidy r
      → IsTidy (after_literal_check rules allow d remote r e).1
  after_literal_check-IsTidy d remote r (err e) h = h
  after_literal_check-IsTidy d none r (ok u) h = h
  after_literal_check-IsTidy d (some remote) r (ok u) h = after_remote_check-IsTidy d r _ h

  on_lookup-IsTidy :
      (d : Bytes) (remote : Option Remote) (r : Relay) (o : Option ℕ)
      → IsTidy r
      → IsTidy (on_lookup rules allow d remote r o).1
  on_lookup-IsTidy d remote r (some c) h = h
  on_lookup-IsTidy d remote r none h =
      elim (Bool-cases (leb max_datagram_destinations (length r.upstreams))) [
        | inl full ↦ rw full h
        | inr room ↦ rw room (after_literal_check-IsTidy d remote r _ h)
      ]

  relay_step-IsTidy : (s : Step) (r : Relay) → IsTidy r → IsTidy (relay_step rules allow s r)
  unfolding relay_step start_upstream
  relay_step-IsTidy (start d remote) r h = on_lookup-IsTidy d remote r (lookup d r.upstreams) h
  relay_step-IsTidy (enter k) r h = enter_flying-IsTidy k r (nth k r.flying) refl h
  relay_step-IsTidy (drop_it d) r h = drop_upstream-IsTidy d r h

  run_relay-IsTidy : (ss : List Step) (r : Relay) → IsTidy r → IsTidy (run_relay rules allow ss r)
  unfolding run_relay
  run_relay-IsTidy [] r h = h
  run_relay-IsTidy (s ∷ ss) r h =
      run_relay-IsTidy ss (relay_step rules allow s r) (relay_step-IsTidy s r h)

  -- Whatever requests, dials and drops a new relay has seen, in whatever order its goroutines took
  -- their steps: it has 64 destinations at most, each once; a socket is open as often as it stands in
  -- the map or waits to be entered; and when the relay is closed only the latter are open.
  pub run_relay-sockets :
      (ss : List Step) (x : ℕ)
      → (length (run_relay rules allow ss new_relay).upstreams ≤ 64)
        × Once (run_relay rules allow ss new_relay).upstreams
        × (hits x (run_relay rules allow ss new_relay).opened
            ≡ hits x (sockets (run_relay rules allow ss new_relay).upstreams)
              + hits x (ids (run_relay rules allow ss new_relay).flying))
        × (hits x (close_relay (run_relay rules allow ss new_relay)).opened
            ≡ hits x (ids (run_relay rules allow ss new_relay).flying))
  unfolding close_relay
  run_relay-sockets ss x =
      let r = run_relay rules allow ss new_relay in
      let h = run_relay-IsTidy ss new_relay new_relay-IsTidy in
      (
        h.bounded,
        h.keyed,
        h.balanced x,
        omega (arith, hits-close_all x r.upstreams r.opened, h.balanced x),
      )
