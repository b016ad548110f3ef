-- ===== src/Tunnel/Relay.antt =====
-- The relay of pkg/tunnel/quic_datagram.go: one connected UDP socket for each destination. Its lock
-- is released while it dials, so that a call of upstream is two steps, between which the calls of drop
-- that the readers make can come. A socket is the number of the dial that opened it.
pub mod Sockets
use chameleon_protocol.Base.{
  ℕ, zero, suc, ◌+◌, ◌==◌, leb, Bool, true, false, if◌then◌else◌, Option, none, some, List, [], ◌∷◌,
  ◌++◌, length, Result, ok, err,
}
use chameleon_protocol.Base.Bytes.{Bytes}
use chameleon_protocol.Base.Dict.{Dict, lookup, insert, remove}
use chameleon_protocol.Tunnel.Egress.{
  IpRules, Remote, EgressError, unless_allowed, reject_private_destination_literal,
  reject_private_remote,
}

abbrev pub max_datagram_destinations : ℕ
max_datagram_destinations = 64

-- `opened` are the sockets that are not closed; `flying` are those that a call of upstream has dialed
-- and not yet entered; `dials` counts the dials.
pub record Relay : Type 0 where
  pub upstreams : Dict ℕ
  pub opened : List ℕ
  pub flying : List (Bytes × ℕ)
  pub dials : ℕ

unfoldable pub new_relay : Relay
new_relay = record { upstreams = []; opened = []; flying = []; dials = 0 }

pub data RelayError : Type 0 where
  too_many dial_refused : RelayError
  blocked : EgressError → RelayError

-- Close of one socket.
unfoldable pub close_socket : ℕ → List ℕ → List ℕ
close_socket c [] = []
close_socket c (o ∷ os) = if o == c then os else o ∷ close_socket c os

unfoldable pub close_all : Dict ℕ → List ℕ → List ℕ
unfolding close_socket
close_all [] opened = opened
close_all ((d, c) ∷ m) opened = close_all m (close_socket c opened)

-- What the first half of upstream answers: a socket that is there, an error, or a new one, which the
-- second half must enter.
pub data First : Type 0 where
  existing : ℕ → First
  failed : RelayError → First
  dialed : ℕ → First

module _ (rules : IpRules) (allow_private : Bool) where
  abbrev pub after_remote_check : Bytes → Relay → Result EgressError (Unit {0}) → First × Relay
  after_remote_check d r (err e) = (failed (blocked e), record r { dials = suc r.dials })
  after_remote_check d r (ok u) = (
    dialed r.dials,
    record r { opened = r.dials ∷ r.opened; flying = (d, r.dials) ∷ r.flying; dials = suc r.dials },
  )

  abbrev pub dial_answered : Bytes → Relay → Option Remote → First × Relay
  dial_answered d r none = (failed dial_refused, r)
  dial_answered d r (some remote) =
      after_remote_check d r
        (unless_allowed rules allow_private (reject_private_remote rules remote))

  abbrev pub after_literal_check :
      Bytes → Option Remote → Relay → Result EgressError (Unit {0}) → First × Relay
  after_literal_check d remote r (err e) = (failed (blocked e), r)
  after_literal_check d remote r (ok u) = dial_answered d r remote

  abbrev pub on_lookup : Bytes → Option Remote → Relay → Option ℕ → First × Relay
  on_lookup d remote r (some c) = (existing c, r)
  on_lookup d remote r none =
      if leb max_datagram_destinations (length r.upstreams)
      then (failed too_many, r)
      else after_literal_check d remote r
          (unless_allowed rules allow_private (reject_private_destination_literal rules d))

  -- upstream, up to its second lock; `remote` is what DialContext answers.
  unfoldable pub start_upstream : Bytes → Option Remote → Relay → First × Relay
  start_upstream d remote r = on_lookup d remote r (lookup d r.upstreams)

-- The flying socket of a dial leaves the list.
unfoldable pub landed : ℕ → List (Bytes × ℕ) → List (Bytes × ℕ)
landed c [] = []
landed c ((d, o) ∷ fs) = if o == c then fs else (d, o) ∷ landed c fs

abbrev pub enter_at : Bytes → ℕ → Relay → Option ℕ → Result RelayError ℕ × Relay
enter_at d c r (some other) = (ok other, record r { opened = close_socket c r.opened })
enter_at d c r none =
    if leb max_datagram_destinations (length r.upstreams)
    then (err too_many, record r { opened = close_socket c r.opened })
    else (ok c, record r { upstreams = insert d c r.upstreams })

-- upstream, from its second lock on, for the socket `c` that was dialed for `d`.
unfoldable pub enter_upstream : Bytes → ℕ → Relay → Result RelayError ℕ × Relay
unfolding landed close_socket
enter_upstream d c r = enter_at d c (record r { flying = landed c r.flying }) (lookup d r.upstreams)

abbrev pub drop_at : Bytes → Relay → Option ℕ → Relay
drop_at d r none = r
drop_at d r (some c) = record r {
  upstreams = remove d r.upstreams;
  opened = close_socket c r.opened;
}

unfoldable pub drop_upstream : Bytes → Relay → Relay
unfolding close_socket
drop_upstream d r = drop_at d r (lookup d r.upstreams)

unfoldable pub close_relay : Relay → Relay
unfolding close_all
close_relay r = record r { upstreams = []; opened = close_all r.upstreams r.opened }

-- A step of any goroutine. The second half of upstream comes after a first half that dialed: `enter k`
-- is that of the call whose socket is the `k`-th of those that are flying.
pub data Step : Type 0 where
  start : Bytes → Option Remote → Step
  enter : ℕ → Step
  drop_it : Bytes → Step

unfoldable pub nth : ℕ → List (Bytes × ℕ) → Option (Bytes × ℕ)
nth k [] = none
nth zero (f ∷ fs) = some f
nth (suc k) (f ∷ fs) = nth k fs

abbrev pub enter_flying : Relay → Option (Bytes × ℕ) → Relay
enter_flying r none = r
enter_flying r (some (d, c)) = (enter_upstream d c r).1

unfoldable pub relay_step : IpRules → Bool → Step → Relay → Relay
relay_step rules allow (start d remote) r = (start_upstream rules allow d remote r).1
relay_step rules allow (enter k) r = enter_flying r (nth k r.flying)
relay_step rules allow (drop_it d) r = drop_upstream d r

unfoldable pub run_relay : IpRules → Bool → List Step → Relay → Relay
run_relay rules allow [] r = r
run_relay rules allow (s ∷ ss) r = run_relay rules allow ss (relay_step rules allow s r)
