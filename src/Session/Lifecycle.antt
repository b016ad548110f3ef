-- ===== src/Session/Lifecycle.antt =====
-- pkg/state/session.go: the lifecycle of a session. A nil receiver is `none`.
use chameleon_protocol.Base.{
  ◌≡◌, ◌≢◌, refl, Bool, true, false, ◌&&◌, ◌||◌, not, if◌then◌else◌, List, [], ◌∷◌, Option, none,
  some, arith,
}
use chameleon_protocol.Base.Int.{ℤ, pos, leb_ℤ, ◌≤ℤ◌, eq_of_parts}
use chameleon_protocol.Base.Bytes.{Bytes, bytes_eq, bytes_eq→eq, bytes_eq_refl}
use chameleon_protocol.Session.{webrtc, epoch_at, profile_or_default}

-- The states; `unset` is the empty text of a zero value.
pub data SessionState : Type 0 where
  unset idle key_exchange established rotating closed : SessionState

pub data SessionError : Type 0 where
  session_closed : SessionError

pub record Session : Type 0 where
  pub state : SessionState
  pub epoch : ℤ
  pub profile : Bytes
  pub last_transition : Option ℤ

unfoldable pub new_session : Session
new_session = record { state = idle; epoch = pos 0; profile = webrtc; last_transition = none }

abbrev pub shown : SessionState → SessionState
shown unset = idle
shown idle = idle
shown key_exchange = key_exchange
shown established = established
shown rotating = rotating
shown closed = closed

abbrev pub state_of : Option Session → SessionState
state_of none = closed
state_of (some s) = shown s.state

abbrev pub epoch_of : Option Session → ℤ
epoch_of none = pos 0
epoch_of (some s) = s.epoch

abbrev pub moved : SessionState → ℤ → Session → Session
moved st at s = record s { state = st; last_transition = some at }

-- Begin, at the time `now`.
unfoldable pub begin : ℤ → Session → Option SessionError × Session
begin now s = elim s.state [
  | closed ↦ (some session_closed, s)
  | idle ↦ (none, moved key_exchange now s)
  | unset ↦ (none, moved key_exchange now s)
  | key_exchange ↦ (none, s)
  | established ↦ (none, s)
  | rotating ↦ (none, s)
]

-- The switch of Advance, behind the test for a closed session.
unfoldable pub stepped : ℤ → Session → Session
stepped ts s = elim s.state [
  | unset ↦ moved key_exchange ts s
  | idle ↦ moved key_exchange ts s
  | key_exchange ↦ moved established ts s
  | established ↦ s
  | rotating ↦ s
  | closed ↦ s
]

abbrev pub eq_ℤ : ℤ → ℤ → Bool
eq_ℤ a b = leb_ℤ a b && leb_ℤ b a

-- The rotation of Advance: the state is `rotating` only inside the lock.
unfoldable pub rotated : ℤ → ℤ → Bytes → Session → Session
rotated ts epoch profile s =
    if not (eq_ℤ s.epoch epoch) || not (bytes_eq s.profile profile)
    then record { state = established; epoch = epoch; profile = profile; last_transition = some ts }
    else s

unfoldable pub advance : ℤ → Bytes → ℤ → Session → Option SessionError × Session
advance ts profile period s =
    let next = rotated ts (epoch_at ts period) (profile_or_default profile) (stepped ts s) in
    elim s.state [
      | closed ↦ (some session_closed, s)
      | unset ↦ (none, next)
      | idle ↦ (none, next)
      | key_exchange ↦ (none, next)
      | established ↦ (none, next)
      | rotating ↦ (none, next)
    ]

unfoldable pub close : ℤ → Session → Option SessionError × Session
close now s = (none, moved closed now s)

-- The calls of the public interface, each with the time it reads.
pub data Call : Type 0 where
  begin_call : ℤ → Call
  advance_call : ℤ → Bytes → ℤ → Call
  close_call : ℤ → Call

unfoldable pub call : Call → Session → Option SessionError × Session
call (begin_call now) s = begin now s
call (advance_call ts profile period) s = advance ts profile period s
call (close_call now) s = close now s

-- The session after a sequence of calls.
unfoldable pub run : List Call → Session → Session
run [] s = s
run (c ∷ cs) s = run cs (call c s).1

abbrev pub refused : Call → Bool
refused (begin_call now) = true
refused (advance_call ts profile period) = true
refused (close_call now) = false

call-closed : (c : Call) (s : Session) → s.state ≡ closed → (call c s).1.state ≡ closed
unfolding call begin advance close
call-closed (begin_call now) s h = rw h refl
call-closed (advance_call ts profile period) s h = rw h refl
call-closed (close_call now) s h = refl

run-closed : (cs : List Call) (s : Session) → s.state ≡ closed → (run cs s).state ≡ closed
unfolding run
run-closed [] s h = h
run-closed (c ∷ cs) s h = run-closed cs _ (call-closed c s h)

call-refused :
    (c : Call) (s : Session)
    → s.state ≡ closed
    → (call c s).0 ≡ (if refused c then some session_closed else none)
unfolding call begin advance close
call-refused (begin_call now) s h = rw h refl
call-refused (advance_call ts profile period) s h = rw h refl
call-refused (close_call now) s h = refl

-- Close is final: whatever calls follow it, the session stays closed, and Begin and Advance report
-- that it is.
pub close-final :
    (now : ℤ) (cs : List Call) (c : Call) (s : Session)
    → ((run cs (close now s).1).state ≡ closed)
      × ((call c (run cs (close now s).1)).0 ≡ (if refused c then some session_closed else none))
unfolding close
close-final now cs c s =
    let h = run-closed cs (moved closed now s) refl in
    (h, call-refused c (run cs (moved closed now s)) h)

-- What holds of every session between calls.
abbrev pub IsSettled : Session → Type 0
IsSettled s = (s.state ≢ rotating) × (pos 0 ≤ℤ s.epoch)

epoch_at-nonneg : (ts period : ℤ) → pos 0 ≤ℤ epoch_at ts period
unfolding epoch_at
epoch_at-nonneg ts period = ground arith

begin-IsSettled : (now : ℤ) (s : Session) → IsSettled s → IsSettled (begin now s).1
unfolding begin
begin-IsSettled now s h = ground arith

rotated-IsSettled :
    (ts epoch : ℤ) (profile : Bytes) (s : Session)
    → pos 0 ≤ℤ epoch
    → IsSettled s
    → IsSettled (rotated ts epoch profile s)
unfolding rotated
rotated-IsSettled ts epoch profile s e h = ground arith

stepped-IsSettled : (ts : ℤ) (s : Session) → IsSettled s → IsSettled (stepped ts s)
unfolding stepped
stepped-IsSettled ts s h = ground arith

advance-IsSettled :
    (ts period : ℤ) (profile : Bytes) (s : Session)
    → IsSettled s
    → IsSettled (advance ts profile period s).1
unfolding advance
advance-IsSettled ts period profile s h =
    let n =
      rotated-IsSettled ts (epoch_at ts period) (profile_or_default profile) (stepped ts s)
        (epoch_at-nonneg ts period) (stepped-IsSettled ts s h) in
    ground arith

call-IsSettled : (c : Call) (s : Session) → IsSettled s → IsSettled (call c s).1
unfolding call close
call-IsSettled (begin_call now) s h = begin-IsSettled now s h
call-IsSettled (advance_call ts profile period) s h = advance-IsSettled ts period profile s h
call-IsSettled (close_call now) s (h, e) = (λ c. cc, e)

run-IsSettled : (cs : List Call) (s : Session) → IsSettled s → IsSettled (run cs s)
unfolding run
run-IsSettled [] s h = h
run-IsSettled (c ∷ cs) s h = run-IsSettled cs _ (call-IsSettled c s h)

-- Whatever calls a new session has seen, its state is never the transient `rotating`, and its epoch
-- is not negative.
pub run-new_session : (cs : List Call) → IsSettled (run cs new_session)
unfolding new_session
run-new_session cs = run-IsSettled cs _ (λ c. cc, omega arith)

rotated-names :
    (ts epoch : ℤ) (profile : Bytes) (s : Session)
    → ((rotated ts epoch profile s).epoch ≡ epoch)
      × ((rotated ts epoch profile s).profile ≡ profile)
unfolding rotated
rotated-names ts epoch profile s =
    ground (arith, bytes_eq→eq s.profile profile, eq_of_parts s.epoch epoch)

rotated-again :
    (ts epoch : ℤ) (profile : Bytes) (s : Session)
    → s.epoch ≡ epoch
    → s.profile ≡ profile
    → rotated ts epoch profile s ≡ s
unfolding rotated
rotated-again ts epoch profile s e p = ground (arith, bytes_eq_refl profile)

-- An Advance that is not refused leaves the session in the epoch of its time and in the profile
-- that it was given, webrtc in place of an empty one.
pub advance-names :
    (ts period : ℤ) (profile : Bytes) (s : Session)
    → (advance ts profile period s).0 ≡ none
    → ((advance ts profile period s).1.epoch ≡ epoch_at ts period)
      × ((advance ts profile period s).1.profile ≡ profile_or_default profile)
unfolding advance
advance-names ts period profile s h =
    let (e, p) =
      rotated-names ts (epoch_at ts period) (profile_or_default profile) (stepped ts s) in
    ground arith
