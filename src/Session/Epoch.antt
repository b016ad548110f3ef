-- ===== src/Session/Epoch.antt =====
-- pkg/state/epoch.go and sync.go: the profile of an epoch.
-- HMAC-SHA256 is a parameter.
use chameleon_protocol.Base.{
  ℕ, ◌+◌, ◌%◌, ◌≡◌, refl, true, false, ◌&&◌, not, ◌==◌, ap, Bool-cases, inl, inr, if◌then◌else◌,
  List, [], ◌∷◌, Option, none, some, arith, get_or,
}
use chameleon_protocol.Base.Int.{ℤ, pos, negsuc, to_word64, eq_of_parts, ◌+ℤ◌, wrap64}
use chameleon_protocol.Base.Bytes.{Bytes, codes, is_empty, put_uint64}
use chameleon_protocol.Session.{webrtc, epoch_at, period_or_minute}
use chameleon_protocol.Session.Lifecycle.{eq_ℤ}

-- profileOrder, and its element: out of range the program panics.
unfoldable pub profile_order : ℕ → Option Bytes
profile_order n =
    if n == 0
    then some webrtc
    else if n == 1
    then some (codes "http3")
    else if n == 2
    then some (codes "gaming")
    else none

-- int(epoch) + start, and its remainder, which has the sign of the sum.
unfoldable pub profile_index : ℤ → Option Bytes
profile_index (pos n) = profile_order (n % 3)
profile_index (negsuc n) = if (n + 1) % 3 == 0 then profile_order 0 else none

pub record Sync : Type 0 where
  pub psk : Bytes
  pub epoch_period : ℤ

unfoldable pub new_sync : Bytes → Sync
new_sync psk = record { psk = psk; epoch_period = pos 60000000000 }

module _ (hmac : Bytes → Bytes → Bytes) where
  -- The choice that epoch.go and sync.go share: the epoch and the first byte of its HMAC.
  unfoldable pub profile_of : Bytes → ℤ → Option Bytes
  profile_of key epoch =
      profile_index
        (wrap64 (epoch +ℤ pos (get_or (hmac key (put_uint64 (to_word64 epoch))) 0 0 % 3)))

  -- ProfileAt; a nil receiver is `none`.
  unfoldable pub profile_at : ℤ → Option Sync → Option Bytes
  profile_at ts none = some webrtc
  profile_at ts (some s) =
      if is_empty s.psk then some webrtc else profile_of s.psk (epoch_at ts s.epoch_period)

  pub record EpochState : Type 0 where
    pub period : ℤ
    pub last_epoch : ℤ
    pub profile : Bytes

  unfoldable pub new_epoch_state : ℤ → EpochState
  new_epoch_state period = record {
    period = period_or_minute period;
    last_epoch = pos 0;
    profile = [];
  }

  abbrev pub epoch_key : Bytes
  epoch_key = codes "chameleon-epoch"

  kept : ℤ → Option Bytes → EpochState → Option (Bytes × EpochState)
  kept epoch none s = none
  kept epoch (some profile) s = some (profile, record s { last_epoch = epoch; profile = profile })

  -- Current; `none` is a panic.
  unfoldable pub current : ℤ → EpochState → Option (Bytes × EpochState)
  unfolding kept
  current ts s =
      let epoch = epoch_at ts s.period in
      if eq_ℤ epoch s.last_epoch && not (is_empty s.profile)
      then some (s.profile, s)
      else kept epoch (profile_of epoch_key epoch) s

  -- The cache agrees with the choice.
  abbrev pub IsCached : EpochState → Type 0
  IsCached s = (is_empty s.profile ≡ false) → profile_of epoch_key s.last_epoch ≡ some s.profile

  -- What a call of Current that does not panic answers and leaves.
  Agrees : ℤ → ℤ → Option (Bytes × EpochState) → Type 0
  Agrees epoch period none = profile_of epoch_key epoch ≡ none
  Agrees epoch period (some (q, s)) =
      IsCached s × (s.period ≡ period) × (profile_of epoch_key epoch ≡ some q)

  kept-Agrees :
      (epoch : ℤ) (p : Option Bytes) (s : EpochState)
      → profile_of epoch_key epoch ≡ p
      → Agrees epoch s.period (kept epoch p s)
  unfolding kept Agrees
  kept-Agrees epoch none s h = h
  kept-Agrees epoch (some profile) s h = (λ e. h, refl, h)

  eq_ℤ→eq : (a b : ℤ) → eq_ℤ a b ≡ true → a ≡ b
  eq_ℤ→eq a b h = eq_of_parts a b (ground arith)

  current-Agrees :
      (ts : ℤ) (s : EpochState) → IsCached s → Agrees (epoch_at ts s.period) s.period (current ts s)
  unfolding current Agrees
  current-Agrees ts s c =
      elim (Bool-cases (eq_ℤ (epoch_at ts s.period) s.last_epoch && not (is_empty s.profile))) [
        | inl hit ↦ rw hit (
            let here = c (ground arith) in
            (c, refl, rw (eq_ℤ→eq (epoch_at ts s.period) s.last_epoch (ground arith)) here))
        | inr miss ↦ rw miss (kept-Agrees (epoch_at ts s.period) _ s refl)
      ]

  -- The answers to calls of Current at a sequence of times, up to a panic.
  unfoldable pub currents : List ℤ → EpochState → List (Option Bytes)
  currents [] s = []
  currents (ts ∷ later) s = elim (current ts s) [
    | none ↦ none ∷ []
    | some r ↦ some r.0 ∷ currents later r.1
  ]

  unfoldable pub answered : Option Bytes → List (Option Bytes) → List (Option Bytes)
  answered none later = none ∷ []
  answered (some q) later = some q ∷ later

  -- The same from Sync.ProfileAt.
  unfoldable pub profiles_at : List ℤ → Sync → List (Option Bytes)
  profiles_at [] s = []
  profiles_at (ts ∷ later) s = answered (profile_at ts (some s)) (profiles_at later s)

  abbrev sync_of : ℤ → Sync
  sync_of period = record { psk = epoch_key; epoch_period = period }

  profiles_at-cons :
      (ts period : ℤ) (later : List ℤ) (r : Option (Bytes × EpochState))
      → Agrees (epoch_at ts period) period r
      → ((q : Bytes) (s : EpochState)
          → IsCached s
          → s.period ≡ period
          → currents later s ≡ profiles_at later (sync_of period))
      → (elim r [ none ↦ none ∷ [] | some r ↦ some r.0 ∷ currents later r.1 ])
        ≡ answered (profile_of epoch_key (epoch_at ts period)) (profiles_at later (sync_of period))
  unfolding Agrees answered
  profiles_at-cons ts period later none a ih = rw a refl
  profiles_at-cons ts period later (some (q, s)) (c, p, e) ih =
      rw e (ap (λ l. some q ∷ l) (ih q s c p))

  currents-IsCached :
      (times : List ℤ) (period : ℤ) (s : EpochState)
      → IsCached s
      → s.period ≡ period
      → currents times s ≡ profiles_at times (sync_of period)
  unfolding currents profiles_at profile_at
  currents-IsCached [] period s c p = refl
  currents-IsCached (ts ∷ later) period s c p =
      profiles_at-cons ts period later (current ts s) (rw (← p) (current-Agrees ts s c))
        (λ q s' c' p'. currents-IsCached later period s' c' p')

  -- The epoch controller is Sync with its own key: at any sequence of times, in any order and with
  -- repetitions, Current answers what ProfileAt answers for the shared secret "chameleon-epoch" and
  -- the same period. The profile that Current caches is never a stale one.
  pub currents-profiles_at :
      (period : ℤ) (times : List ℤ)
      → currents times (new_epoch_state period)
        ≡ profiles_at times (record { psk = epoch_key; epoch_period = period_or_minute period })
  unfolding new_epoch_state
  currents-profiles_at period times = currents-IsCached times _ _ (λ e. cc) refl
