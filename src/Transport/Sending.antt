-- ===== src/Transport/Sending.antt =====
-- Send and SendBurst of pkg/core/normalization.go, with EpochID of pkg/state/rotation.go. HMAC-SHA256
-- is a parameter. Between the writes of the fields no other goroutine is at work: one call is one step.
use chameleon_protocol.Base.{
  ◌-◌, not, ◌&&◌, if◌then◌else◌, Option, none, some, List, [], ◌∷◌, length, Result, ok, err, ◌>>=◌,
  ◌>>◌, fail_if, from_option,
}
use chameleon_protocol.Base.Int.{ℤ, pos, ◌-ℤ◌, ltb_ℤ, to_word64, quot}
use chameleon_protocol.Base.Bytes.{Bytes, bytes_eq, is_empty, put_uint64}
use chameleon_protocol.Crypto.{Aead, CipherError, seal_frame}
use chameleon_protocol.Frame.{FrameError, encode_frame, profile_web_rtc}
use chameleon_protocol.Session.{webrtc, period_or_minute}
use chameleon_protocol.Session.Lifecycle.{SessionError, advance}
use chameleon_protocol.Session.Epoch.{Sync, profile_at}
use chameleon_protocol.Transport.{
  Normalizer, SecurityContext, Transport, SendError, payload_empty, seal_refused, write_refused,
  session_refused, framing, index_panic, shaping_error, normalize_packet, consume_entropy, Moment,
  observation, Shaped, Sent,
}

-- The profile that a memory or a learner proposes, if the condition of profileName holds.
abbrev pub proposed_by_memory : Option Bytes → Option Bytes
proposed_by_memory none = none
proposed_by_memory (some q) = if not (is_empty q) && not (bytes_eq q webrtc) then some q else none

abbrev pub proposed_by_learner : Option Bytes → Option Bytes
proposed_by_learner none = none
proposed_by_learner (some q) = if is_empty q then none else some q

abbrev pub normalizer_profile : Normalizer → Bytes
normalizer_profile n = if is_empty n.profile then profile_web_rtc else n.profile

abbrev pub send_period : Option Sync → ℤ
send_period none = pos 60000000000
send_period (some s) = if ltb_ℤ (pos 0) s.epoch_period then s.epoch_period else pos 60000000000

abbrev pub seal_fault : Result CipherError Bytes → Result SendError Bytes
seal_fault (ok frame) = ok frame
seal_fault (err e) = err seal_refused

abbrev pub seal_payload : Option Aead → Option Bytes → Bytes → Result SendError Bytes
seal_payload none drawn payload = ok payload
seal_payload (some c) drawn payload = seal_fault (seal_frame c drawn payload)

abbrev pub framing_fault : Result FrameError Bytes → Result SendError Bytes
framing_fault (ok frame) = ok frame
framing_fault (err e) = err (framing e)

abbrev pub frame_payload : Bytes → Bytes → Bytes → Result SendError Bytes
frame_payload profile normalized body =
    framing_fault (encode_frame profile normalized (pos (length body)))

abbrev pub stopped : SendError → Transport → ℤ → Sent
stopped e t slept = record {
  error = some e;
  transport = t;
  slept = slept;
  padding = 0;
  written = none;
  observed = none;
}

module _ (hmac : Bytes → Bytes → Bytes) where
  -- Sync.EpochID, which unlike ProfileAt keeps a negative epoch.
  unfoldable pub epoch_id : ℤ → Sync → Bytes
  epoch_id ts s = hmac s.psk (put_uint64 (to_word64 (quot ts (period_or_minute s.epoch_period))))

  abbrev synced_profile : ℤ → Transport → Option Bytes
  synced_profile ts t = elim t.syncer [
    | none ↦ some (normalizer_profile t.normalizer)
    | some s ↦
        if is_empty s.psk
        then some (normalizer_profile t.normalizer)
        else profile_at hmac ts (some s)
  ]

  -- profileName; `none` is a panic.
  unfoldable pub profile_name : Moment → Transport → Option Bytes
  profile_name m t = elim (proposed_by_memory m.memory_profile) [
    | some q ↦ some q
    | none ↦ elim (proposed_by_learner m.decided_profile) [
      | some q ↦ some q
      | none ↦ synced_profile m.profile_time t
    ]
  ]

  -- The part of Send that changes nothing: the profile, the seal_payload payload, the padding, the delay.
  unfoldable pub shaped : Transport → Moment → Bytes → Result SendError Shaped
  unfolding profile_name normalize_packet
  shaped t m payload = do
    fail_if (is_empty payload) payload_empty
    profile ← from_option (profile_name m t) index_panic
    body ← seal_payload t.cipher m.nonce payload
    packet ← shaping_error (normalize_packet t.normalizer m.random body)
    ok (record { profile = profile; body = body; normalized = packet.0; delay = packet.1 })

  abbrev pub with_epoch_id : ℤ → Option Sync → SecurityContext → SecurityContext
  with_epoch_id ts none sec = sec
  with_epoch_id ts (some s) sec = record sec { epoch_id = epoch_id ts s }

  abbrev pub after_session : Moment → Transport → Option SessionError → Option SendError × Transport
  after_session m t (some e) = (some (session_refused e), t)
  after_session m t none = (none, record t { sec = with_epoch_id m.epoch_time t.syncer t.sec })

  -- The block `if t.session != nil`.
  unfoldable pub advanced : Moment → Bytes → Transport → Option SendError × Transport
  advanced m profile t =
      let step = advance m.advance_time profile (send_period t.syncer) t.session in
      after_session m (record t { session = step.1 }) step.0

  -- The one call of Write, and the observation.
  abbrev pub after_framing : Transport → Moment → Bytes → Shaped → ℤ → Result SendError Bytes → Sent
  after_framing t m payload s slept (err e) = stopped e t slept
  after_framing t m payload s slept (ok frame) = record {
    error = if m.taken then none else some write_refused;
    transport = t;
    slept = slept;
    padding = length s.normalized - length s.body;
    written = if m.taken then some frame else none;
    observed = some (observation m s.profile m.taken payload s.normalized);
  }

  abbrev pub after_payment :
      Transport → Moment → Bytes → Shaped → ℤ → Option SendError × SecurityContext → Sent
  after_payment t m payload s slept (some e, sec) = stopped e t slept
  after_payment t m payload s slept (none, sec) =
      after_framing (record t { sec = sec }) m payload s slept
        (frame_payload s.profile s.normalized s.body)

  abbrev pub padding_bytes : Shaped → ℤ
  padding_bytes s = pos (length s.normalized) -ℤ pos (length s.body)

  abbrev pub after_advance : Moment → Bytes → Shaped → Option SendError × Transport → Sent
  after_advance m payload s (some e, t) = stopped e t (pos 0)
  after_advance m payload s (none, t) =
      after_payment t m payload s (if ltb_ℤ (pos 0) s.delay then s.delay else pos 0)
        (consume_entropy (padding_bytes s) t.sec)

  abbrev pub after_shaping : Transport → Moment → Bytes → Result SendError Shaped → Sent
  after_shaping t m payload (err e) = stopped e t (pos 0)
  after_shaping t m payload (ok s) = after_advance m payload s (advanced m s.profile t)

  unfoldable pub send : Transport → Moment → Bytes → Sent
  send t m payload = after_shaping t m payload (shaped t m payload)

  abbrev pub burst_on : Sent → List Sent → Option SendError → List Sent
  burst_on sent rest (some e) = sent ∷ []
  burst_on sent rest none = sent ∷ rest

  -- The loop of SendBurst, one moment for each round: the sends that it made, in order.
  unfoldable pub burst : Transport → List Moment → Bytes → List Sent
  burst t [] payload = []
  burst t (m ∷ ms) payload =
      let sent = send t m payload in burst_on sent (burst sent.transport ms payload) sent.error
