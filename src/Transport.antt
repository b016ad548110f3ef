-- ===== src/Transport.antt =====
-- pkg/core/profile.go and normalization.go: the plain transport, which shapes a packet, frames it and
-- writes it. The session is there from the start, so no receiver of a method is nil.
pub mod Sending
pub mod Shaping
pub mod Budget
pub mod Delivery
use chameleon_protocol.Base.{
  ℕ, zero, suc, Bool, true, false, not, ◌&&◌, ◌||◌, ◌==◌, if◌then◌else◌, Option, none, some, List,
  [], ◌∷◌, ◌++◌, length, Result, ok, err, ◌>>=◌, ◌>>◌, fail_if, from_option,
}
use chameleon_protocol.Base.Int.{ℤ, pos, ◌-ℤ◌, ltb_ℤ, leb_ℤ, saturate64, to_word64, quot}
use chameleon_protocol.Base.Int64.{sub64}
use chameleon_protocol.Base.Bytes.{Bytes, codes, bytes_eq, is_empty, put_uint64}
use chameleon_protocol.Crypto.{Aead, CipherError, seal_frame}
use chameleon_protocol.Frame.{
  FrameError, encode_frame, profile_web_rtc, profile_http3, profile_gaming,
}
use chameleon_protocol.Session.{webrtc, period_or_minute}
use chameleon_protocol.Session.Lifecycle.{Session, SessionError, new_session, advance}
use chameleon_protocol.Session.Epoch.{Sync, new_sync, profile_at}
use chameleon_protocol.Morph.{
  PaddingConfig, JitterConfig, Random, MorphError, is_zero, validate_padding, validate_jitter,
  target_size, normalize, next_delay,
}

-- The configuration, less the paths of the stores and the learner.
pub record Config : Type 0 where
  pub profile : Bytes
  pub padding : PaddingConfig
  pub jitter : JitterConfig
  pub shared_secret : Bytes
  pub epoch_period : ℤ

abbrev pub padding_between : ℕ → ℕ → PaddingConfig
padding_between low high = record { min_pad = pos low; max_pad = pos high; entropy_budget = pos 0 }

abbrev pub jitter_up_to : ℕ → ℕ → JitterConfig
jitter_up_to base most = record { base_delay = pos base; min_jitter = pos 0; max_jitter = pos most }

-- Defaults, whose other fields are zero values.
unfoldable pub defaults : Bytes → PaddingConfig × JitterConfig
defaults profile =
    if bytes_eq profile profile_web_rtc
    then (padding_between 32 128, jitter_up_to 1000000 4000000)
    else if bytes_eq profile profile_http3
    then (padding_between 16 96, jitter_up_to 500000 2000000)
    else if bytes_eq profile profile_gaming
    then (padding_between 64 256, jitter_up_to 2000000 10000000)
    else (padding_between 8 32, jitter_up_to 1000000 4000000)

abbrev pub is_unset_padding : PaddingConfig → Bool
is_unset_padding c = is_zero c.min_pad && is_zero c.max_pad && is_zero c.entropy_budget

abbrev pub is_unset_jitter : JitterConfig → Bool
is_unset_jitter c = is_zero c.base_delay && is_zero c.min_jitter && is_zero c.max_jitter

unfoldable pub resolve_profile_defaults : Config → Config
unfolding defaults
resolve_profile_defaults cfg =
    let profile = if is_empty cfg.profile then profile_web_rtc else cfg.profile in
    record cfg {
      profile = profile;
      padding = if is_unset_padding cfg.padding then (defaults profile).0 else cfg.padding;
      jitter = if is_unset_jitter cfg.jitter then (defaults profile).1 else cfg.jitter;
    }

pub record Normalizer : Type 0 where
  pub padding : PaddingConfig
  pub jitter : JitterConfig
  pub profile : Bytes

unfoldable pub new_normalizer : Config → Result MorphError Normalizer
unfolding resolve_profile_defaults validate_padding validate_jitter
new_normalizer given = do
  let cfg = resolve_profile_defaults given
  validate_padding cfg.padding
  validate_jitter cfg.jitter
  ok (record { padding = cfg.padding; jitter = cfg.jitter; profile = cfg.profile })

unfoldable pub normalize_packet : Normalizer → Random → Bytes → Result MorphError (Bytes × ℤ)
unfolding target_size normalize next_delay
normalize_packet n random payload = do
  target ← target_size n.padding random.size_below (pos (length payload))
  normalized ← normalize n.padding random.padding_of payload target
  delay ← next_delay n.jitter random.delay_below
  ok (normalized, delay)

-- SecurityContext of pkg/state/session.go.
pub record SecurityContext : Type 0 where
  pub epoch_id : Bytes
  pub entropy_budget : ℤ
  pub entropy_limited : Bool

pub record Transport : Type 0 where
  pub normalizer : Normalizer
  pub cipher : Option Aead
  pub syncer : Option Sync
  pub session : Session
  pub sec : SecurityContext

pub data SendError : Type 0 where
  payload_empty count_not_positive seal_refused entropy_exceeded write_refused : SendError
  shaping : MorphError → SendError
  session_refused : SessionError → SendError
  framing : FrameError → SendError
  index_panic : SendError

-- NewTransport, with `new_cipher` for the cipher of a secret (pkg/crypto), which can fail.
abbrev pub first_security : ℤ → SecurityContext
first_security budget =
    if ltb_ℤ (pos 0) budget
    then record { epoch_id = []; entropy_budget = budget; entropy_limited = true }
    else record { epoch_id = []; entropy_budget = pos 0; entropy_limited = false }

abbrev pub sync_for : Bytes → ℤ → Option Sync
sync_for secret period =
    if is_empty secret
    then none
    else if ltb_ℤ (pos 0) period
    then some (record { psk = secret; epoch_period = period })
    else some (new_sync secret)

abbrev pub shaping_error {ℓ} : {A : Type ℓ} → Result MorphError A → Result SendError A
shaping_error (ok a) = ok a
shaping_error (err e) = err (shaping e)

-- `new_cipher` stands for NewCipher, whose secret is not empty here.
unfoldable pub new_transport : (Bytes → Result SendError Aead) → Config → Result SendError Transport
new_transport new_cipher cfg = do
  normalizer ← shaping_error (new_normalizer cfg)
  cipher ← cipher_for cfg.shared_secret
  ok (record {
    normalizer = normalizer;
    cipher = cipher;
    syncer = sync_for cfg.shared_secret cfg.epoch_period;
    session = new_session;
    sec = first_security normalizer.padding.entropy_budget;
  })
  where
    cipher_for : Bytes → Result SendError (Option Aead)
    cipher_for secret = if is_empty secret then ok none else (do c ← new_cipher secret; ok (some c))

-- UpdateCipher
unfoldable pub update_cipher : Option Aead → Transport → Transport
update_cipher c t = record t { cipher = c }

-- consumeEntropy
unfoldable pub consume_entropy : ℤ → SecurityContext → Option SendError × SecurityContext
consume_entropy padding_bytes sec =
    if leb_ℤ padding_bytes (pos 0) || not sec.entropy_limited
    then (none, sec)
    else if ltb_ℤ sec.entropy_budget padding_bytes
    then (some entropy_exceeded, sec)
    else (none, record sec { entropy_budget = sub64 sec.entropy_budget padding_bytes })

-- What one call of Send meets: the times that it reads; what the session memory (`none` if there is
-- none) and the learner (`none` if it has no history) propose; a nonce; the randomness of the shaping;
-- and whether the connection's Write reports no error.
pub record Moment : Type 0 where
  pub started : ℤ
  pub profile_time : ℤ
  pub advance_time : ℤ
  pub epoch_time : ℤ
  pub finished : ℤ
  pub memory_profile : Option Bytes
  pub decided_profile : Option Bytes
  pub nonce : Option Bytes
  pub random : Random
  pub taken : Bool

-- The fields of adaptive.Observation that are not constants; the lengths stand for the throughput
-- and the load, which are these numbers as floats.
pub record Observed : Type 0 where
  pub profile : Bytes
  pub success : Bool
  pub latency : ℤ
  pub payload_len : ℕ
  pub normalized_len : ℕ
  pub at : ℤ

abbrev pub observation : Moment → Bytes → Bool → Bytes → Bytes → Observed
observation m profile success payload normalized = record {
  profile = profile;
  success = success;
  latency = saturate64 (m.finished -ℤ m.started);
  payload_len = length payload;
  normalized_len = length normalized;
  at = m.finished;
}

pub record Shaped : Type 0 where
  pub profile : Bytes
  pub body : Bytes
  pub normalized : Bytes
  pub delay : ℤ

-- `written` is the packet that the connection took.
pub record Sent : Type 0 where
  pub error : Option SendError
  pub transport : Transport
  pub slept : ℤ
  pub padding : ℕ
  pub written : Option Bytes
  pub observed : Option Observed
