-- ===== src/Carrier.antt =====
-- pkg/carrier/engine.go: the memory of route attempts, and the choice of a carrier. float64 is a
-- parameter with the operations that the code uses, and so is strings.ToLower. A zero time.Time is
-- `none`. The store's file is not modelled; whether it could be written is an argument.
pub mod Memory
pub mod Choice
use mathlib.Core.List.{map}
use chameleon_protocol.Base.{
  ℕ, ◌-◌, ◌+◌, ◌%◌, ◌^◌, ◌==◌, ◌&&◌, ◌||◌, not, leb, ltb, Bool, true, false, if◌then◌else◌, List,
  [], ◌∷◌, ◌++◌, Option, none, some, Result, ok, err,
}
use chameleon_protocol.Base.Int.{
  ℤ, pos, negsuc, ◌+ℤ◌, ◌-ℤ◌, ◌*ℤ◌, ltb_ℤ, leb_ℤ, quot, wrap64, of_word64,
}
use chameleon_protocol.Base.Bytes.{Bytes, codes, is_empty, bytes_eq}
use chameleon_protocol.Base.Dict.{Dict, lookup, insert}
use chameleon_protocol.Net.Text.{trim_space}
use chameleon_protocol.Tunnel.Replay.{sub_time}

-- float64: `lit n` is n hundredths.
pub record Floats : Type 1 where
  pub float : Type 0
  pub lit : ℕ → float
  pub of_int : ℤ → float
  pub add : float → float → float
  pub sub : float → float → float
  pub mul : float → float → float
  pub div : float → float → float
  pub least : float → float → float
  pub exp : float → float
  pub minus_ln2 : float
  pub less : float → float → Bool
  pub same : float → float → Bool

pub data Kind : Type 0 where
  direct chameleon_udp chameleon_quic chameleon_tcp chameleon_tls relay : Kind

pub record Context : Type 0 where
  pub network_id : Bytes
  pub destination : Bytes
  pub traffic_class : Bytes
  pub protocol : Bytes

pub data CarrierError : Type 0 where
  empty_carrier no_compatible not_saved : CarrierError

module _ (F : Floats) where
  pub record Candidate : Type 0 where
    pub name : Bytes
    pub kind : Kind
    pub endpoint : Bytes
    pub cost : F.float
    pub supports_tcp : Bool
    pub supports_udp : Bool
    pub requires_external : Bool

  pub record Observation : Type 0 where
    pub context : Context
    pub carrier : Bytes
    pub success : Bool
    pub latency : ℤ
    pub throughput : F.float
    pub at : Option ℤ

  pub record Stats : Type 0 where
    pub attempts : ℕ
    pub successes : ℕ
    pub failures : ℕ
    pub failure_streak : ℕ
    pub avg_latency : ℤ
    pub avg_jitter : ℤ
    pub last_latency : ℤ
    pub avg_throughput : F.float
    pub last_success : Option ℤ
    pub last_failure : Option ℤ
    pub last_observation : Option ℤ

  abbrev pub zero_stats : Stats
  zero_stats = record {
    attempts = 0;
    successes = 0;
    failures = 0;
    failure_streak = 0;
    avg_latency = pos 0;
    avg_jitter = pos 0;
    last_latency = pos 0;
    avg_throughput = F.lit 0;
    last_success = none;
    last_failure = none;
    last_observation = none;
  }

  -- Entries, by context key and by carrier.
  abbrev pub Entries : Type 0
  Entries = Dict (Dict Stats)

  abbrev pub succ64 : ℕ → ℕ
  succ64 n = (n + 1) % 2 ^ 64

  unfoldable pub running_duration : ℤ → ℤ → ℕ → ℤ
  running_duration current next count =
      if leb count 1
      then next
      else wrap64
          (quot (wrap64 (wrap64 (current *ℤ of_word64 (count - 1)) +ℤ next)) (of_word64 count))

  unfoldable pub running_float : F.float → F.float → ℕ → F.float
  running_float current next count =
      if leb count 1
      then next
      else F.div (F.add (F.mul current (F.of_int (pos (count - 1)))) next) (F.of_int (pos count))

  -- The counters of Observe.
  unfoldable pub counted : Bool → Option ℤ → Stats → Stats
  counted true at s = record s {
    attempts = succ64 s.attempts;
    successes = succ64 s.successes;
    failure_streak = 0;
    last_success = at;
    last_observation = at;
  }
  counted false at s = record s {
    attempts = succ64 s.attempts;
    failures = succ64 s.failures;
    failure_streak = succ64 s.failure_streak;
    last_failure = at;
    last_observation = at;
  }

  abbrev pub jitter : ℤ → ℤ → ℤ
  jitter latency last =
      let d = wrap64 (latency -ℤ last) in if ltb_ℤ d (pos 0) then wrap64 (pos 0 -ℤ d) else d

  -- Its running averages, of counters that are up to date.
  unfoldable pub averaged : ℤ → F.float → Stats → Stats
  averaged latency throughput s =
      let timed = record s {
        avg_jitter =
            if ltb_ℤ (pos 0) s.last_latency
            then running_duration s.avg_jitter (jitter latency s.last_latency) s.attempts
            else s.avg_jitter;
        last_latency = latency;
        avg_latency = running_duration s.avg_latency latency s.attempts;
      } in
      let t = if ltb_ℤ (pos 0) latency then timed else s in
      if F.less (F.lit 0) throughput
      then record t { avg_throughput = running_float t.avg_throughput throughput t.attempts }
      else t

  abbrev pub or_default : Bytes → Bytes → Bytes
  or_default part default = if is_empty part then default else part

  abbrev pub or_empty {ℓ} : {V : Type ℓ} → Option (Dict V) → Dict V
  or_empty none = []
  or_empty (some m) = m

  abbrev pub or_zero : Option Stats → Stats
  or_zero none = zero_stats
  or_zero (some s) = s

  abbrev pub or_now : ℤ → Option ℤ → Option ℤ
  or_now now none = some now
  or_now now (some t) = some t

  abbrev pub saved : Bool → Option CarrierError
  saved true = none
  saved false = some not_saved

  module _ (lower : Bytes → Bytes) where
    unfoldable pub context_key : Context → Bytes
    context_key c =
        or_default (lower (trim_space c.network_id)) (codes "unknown-network")
        ++ (b'|' ∷ or_default (lower (trim_space c.destination)) (codes "*"))
        ++ (b'|' ∷ or_default (lower (trim_space c.traffic_class)) (codes "default"))
        ++ (b'|' ∷ or_default (lower (trim_space c.protocol)) (codes "tcp"))

    -- The statistics of a carrier in a context.
    abbrev pub stats_of : Context → Bytes → Entries → Option Stats
    stats_of c carrier entries = lookup carrier (or_empty (lookup (context_key c) entries))

    -- Observe
    unfoldable pub observe : Observation → ℤ → Bool → Entries → Option CarrierError × Entries
    observe o now saves entries =
        if is_empty (trim_space o.carrier)
        then (some empty_carrier, entries)
        else let before = or_zero (stats_of o.context o.carrier entries) in
          let after =
            averaged o.latency o.throughput (counted o.success (or_now now o.at) before) in
          (
            saved saves,
            insert (context_key o.context)
                (insert o.carrier after (or_empty (lookup (context_key o.context) entries)))
                entries,
          )

    -- filterCompatible
    abbrev pub is_compatible : Bytes → Candidate → Bool
    is_compatible proto c =
        not (is_empty (trim_space c.name) || F.less c.cost (F.lit 0))
        && not (bytes_eq proto (codes "udp") && not c.supports_udp)
        && not (bytes_eq proto (codes "tcp") && not c.supports_tcp)

    unfoldable pub compatible_of : Bytes → List Candidate → List Candidate
    compatible_of proto [] = []
    compatible_of proto (c ∷ cs) =
        let rest = compatible_of proto cs in if is_compatible proto c then c ∷ rest else rest

    abbrev pub proto_of : Bytes → Bytes
    proto_of protocol = or_default (lower (trim_space protocol)) (codes "tcp")

    unfoldable pub filter_compatible : Bytes → List Candidate → List Candidate
    filter_compatible protocol cs = compatible_of (proto_of protocol) cs

    -- HasEvidence
    abbrev pub was_tried : Option Stats → Bool
    was_tried none = false
    was_tried (some s) = ltb 0 s.attempts

    unfoldable pub has_evidence : Context → List Candidate → Entries → Bool
    has_evidence ctx [] entries = false
    has_evidence ctx (c ∷ cs) entries =
        was_tried (stats_of ctx c.name entries) || has_evidence ctx cs entries
