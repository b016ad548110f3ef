-- ===== src/Dpi/Engine.antt =====
-- pkg/dpi/engine.go: the memory of strategy attempts and the circuit breaker, with float64 and
-- strings.ToLower as parameters (pkg/carrier has the same averages). A zero time.Time is `none`.
-- Whether the store could be written is an argument.
pub mod Breaker
pub mod Choice
use chameleon_protocol.Base.{
  ℕ, ◌+◌, ◌%◌, ◌^◌, ◌==◌, ◌&&◌, ◌||◌, not, Bool, true, false, if◌then◌else◌, List, [], ◌∷◌, ◌++◌,
  Option, none, some,
}
use chameleon_protocol.Base.Int.{ℤ, pos, ltb_ℤ, leb_ℤ}
use chameleon_protocol.Base.Bytes.{Bytes, codes, is_empty}
use chameleon_protocol.Base.Dict.{Dict, lookup, insert}
use chameleon_protocol.Net.Text.{trim_space}
use chameleon_protocol.Tunnel.Replay.{sub_time}
use chameleon_protocol.Carrier.{
  Floats, running_duration, running_float, or_default, or_empty, or_now, succ64,
}
use chameleon_protocol.Dpi.{Strategy}

pub data EngineError : Type 0 where
  empty_strategy engine_not_saved : EngineError

pub record DpiContext : Type 0 where
  pub network_id : Bytes
  pub destination : Bytes
  pub traffic_class : Bytes

module _ (F : Floats) where
  pub record DpiObservation : Type 0 where
    pub context : DpiContext
    pub strategy : Bytes
    pub success : Bool
    pub latency : ℤ
    pub throughput : F.float
    pub at : Option ℤ

  pub record StrategyStats : Type 0 where
    pub attempts : ℕ
    pub successes : ℕ
    pub failures : ℕ
    pub failure_streak : ℕ
    pub avg_latency : ℤ
    pub avg_throughput : F.float
    pub last_success : Option ℤ
    pub last_failure : Option ℤ

  abbrev pub no_stats : StrategyStats
  no_stats = record {
    attempts = 0;
    successes = 0;
    failures = 0;
    failure_streak = 0;
    avg_latency = pos 0;
    avg_throughput = F.lit 0;
    last_success = none;
    last_failure = none;
  }

  abbrev pub StrategyEntries : Type 0
  StrategyEntries = Dict (Dict StrategyStats)

  -- The counters of Observe, and its averages.
  unfoldable pub strategy_counted : Bool → Option ℤ → StrategyStats → StrategyStats
  strategy_counted true at s = record s {
    attempts = succ64 F s.attempts;
    successes = succ64 F s.successes;
    failure_streak = 0;
    last_success = at;
  }
  strategy_counted false at s = record s {
    attempts = succ64 F s.attempts;
    failures = succ64 F s.failures;
    failure_streak = succ64 F s.failure_streak;
    last_failure = at;
  }

  unfoldable pub strategy_averaged : ℤ → F.float → StrategyStats → StrategyStats
  strategy_averaged latency throughput s = record s {
    avg_latency = running_duration F s.avg_latency latency s.attempts;
    avg_throughput = running_float F s.avg_throughput throughput s.attempts;
  }

  abbrev pub dict_or_empty {ℓ} : {V : Type ℓ} → Option (Dict V) → Dict V
  dict_or_empty none = []
  dict_or_empty (some m) = m

  abbrev pub or_no_stats : Option StrategyStats → StrategyStats
  or_no_stats none = no_stats
  or_no_stats (some s) = s

  abbrev pub engine_saved : Bool → Option EngineError
  engine_saved true = none
  engine_saved false = some engine_not_saved

  module _ (lower : Bytes → Bytes) where
    unfoldable pub dpi_context_key : DpiContext → Bytes
    dpi_context_key c =
        or_default F (lower (trim_space c.network_id)) (codes "unknown-network")
        ++ (b'|' ∷ or_default F (lower (trim_space c.destination)) (codes "*"))
        ++ (b'|' ∷ or_default F (lower (trim_space c.traffic_class)) (codes "default"))

    abbrev pub strategy_stats : DpiContext → Bytes → StrategyEntries → Option StrategyStats
    strategy_stats c name entries = lookup name (dict_or_empty (lookup (dpi_context_key c) entries))

    -- Observe
    unfoldable pub dpi_observe :
        DpiObservation → ℤ → Bool → StrategyEntries → Option EngineError × StrategyEntries
    dpi_observe o now saves entries =
        if is_empty (trim_space o.strategy)
        then (some empty_strategy, entries)
        else let before = or_no_stats (strategy_stats o.context o.strategy entries) in
          let after =
            strategy_averaged o.latency o.throughput
              (strategy_counted o.success (or_now F now o.at) before) in
          (
            engine_saved saves,
            insert (dpi_context_key o.context)
                (insert o.strategy after
                  (dict_or_empty (lookup (dpi_context_key o.context) entries)))
                entries,
          )

    -- `LastSuccess.After(LastFailure)`, for a failure that is set
    abbrev pub recovered : Option ℤ → ℤ → Bool
    recovered none failure = false
    recovered (some success) failure = ltb_ℤ failure success

    -- The body of the loop of RecentlyExhausted: whether the candidate lets it go on.
    abbrev pub failed_since : Option ℤ → Option ℤ → ℤ → ℤ → Bool
    failed_since none success now window = false
    failed_since (some failure) success now window =
        let age = sub_time now failure in
        not (recovered success failure) && not (ltb_ℤ age (pos 0) || ltb_ℤ window age)

    unfoldable pub is_exhausted : Option StrategyStats → ℤ → ℤ → Bool
    is_exhausted none now window = false
    is_exhausted (some s) now window =
        not (s.attempts == 0) && failed_since s.last_failure s.last_success now window

    unfoldable pub all_exhausted : DpiContext → List Strategy → ℤ → ℤ → StrategyEntries → Bool
    all_exhausted ctx [] now window entries = true
    all_exhausted ctx (s ∷ ss) now window entries =
        is_exhausted (strategy_stats ctx s.name entries) now window
        && all_exhausted ctx ss now window entries

    abbrev pub window_or_default : ℤ → ℤ
    window_or_default window = if leb_ℤ window (pos 0) then pos 600000000000 else window

    -- RecentlyExhausted
    unfoldable pub recently_exhausted : DpiContext → List Strategy → ℤ → ℤ → StrategyEntries → Bool
    recently_exhausted ctx [] now window entries = false
    recently_exhausted ctx (s ∷ ss) now window entries =
        all_exhausted ctx (s ∷ ss) now (window_or_default window) entries
