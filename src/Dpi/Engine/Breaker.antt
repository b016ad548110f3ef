-- ===== src/Dpi/Engine/Breaker.antt =====
-- When the circuit breaker of pkg/dpi/engine.go is open.
use chameleon_protocol.Base.{
  ◌+◌, ◌%◌, ◌^◌, ◌<◌, ◌==◌, ◌≡◌, refl, Bool, true, false, List, [], ◌∷◌, ◌++◌, Option, none, some,
  arith,
}
use chameleon_protocol.Base.Int.{ℤ, pos, ltb_ℤ, ◌<ℤ◌, ◌≤ℤ◌}
use chameleon_protocol.Tunnel.Replay.{sub_time}
use chameleon_protocol.Base.Bytes.{Bytes, bytes_eq_refl, is_empty}
use chameleon_protocol.Base.Dict.{lookup, lookup-insert}
use chameleon_protocol.Net.Text.{trim_space}
use chameleon_protocol.Carrier.{Floats}
use chameleon_protocol.Dpi.{Strategy}
use chameleon_protocol.Dpi.Engine.{
  DpiContext, StrategyStats, StrategyEntries, strategy_counted, strategy_averaged, dict_or_empty,
  or_no_stats, dpi_context_key, strategy_stats, dpi_observe, recovered, failed_since, is_exhausted,
  all_exhausted, recently_exhausted, window_or_default,
}

module _ (F : Floats) (lower : Bytes → Bytes) where
  strategy_stats-observed :
      (ctx : DpiContext) (name : Bytes) (now at latency : ℤ) (throughput : F.float)
      (saves success : Bool) (entries : StrategyEntries F)
      → is_empty (trim_space name) ≡ false
      → strategy_stats F lower ctx name
          (dpi_observe F lower
            (record {
              context = ctx;
              strategy = name;
              success = success;
              latency = latency;
              throughput = throughput;
              at = some at;
            })
            now
            saves
            entries).1
        ≡ some (
            strategy_averaged F latency throughput (
              strategy_counted F success
                (some at)
                (or_no_stats F (strategy_stats F lower ctx name entries))))
  unfolding dpi_observe
  strategy_stats-observed ctx name now at latency throughput saves success entries named =
      let key = dpi_context_key F lower ctx in
      let inner = dict_or_empty F (lookup key entries) in
      rw
        (
          named,
          lookup-insert key key _ entries,
          bytes_eq_refl key,
          lookup-insert name name _ inner,
          bytes_eq_refl name,
        )
        refl

  all_exhausted-member :
      (ctx : DpiContext) (front back : List Strategy) (s : Strategy) (now window : ℤ)
      (entries : StrategyEntries F)
      → is_exhausted F lower (strategy_stats F lower ctx s.name entries) now window ≡ false
      → all_exhausted F lower ctx (front ++ (s ∷ back)) now window entries ≡ false
  unfolding all_exhausted
  all_exhausted-member ctx [] back s now window entries h = rw h refl
  all_exhausted-member ctx (f ∷ front) back s now window entries h =
      rw (all_exhausted-member ctx front back s now window entries h) (ground arith)

  -- The last failure of an entry, if any, is before a time.
  unfoldable pub FailedBefore : ℤ → Option ℤ → Type 0
  FailedBefore at none = Unit
  FailedBefore at (some failure) = failure <ℤ at

  failed_since-recovered :
      (failure : Option ℤ) (at now window : ℤ)
      → FailedBefore at failure
      → failed_since F lower failure (some at) now window ≡ false
  unfolding FailedBefore
  failed_since-recovered none at now window h = refl
  failed_since-recovered (some failure) at now window h = ground arith

  succeeded :
      (e : StrategyStats F) (latency at later window : ℤ) (throughput : F.float)
      → FailedBefore at e.last_failure
      → is_exhausted F lower
          (some (strategy_averaged F latency throughput (strategy_counted F true (some at) e)))
          later
          window
        ≡ false
  unfolding is_exhausted strategy_averaged strategy_counted
  succeeded e latency at later window throughput h =
      rw (failed_since-recovered e.last_failure at later window h) (ground arith)

  recently_exhausted-all :
      (ctx : DpiContext) (ss : List Strategy) (now window : ℤ) (entries : StrategyEntries F)
      → all_exhausted F lower ctx ss now (window_or_default F lower window) entries ≡ false
      → recently_exhausted F lower ctx ss now window entries ≡ false
  unfolding recently_exhausted
  recently_exhausted-all ctx [] now window entries h = refl
  recently_exhausted-all ctx (s ∷ ss) now window entries h = h

  -- One success closes the circuit breaker: once a strategy succeeded in a context, later than the
  -- last failure that the memory has of it there, RecentlyExhausted is false in this context for
  -- every list of candidates that has the strategy, at every time and for every window.
  pub recently_exhausted-success :
      (ctx : DpiContext) (front back : List Strategy) (s : Strategy)
      (now at latency later window : ℤ) (throughput : F.float) (saves : Bool)
      (entries : StrategyEntries F)
      → is_empty (trim_space s.name) ≡ false
      → FailedBefore at (or_no_stats F (strategy_stats F lower ctx s.name entries)).last_failure
      → recently_exhausted F lower ctx
          (front ++ (s ∷ back))
          later
          window
          (dpi_observe F lower
            (record {
              context = ctx;
              strategy = s.name;
              success = true;
              latency = latency;
              throughput = throughput;
              at = some at;
            })
            now
            saves
            entries).1
        ≡ false
  recently_exhausted-success ctx front back s now at latency later window throughput saves entries
        named before =
      recently_exhausted-all ctx (front ++ (s ∷ back)) later window _ (
        all_exhausted-member ctx front back s later (window_or_default F lower window) _ (
          rw (strategy_stats-observed ctx s.name now at latency throughput saves true entries named)
            (succeeded (or_no_stats F (strategy_stats F lower ctx s.name entries)) latency at later
              (window_or_default F lower window) throughput before)))

  -- The last success of an entry, if any, is not after a time.
  unfoldable pub NotSince : ℤ → Option ℤ → Type 0
  NotSince at none = Unit
  NotSince at (some success) = success ≤ℤ at

  recovered-NotSince :
      (success : Option ℤ) (at : ℤ) → NotSince at success → recovered F lower success at ≡ false
  unfolding NotSince
  recovered-NotSince none at h = refl
  recovered-NotSince (some success) at h = ground arith

  failed :
      (e : StrategyStats F) (latency at later window : ℤ) (throughput : F.float)
      → e.attempts + 1 < 2 ^ 64
      → NotSince at e.last_success
      → ltb_ℤ (sub_time later at) (pos 0) ≡ false
      → ltb_ℤ window (sub_time later at) ≡ false
      → is_exhausted F lower
          (some (strategy_averaged F latency throughput (strategy_counted F false (some at) e)))
          later
          window
        ≡ true
  unfolding is_exhausted strategy_averaged strategy_counted
  failed e latency at later window throughput few since after within =
      let counted : ((e.attempts + 1) % 2 ^ 64 == 0) ≡ false = ground arith in
      rw (counted, recovered-NotSince e.last_success at since, after, within) refl

  -- A failure opens it: when the only candidate fails at a time before which it had its last
  -- success, RecentlyExhausted is true from that time on until the window is over.
  pub recently_exhausted-failure :
      (ctx : DpiContext) (s : Strategy) (now at latency later window : ℤ) (throughput : F.float)
      (saves : Bool) (entries : StrategyEntries F)
      → is_empty (trim_space s.name) ≡ false
      → (or_no_stats F (strategy_stats F lower ctx s.name entries)).attempts + 1 < 2 ^ 64
      → NotSince at (or_no_stats F (strategy_stats F lower ctx s.name entries)).last_success
      → ltb_ℤ (sub_time later at) (pos 0) ≡ false
      → ltb_ℤ (window_or_default F lower window) (sub_time later at) ≡ false
      → recently_exhausted F lower ctx
          (s ∷ [])
          later
          window
          (dpi_observe F lower
            (record {
              context = ctx;
              strategy = s.name;
              success = false;
              latency = latency;
              throughput = throughput;
              at = some at;
            })
            now
            saves
            entries).1
        ≡ true
  unfolding recently_exhausted all_exhausted
  recently_exhausted-failure ctx s now at latency later window throughput saves entries named few
        since after within =
      rw
        (
          strategy_stats-observed ctx s.name now at latency throughput saves false entries named,
          failed (or_no_stats F (strategy_stats F lower ctx s.name entries)) latency at later
              (window_or_default F lower window) throughput few since after within,
        )
        refl
