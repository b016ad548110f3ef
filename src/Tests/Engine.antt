-- ===== src/Tests/Engine.antt =====
-- The circuit breaker and the planner's feedback at concrete inputs, with integers for floats.
use chameleon_protocol.Base.{
  ◌+◌, ◌^◌, ◌<◌, ◌≡◌, refl, arith, true, false, ◌&&◌, if◌then◌else◌, [], ◌∷◌, none, some,
}
use chameleon_protocol.Base.Int.{ℤ, pos, negsuc, ◌+ℤ◌, ◌-ℤ◌, ◌*ℤ◌, ltb_ℤ, leb_ℤ, quot, saturate64}
use chameleon_protocol.Base.Bytes.{Bytes, codes, is_empty}
use chameleon_protocol.Base.Dict.{lookup}
use chameleon_protocol.Net.Text.{trim_space}
use chameleon_protocol.Tunnel.Replay.{sub_time}
use chameleon_protocol.Carrier.{Floats, Context}
use chameleon_protocol.Carrier.Memory.{entry}
use chameleon_protocol.Dpi.{Strategy, strategy, split}
use chameleon_protocol.Dpi.Engine.{
  DpiContext, StrategyEntries, recently_exhausted, dpi_observe, or_no_stats, strategy_stats,
  window_or_default,
}
use chameleon_protocol.Dpi.Engine.Breaker.{NotSince, recently_exhausted-failure}
use chameleon_protocol.Planner.{PlanResult, Saves, dpi_only, FailureScope, planner_observe}
use chameleon_protocol.Planner.Blame.{planner_observe-dpi_only}

abbrev integers : Floats
integers = record {
  float = ℤ;
  lit = pos;
  of_int = λ n. n;
  add = ◌+ℤ◌;
  sub = ◌-ℤ◌;
  mul = ◌*ℤ◌;
  div = quot;
  least = λ a b. if leb_ℤ a b then a else b;
  exp = λ a. a;
  minus_ln2 = negsuc 0;
  less = ltb_ℤ;
  same = λ a b. leb_ℤ a b && leb_ℤ b a;
}

abbrev unchanged : Bytes → Bytes
unchanged text = text

abbrev home : DpiContext
home = record {
  network_id = codes "home";
  destination = codes "a.b:443";
  traffic_class = codes "web";
}

abbrev early : Strategy
early = strategy (codes "split-early") (split ∷ []) (pos 1 ∷ []) (pos 0) (pos 35) false

abbrev no_entries : StrategyEntries integers
no_entries = []

early_named : is_empty (trim_space early.name) ≡ false
unfolding trim_space
early_named = refl

no_attempts :
    (or_no_stats integers (strategy_stats integers unchanged home early.name no_entries)).attempts
      + 1
    < 2 ^ 64
unfolding lookup
no_attempts = omega arith

never_worked :
    NotSince integers unchanged
      (pos 5)
      (or_no_stats integers
        (strategy_stats integers unchanged home early.name no_entries)).last_success
unfolding NotSince lookup
never_worked = tt

not_before : ltb_ℤ (sub_time (pos 9) (pos 5)) (pos 0) ≡ false
unfolding sub_time saturate64 ◌-ℤ◌
not_before = refl

in_window : ltb_ℤ (window_or_default integers unchanged (pos 0)) (sub_time (pos 9) (pos 5)) ≡ false
unfolding sub_time saturate64 ◌-ℤ◌
in_window = refl

recently_exhausted-failure_example :
    recently_exhausted integers unchanged home
      (early ∷ [])
      (pos 9)
      (pos 0)
      (dpi_observe integers unchanged
        (record {
          context = home;
          strategy = early.name;
          success = false;
          latency = pos 3;
          throughput = pos 0;
          at = some (pos 5);
        })
        (pos 6)
        true
        no_entries).1
    ≡ true
recently_exhausted-failure_example =
    recently_exhausted-failure integers unchanged home early (pos 6) (pos 5) (pos 3) (pos 9) (pos 0)
      (pos 0) true no_entries early_named no_attempts never_worked not_before in_window

abbrev result : FailureScope → PlanResult integers unchanged
result scope = record {
  plan = record {
    network_id = codes "home";
    traffic_class = codes "web";
    carrier = codes "direct";
    strategy = codes "split-early";
    dpi_target = codes "a.b:443";
  };
  destination = codes "a.b:443";
  protocol = codes "tcp";
  success = false;
  scope = scope;
  carrier_already_observed = false;
  latency = pos 3;
  throughput = pos 0;
  at = none;
}

abbrev all_saved : Saves integers unchanged
all_saved = record { carrier_saves = true; dpi_saves = true; reachable_saves = true }

abbrev there : Context
there = record {
  network_id = codes "home";
  destination = codes "a.b:443";
  traffic_class = codes "web";
  protocol = codes "tcp";
}

planner_observe-dpi_only_example :
    (entry integers unchanged there
      (codes "direct")
      (planner_observe integers unchanged
        (result dpi_only)
        (pos 7)
        all_saved
        ([], no_entries)).1.0).failures
    ≡ (entry integers unchanged there (codes "direct") []).failures
planner_observe-dpi_only_example =
    planner_observe-dpi_only integers unchanged (result dpi_only) (pos 7) all_saved [] no_entries
      there (codes "direct") refl
