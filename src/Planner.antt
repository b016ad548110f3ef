-- ===== src/Planner.antt =====
-- pkg/planner/planner.go: how the result of a plan is fed back into the two memories. Each save of a
-- memory may fail; whether it does is an argument.
pub mod Blame
pub mod Choice
pub mod Direct
use chameleon_protocol.Base.{
  ℕ, ◌&&◌, ◌||◌, not, Bool, true, false, if◌then◌else◌, List, [], ◌∷◌, Option, none, some,
}
use chameleon_protocol.Base.Int.{ℤ}
use chameleon_protocol.Base.Bytes.{Bytes, codes, bytes_eq}
use chameleon_protocol.Carrier.{
  Floats, CarrierError, Context, Observation, Entries, observe, or_now,
}
use chameleon_protocol.Dpi.{Strategy, default_strategies}
use chameleon_protocol.Dpi.Engine.{
  EngineError, DpiContext, DpiObservation, StrategyEntries, dpi_observe,
}

-- FailureScope; the empty text of a zero value is `unscoped`.
pub data FailureScope : Type 0 where
  unscoped both carrier_only dpi_only : FailureScope

pub data PlannerError : Type 0 where
  carrier_result : CarrierError → PlannerError
  dpi_result : EngineError → PlannerError
  reachable_carrier : CarrierError → PlannerError

-- What Observe reads of a plan: the names of the chosen carrier and strategy.
pub record Plan : Type 0 where
  pub network_id : Bytes
  pub traffic_class : Bytes
  pub carrier : Bytes
  pub strategy : Bytes
  pub dpi_target : Bytes

abbrev pub concerns_carrier : FailureScope → Bool
concerns_carrier unscoped = true
concerns_carrier both = true
concerns_carrier carrier_only = true
concerns_carrier dpi_only = false

abbrev pub concerns_dpi : FailureScope → Bool
concerns_dpi unscoped = true
concerns_dpi both = true
concerns_dpi carrier_only = false
concerns_dpi dpi_only = true

-- `scope == ScopeDPI`
abbrev pub is_dpi_only : FailureScope → Bool
is_dpi_only unscoped = false
is_dpi_only both = false
is_dpi_only carrier_only = false
is_dpi_only dpi_only = true

-- directOnlyDPI
unfoldable pub direct_only_dpi : List Strategy → List Strategy
direct_only_dpi [] = elim default_strategies [ [] ↦ [] | s ∷ ss ↦ s ∷ [] ]
direct_only_dpi (s ∷ ss) =
    let rest = direct_only_dpi ss in if bytes_eq s.name (codes "direct") then s ∷ [] else rest

module _ (F : Floats) (lower : Bytes → Bytes) where
  pub record PlanResult : Type 0 where
    pub plan : Plan
    pub destination : Bytes
    pub protocol : Bytes
    pub success : Bool
    pub scope : FailureScope
    pub carrier_already_observed : Bool
    pub latency : ℤ
    pub throughput : F.float
    pub at : Option ℤ

  abbrev pub carrier_observation : PlanResult → ℤ → Bool → Observation F
  carrier_observation r now success = record {
    context = record {
      network_id = r.plan.network_id;
      destination = r.destination;
      traffic_class = r.plan.traffic_class;
      protocol = r.protocol;
    };
    carrier = r.plan.carrier;
    success = success;
    latency = r.latency;
    throughput = r.throughput;
    at = or_now F now r.at;
  }

  abbrev pub dpi_observation : PlanResult → ℤ → DpiObservation F
  dpi_observation r now = record {
    context = record {
      network_id = r.plan.network_id;
      destination = r.plan.dpi_target;
      traffic_class = r.plan.traffic_class;
    };
    strategy = r.plan.strategy;
    success = r.success;
    latency = r.latency;
    throughput = r.throughput;
    at = or_now F now r.at;
  }

  abbrev pub Memories : Type 0
  Memories = Entries F × StrategyEntries F

  -- Which of the three saves succeed.
  pub record Saves : Type 0 where
    pub carrier_saves : Bool
    pub dpi_saves : Bool
    pub reachable_saves : Bool

  -- The last step: a carrier that was reached although the strategy failed.
  abbrev pub reached :
      Option CarrierError × Entries F → StrategyEntries F → Option PlannerError × Memories
  reached (some e, cs) ds = (some (reachable_carrier e), (cs, ds))
  reached (none, cs) ds = (none, (cs, ds))

  after_dpi :
      PlanResult
      → ℤ
      → Saves
      → Entries F
      → Option EngineError × StrategyEntries F
      → Option PlannerError × Memories
  after_dpi r now saves cs (some e, ds) = (some (dpi_result e), (cs, ds))
  after_dpi r now saves cs (none, ds) =
      if not r.success && is_dpi_only r.scope && not r.carrier_already_observed
      then reached (observe F lower (carrier_observation r now true) now saves.reachable_saves cs)
          ds
      else (none, (cs, ds))

  after_carrier :
      PlanResult
      → ℤ
      → Saves
      → StrategyEntries F
      → Option CarrierError × Entries F
      → Option PlannerError × Memories
  unfolding after_dpi
  after_carrier r now saves ds (some e, cs) = (some (carrier_result e), (cs, ds))
  after_carrier r now saves ds (none, cs) = after_dpi r now saves cs (
      if concerns_dpi r.scope
      then dpi_observe F lower (dpi_observation r now) now saves.dpi_saves ds
      else (none, ds))

  -- Observe
  unfoldable pub planner_observe :
      PlanResult → ℤ → Saves → Memories → Option PlannerError × Memories
  unfolding after_carrier
  planner_observe r now saves (cs, ds) = after_carrier r now saves ds (
      if concerns_carrier r.scope
      then observe F lower (carrier_observation r now r.success) now saves.carrier_saves cs
      else (none, cs))
