-- ===== src/Planner/Choice.antt =====
-- Choose of pkg/planner/planner.go: the carrier first, then the strategy for what the local network sees.
use chameleon_protocol.Base.{
  ℕ, ◌&&◌, not, Bool, true, false, if◌then◌else◌, List, Result, ok, err, ◌>>=◌, ◌>>◌, fail_if,
}
use chameleon_protocol.Base.Int.{ℤ}
use chameleon_protocol.Base.Bytes.{Bytes, is_empty}
use chameleon_protocol.Net.Text.{trim_space}
use chameleon_protocol.Carrier.{
  Floats, Kind, direct, chameleon_udp, chameleon_quic, Context, CarrierError, Candidate, Entries,
}
use chameleon_protocol.Carrier.Choice.{Decision, choose}
use chameleon_protocol.Dpi.{Strategy}
use chameleon_protocol.Dpi.Engine.{DpiContext, StrategyEntries}
use chameleon_protocol.Dpi.Engine.Choice.{ChoiceError, StrategyDecision, dpi_choose}
use chameleon_protocol.Planner.{direct_only_dpi}
use chameleon_protocol.Traffic.{TrafficClass, class_text, classify}

pub data PlanError : Type 0 where
  empty_destination : PlanError
  carrier_choice : CarrierError → PlanError
  dpi_choice : ChoiceError → PlanError

abbrev pub or_carrier {ℓ} : {A : Type ℓ} → Result CarrierError A → Result PlanError A
or_carrier (ok a) = ok a
or_carrier (err e) = err (carrier_choice e)

abbrev pub or_dpi {ℓ} : {A : Type ℓ} → Result ChoiceError A → Result PlanError A
or_dpi (ok a) = ok a
or_dpi (err e) = err (dpi_choice e)

abbrev pub is_direct : Kind → Bool
is_direct direct = true
is_direct _ = false

-- The carriers that are given only the direct strategy.
abbrev pub is_datagram_kind : Kind → Bool
is_datagram_kind chameleon_quic = true
is_datagram_kind chameleon_udp = true
is_datagram_kind _ = false

module _ (F : Floats) (lower : Bytes → Bytes) (cost_of : Strategy → F.float) where
  pub record Request : Type 0 where
    pub network_id : Bytes
    pub destination : Bytes
    pub protocol : Bytes
    pub purpose : Bytes
    pub carriers : List (Candidate F)
    pub dpi_strategies : List Strategy

  pub record ChosenPlan : Type 0 where
    pub network_id : Bytes
    pub traffic_class : TrafficClass
    pub carrier : Decision F lower
    pub dpi : StrategyDecision F lower cost_of
    pub dpi_target : Bytes

  abbrev pub class_of : Request → TrafficClass
  class_of req = classify lower req.destination req.protocol req.purpose

  abbrev pub carrier_context : Request → Context
  carrier_context req = record {
    network_id = req.network_id;
    destination = req.destination;
    traffic_class = class_text (class_of req);
    protocol = req.protocol;
  }

  abbrev pub target_of : Request → Candidate F → Bytes
  target_of req c =
      if not (is_direct c.kind) && not (is_empty c.endpoint) then c.endpoint else req.destination

  abbrev pub dpi_context : Request → Candidate F → DpiContext
  dpi_context req c = record {
    network_id = req.network_id;
    destination = target_of req c;
    traffic_class = class_text (class_of req);
  }

  abbrev pub strategies_for : Request → Candidate F → List Strategy
  strategies_for req c =
      if is_datagram_kind c.kind then direct_only_dpi req.dpi_strategies else req.dpi_strategies

  abbrev pub plan_of : Request → Decision F lower → StrategyDecision F lower cost_of → ChosenPlan
  plan_of req carrier dpi = record {
    network_id = req.network_id;
    traffic_class = class_of req;
    carrier = carrier;
    dpi = dpi;
    dpi_target = target_of req carrier.carrier;
  }

  unfoldable pub plan_over :
      Request → StrategyEntries F → Decision F lower → Result PlanError ChosenPlan
  plan_over req ds carrier = do
    dpi ← or_dpi (
        dpi_choose F lower cost_of (dpi_context req carrier.carrier)
          (strategies_for req carrier.carrier) ds)
    ok (plan_of req carrier dpi)

  -- Choose
  unfoldable pub planner_choose :
      Request → (ℕ → ℤ) → Entries F → StrategyEntries F → Result PlanError ChosenPlan
  unfolding plan_over
  planner_choose req clock cs ds = do
    fail_if (is_empty (trim_space req.destination)) empty_destination
    carrier ← or_carrier (choose F lower (carrier_context req) req.carriers clock cs)
    plan_over req ds carrier
