-- ===== src/Planner/Blame.antt =====
-- Which memory a result may change.
use chameleon_protocol.Base.{
  ◌≡◌, refl, ◌&&◌, not, true, false, Option, none, some, Bool-cases, inl, inr,
}
use chameleon_protocol.Base.Int.{ℤ}
use chameleon_protocol.Base.Bytes.{Bytes}
use chameleon_protocol.Carrier.{Floats, CarrierError, Context, Entries, observe}
use chameleon_protocol.Carrier.Memory.{entry, observe-failures}
use chameleon_protocol.Dpi.Engine.{EngineError, StrategyEntries}
use chameleon_protocol.Planner.{
  PlanResult, Saves, carrier_only, dpi_only, concerns_carrier, concerns_dpi, is_dpi_only,
  carrier_observation, reached, after_dpi, after_carrier, planner_observe,
}

module _ (F : Floats) (lower : Bytes → Bytes) where
  reached-entries :
      (p : Option CarrierError × Entries F) (ds : StrategyEntries F)
      → (reached F lower p ds).1.0 ≡ p.1
  reached-entries (some e, cs) ds = refl
  reached-entries (none, cs) ds = refl

  after_dpi-failures :
      (r : PlanResult F lower) (now : ℤ) (saves : Saves F lower) (cs : Entries F)
      (p : Option EngineError × StrategyEntries F) (c : Context) (carrier : Bytes)
      → (entry F lower c carrier (after_dpi F lower r now saves cs p).1.0).failures
        ≡ (entry F lower c carrier cs).failures
  unfolding after_dpi
  after_dpi-failures r now saves cs (some e, ds) c carrier = refl
  after_dpi-failures r now saves cs (none, ds) c carrier =
      elim (Bool-cases (not r.success && is_dpi_only r.scope && not r.carrier_already_observed)) [
        | inr no_more ↦ rw no_more refl
        | inl reachable ↦
            let p =
              observe F lower (carrier_observation F lower r now true) now saves.reachable_saves
                cs in
            rw (reachable, reached-entries p ds)
              (observe-failures F lower (carrier_observation F lower r now true) now
                saves.reachable_saves cs c carrier refl)
      ]

  -- The path's DPI is never held against a carrier: a result that concerns only the strategy leaves
  -- the failure count of every carrier in every context, whether it is a success or a failure and
  -- whether or not the memories could be saved.
  pub planner_observe-dpi_only :
      (r : PlanResult F lower) (now : ℤ) (saves : Saves F lower) (cs : Entries F)
      (ds : StrategyEntries F) (c : Context) (carrier : Bytes)
      → r.scope ≡ dpi_only
      → (entry F lower c carrier (planner_observe F lower r now saves (cs, ds)).1.0).failures
        ≡ (entry F lower c carrier cs).failures
  unfolding planner_observe after_carrier
  planner_observe-dpi_only r now saves cs ds c carrier h =
      let untouched : concerns_carrier r.scope ≡ false = rw h refl in
      rw untouched (after_dpi-failures r now saves cs _ c carrier)

  reached-strategies :
      (p : Option CarrierError × Entries F) (ds : StrategyEntries F)
      → (reached F lower p ds).1.1 ≡ ds
  reached-strategies (some e, cs) ds = refl
  reached-strategies (none, cs) ds = refl

  after_dpi-strategies :
      (r : PlanResult F lower) (now : ℤ) (saves : Saves F lower) (cs : Entries F)
      (ds : StrategyEntries F)
      → (after_dpi F lower r now saves cs (none, ds)).1.1 ≡ ds
  unfolding after_dpi
  after_dpi-strategies r now saves cs ds =
      elim (Bool-cases (not r.success && is_dpi_only r.scope && not r.carrier_already_observed)) [
        | inr no_more ↦ rw no_more refl
        | inl reachable ↦ rw reachable (
            reached-strategies
              (observe F lower (carrier_observation F lower r now true) now saves.reachable_saves
                cs)
              ds)
      ]

  after_carrier-strategies :
      (r : PlanResult F lower) (now : ℤ) (saves : Saves F lower) (ds : StrategyEntries F)
      (p : Option CarrierError × Entries F)
      → concerns_dpi r.scope ≡ false
      → (after_carrier F lower r now saves ds p).1.1 ≡ ds
  unfolding after_carrier
  after_carrier-strategies r now saves ds (some e, cs) h = refl
  after_carrier-strategies r now saves ds (none, cs) h =
      rw h (after_dpi-strategies r now saves cs ds)

  -- Conversely a result that concerns only the carrier leaves the memory of the strategies.
  pub planner_observe-carrier_only :
      (r : PlanResult F lower) (now : ℤ) (saves : Saves F lower) (cs : Entries F)
      (ds : StrategyEntries F)
      → r.scope ≡ carrier_only
      → (planner_observe F lower r now saves (cs, ds)).1.1 ≡ ds
  unfolding planner_observe after_carrier
  planner_observe-carrier_only r now saves cs ds h =
      after_carrier-strategies r now saves ds _ (rw h refl)
