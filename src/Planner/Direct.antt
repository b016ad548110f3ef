-- ===== src/Planner/Direct.antt =====
-- What a plan does to the connections of a datagram carrier.
use mathlib.Core.List.{map}
use chameleon_protocol.Base.{
  ℕ, ◌≡◌, refl, ap, ◌∙◌, true, List, [], ◌∷◌, Result, ok, err, All, Bool-cases, inl, inr, ◌⊎◌,
  ok_injective, >>=-ok, fail_if-ok,
}
use chameleon_protocol.Base.Int.{ℤ}
use chameleon_protocol.Base.Bytes.{Bytes, codes, bytes_eq, is_empty}
use chameleon_protocol.Net.Text.{trim_space}
use chameleon_protocol.Carrier.{Floats, Entries, Kind, chameleon_quic, chameleon_udp}
use chameleon_protocol.Carrier.Choice.{Decision, choose}
use chameleon_protocol.Io.{Writer}
use chameleon_protocol.Dpi.First.{plain, new_first_write_conn}
use chameleon_protocol.Dpi.{Strategy, default_strategies}
use chameleon_protocol.Dpi.Engine.{DpiContext, StrategyEntries}
use chameleon_protocol.Dpi.Engine.Choice.{
  RankedStrategy, ranks_before, place_strategy, sort_strategies, ranked_strategy, StrategyDecision,
  best_of, dpi_choose, all_valid, ChoiceError,
}
use chameleon_protocol.Planner.{direct_only_dpi}
use chameleon_protocol.Planner.Choice.{
  Request, ChosenPlan, is_datagram_kind, strategies_for, plan_of, plan_over, planner_choose, or_dpi,
  or_carrier,
}

IsDirect : Strategy → Type 0
IsDirect s = bytes_eq s.name (codes "direct") ≡ true

direct_only_dpi-IsDirect : (ss : List Strategy) → All IsDirect (direct_only_dpi ss)
unfolding direct_only_dpi default_strategies IsDirect
direct_only_dpi-IsDirect [] = (refl, tt)
direct_only_dpi-IsDirect (s ∷ ss) = elim (Bool-cases (bytes_eq s.name (codes "direct"))) [
  | inl h ↦ rw h (h, tt)
  | inr h ↦ rw h (direct_only_dpi-IsDirect ss)
]

datagram_kind :
    (kind : Kind) → (kind ≡ chameleon_quic) ⊎ (kind ≡ chameleon_udp) → is_datagram_kind kind ≡ true
datagram_kind kind (inl quic) = rw quic refl
datagram_kind kind (inr udp) = rw udp refl

left_alone : (conn : Writer) (s : Strategy) → IsDirect s → new_first_write_conn conn s ≡ plain conn
unfolding IsDirect new_first_write_conn
left_alone conn s h = elim (Bool-cases (is_empty s.name)) [
  | inl unnamed ↦ rw unnamed refl
  | inr named ↦ rw (named, h) refl
]

or_dpi-ok {ℓ} : {A : Type ℓ} (r : Result ChoiceError A) (a : A) → or_dpi r ≡ ok a → r ≡ ok a
or_dpi-ok (ok b) a h = rw (ok_injective h) refl
or_dpi-ok (err e) a h = cc

module _ (F : Floats) (lower : Bytes → Bytes) (cost_of : Strategy → F.float) where
  module _ (P : Strategy → Type 0) where
    Ranks : List (RankedStrategy F lower cost_of) → Type 0
    Ranks = All (λ (r : RankedStrategy F lower cost_of). P r.strategy)

    place_strategy-All :
        (x : RankedStrategy F lower cost_of) (ys : List (RankedStrategy F lower cost_of))
        → P x.strategy
        → Ranks ys
        → Ranks (place_strategy F lower cost_of x ys)
    unfolding place_strategy Ranks
    place_strategy-All x [] hx hys = (hx, tt)
    place_strategy-All x (y ∷ ys) hx (hy, hys) =
        elim (Bool-cases (ranks_before F lower cost_of y x)) [
          | inl h ↦ rw h (hy, place_strategy-All x ys hx hys)
          | inr h ↦ rw h (hx, (hy, hys))
        ]

    sort_ranked-All :
        (ctx : DpiContext) (ds : StrategyEntries F) (ss : List Strategy)
        → All P ss
        → Ranks (sort_strategies F lower cost_of (map (ranked_strategy F lower cost_of ctx ds) ss))
    unfolding sort_strategies Ranks ranked_strategy
    sort_ranked-All ctx ds [] hs = tt
    sort_ranked-All ctx ds (s ∷ ss) (h, hs) =
        place_strategy-All _ _ h (sort_ranked-All ctx ds ss hs)

    best_of-All :
        (rs : List (RankedStrategy F lower cost_of)) (d : StrategyDecision F lower cost_of)
        → Ranks rs
        → best_of F lower cost_of rs ≡ ok d
        → P d.strategy
    unfolding Ranks
    best_of-All [] d hs h = cc
    best_of-All (r ∷ rs) d (hr, hs) h = rw (← ok_injective h) hr

    dpi_choose-All :
        (ctx : DpiContext) (ss : List Strategy) (ds : StrategyEntries F)
        (d : StrategyDecision F lower cost_of)
        → All P ss
        → dpi_choose F lower cost_of ctx ss ds ≡ ok d
        → P d.strategy
    unfolding dpi_choose
    dpi_choose-All ctx [] ds d hs h = cc
    dpi_choose-All ctx (s ∷ ss) ds d hs h =
        let (_, _, chosen) = >>=-ok (all_valid (s ∷ ss)) _ h in
        best_of-All _ d (sort_ranked-All ctx ds (s ∷ ss) hs) chosen

  plan_over-IsDirect :
      (req : Request F lower cost_of) (ds : StrategyEntries F) (carrier : Decision F lower)
      (plan : ChosenPlan F lower cost_of)
      → plan_over F lower cost_of req ds carrier ≡ ok plan
      → is_datagram_kind plan.carrier.carrier.kind ≡ true
      → IsDirect plan.dpi.strategy
  unfolding plan_over
  plan_over-IsDirect req ds carrier plan h datagram =
      let (dpi, chosen, built) = >>=-ok (or_dpi (dpi_choose F lower cost_of _ _ ds)) _ h in
      let same : plan_of F lower cost_of req carrier dpi ≡ plan = ok_injective built in
      let kind : is_datagram_kind carrier.carrier.kind ≡ true =
        ap (λ (p : ChosenPlan F lower cost_of). is_datagram_kind p.carrier.carrier.kind) same
        ∙ datagram in
      let offered : All IsDirect (strategies_for F lower cost_of req carrier.carrier) =
        rw kind (direct_only_dpi-IsDirect req.dpi_strategies) in
      rw (← same) (dpi_choose-All IsDirect _ _ ds dpi offered (or_dpi-ok _ dpi chosen))

  -- A plan whose carrier is Chameleon over QUIC or over UDP never shapes a connection: whatever the
  -- memories hold and whatever strategies the request offers, NewFirstWriteConn returns every connection
  -- as it is under the strategy of the plan.
  pub planner_choose-direct :
      (req : Request F lower cost_of) (clock : ℕ → ℤ) (cs : Entries F) (ds : StrategyEntries F)
      (plan : ChosenPlan F lower cost_of) (conn : Writer)
      → planner_choose F lower cost_of req clock cs ds ≡ ok plan
      → (plan.carrier.carrier.kind ≡ chameleon_quic) ⊎ (plan.carrier.carrier.kind ≡ chameleon_udp)
      → new_first_write_conn conn plan.dpi.strategy ≡ plain conn
  unfolding planner_choose IsDirect
  planner_choose-direct req clock cs ds plan conn h datagram =
      let (given, chosen) = fail_if-ok (is_empty (trim_space req.destination)) _ _ h in
      let (carrier, best, planned) =
        >>=-ok (or_carrier (choose F lower _ req.carriers clock cs)) _ chosen in
      left_alone conn plan.dpi.strategy (
        plan_over-IsDirect req ds carrier plan planned
          (datagram_kind plan.carrier.carrier.kind datagram))
