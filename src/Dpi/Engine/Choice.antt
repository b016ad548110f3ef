-- ===== src/Dpi/Engine/Choice.antt =====
-- Choose of pkg/dpi/engine.go. The cost of a strategy is a float64 there and an integer of hundredths in
-- the model of Strategy; `cost_of` is the one for the other.
use mathlib.Core.List.{map}
use chameleon_protocol.Base.{
  ◌==◌, Bool, true, false, if◌then◌else◌, List, [], ◌∷◌, Option, none, some, Result, ok, err, ◌>>◌,
}
use chameleon_protocol.Base.Int.{pos, ltb_ℤ}
use chameleon_protocol.Base.Bytes.{Bytes}
use chameleon_protocol.Carrier.{Floats}
use chameleon_protocol.Dpi.{Strategy, DpiError, validate}
use chameleon_protocol.Dpi.Engine.{DpiContext, StrategyStats, StrategyEntries, strategy_stats}

pub data ChoiceError : Type 0 where
  no_strategies : ChoiceError
  invalid_strategy : DpiError → ChoiceError

abbrev pub or_invalid {ℓ} : {A : Type ℓ} → Result DpiError A → Result ChoiceError A
or_invalid (ok a) = ok a
or_invalid (err e) = err (invalid_strategy e)

unfoldable pub all_valid : List Strategy → Result ChoiceError (Unit {0})
all_valid [] = ok tt
all_valid (s ∷ ss) = do or_invalid (validate s); all_valid ss

module _ (F : Floats) (lower : Bytes → Bytes) (cost_of : Strategy → F.float) where
  -- The two adjustments of strategyScore.
  abbrev pub with_latency : StrategyStats F → F.float → F.float
  with_latency s score =
      if ltb_ℤ (pos 0) s.avg_latency
      then F.sub score
          (F.least (F.div (F.of_int s.avg_latency) (F.of_int (pos 500000000))) (F.lit 200))
      else score

  abbrev pub with_throughput : StrategyStats F → F.float → F.float
  with_throughput s score =
      if F.less (F.lit 0) s.avg_throughput
      then F.add score (F.least (F.div s.avg_throughput (F.of_int (pos 5242880))) (F.lit 150))
      else score

  unfoldable pub strategy_score : Strategy → Option (StrategyStats F) → F.float × Bool
  strategy_score c none = (F.sub (F.lit 20) (cost_of c), false)
  strategy_score c (some s) =
      if s.attempts == 0
      then (F.sub (F.lit 20) (cost_of c), false)
      else let rate = F.div (F.of_int (pos s.successes)) (F.of_int (pos s.attempts)) in
        let score =
          F.sub
            (F.sub (F.mul rate (F.lit 600)) (F.mul (F.of_int (pos s.failure_streak)) (F.lit 160)))
            (cost_of c) in
        (with_throughput s (with_latency s score), true)

  pub record RankedStrategy : Type 0 where
    pub strategy : Strategy
    pub score : F.float
    pub known : Bool

  abbrev pub ranks_before : RankedStrategy → RankedStrategy → Bool
  ranks_before a b =
      if F.same a.score b.score
      then F.less (cost_of a.strategy) (cost_of b.strategy)
      else F.less b.score a.score

  -- sort.SliceStable
  unfoldable pub place_strategy : RankedStrategy → List RankedStrategy → List RankedStrategy
  place_strategy x [] = x ∷ []
  place_strategy x (y ∷ ys) =
      let rest = place_strategy x ys in if ranks_before y x then y ∷ rest else x ∷ y ∷ ys

  unfoldable pub sort_strategies : List RankedStrategy → List RankedStrategy
  sort_strategies [] = []
  sort_strategies (x ∷ xs) = place_strategy x (sort_strategies xs)

  unfoldable pub ranked_strategy : DpiContext → StrategyEntries F → Strategy → RankedStrategy
  unfolding strategy_score
  ranked_strategy ctx entries c =
      let (score, known) = strategy_score c (strategy_stats F lower ctx c.name entries) in
      record { strategy = c; score = score; known = known }

  pub record StrategyDecision : Type 0 where
    pub strategy : Strategy
    pub score : F.float
    pub known : Bool
    pub alternates : List Bytes

  abbrev pub best_of : List RankedStrategy → Result ChoiceError StrategyDecision
  best_of [] = err no_strategies
  best_of (best ∷ others) = ok (record {
    strategy = best.strategy;
    score = best.score;
    known = best.known;
    alternates = map (λ (r : RankedStrategy). r.strategy.name) others;
  })

  -- Choose
  unfoldable pub dpi_choose :
      DpiContext → List Strategy → StrategyEntries F → Result ChoiceError StrategyDecision
  unfolding all_valid sort_strategies
  dpi_choose ctx [] entries = err no_strategies
  dpi_choose ctx (s ∷ ss) entries = do
    all_valid (s ∷ ss)
    best_of (sort_strategies (map (ranked_strategy ctx entries) (s ∷ ss)))
