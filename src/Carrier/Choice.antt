-- ===== src/Carrier/Choice.antt =====
-- Choose of pkg/carrier/engine.go: the score of a carrier, the ranking, and the decision.
pub mod Order
pub mod Best
use mathlib.Core.List.{map}
use chameleon_protocol.Base.{
  ℕ, suc, ◌+◌, ◌-◌, ◌≡◌, ◌⊎◌, inl, inr, refl, sym, ap, ◌∙◌, arith, ◌==◌, ◌&&◌, ◌||◌, not, leb, ltb,
  Bool, true, false, if◌then◌else◌, List, [], ◌∷◌, Option, none, some, Result, ok, err, length,
  Bool-cases, All,
}
use chameleon_protocol.Base.Int.{ℤ, pos, negsuc, ltb_ℤ, leb_ℤ, ◌≤ℤ◌}
use chameleon_protocol.Base.Bytes.{Bytes, codes, bytes_eq}
use chameleon_protocol.Tunnel.Replay.{sub_time}
use chameleon_protocol.Carrier.{
  Floats, Context, CarrierError, no_compatible, Candidate, Stats, Entries, stats_of, is_compatible,
  compatible_of, filter_compatible, proto_of,
}

module _ (F : Floats) where
  -- LastObservation, or the later of the two times of an entry from before that field.
  abbrev pub last_of : Stats F → Option ℤ
  last_of s = elim s.last_observation [
    | some t ↦ some t
    | none ↦ elim s.last_success [
      | none ↦ s.last_failure
      | some a ↦ elim s.last_failure [
        | none ↦ some a
        | some b ↦ if ltb_ℤ b a then some a else some b
      ]
    ]
  ]

  unfoldable pub freshness_at : Option ℤ → ℤ → F.float
  freshness_at none now = F.lit 100
  freshness_at (some last) now =
      let age = sub_time now last in
      if leb_ℤ age (pos 0)
      then F.lit 100
      else F.exp (F.div (F.mul F.minus_ln2 (F.of_int age)) (F.of_int (pos 86400000000000)))

  -- evidenceFreshness, for a clock that is set
  unfoldable pub evidence_freshness : Stats F → ℤ → F.float
  evidence_freshness s now = freshness_at (last_of s) now

  abbrev pub second : F.float
  second = F.of_int (pos 1000000000)

  -- What the traffic class makes of latency, jitter and throughput.
  unfoldable pub weighted : Bytes → F.float → F.float → F.float → F.float → F.float
  weighted class learned latency jitter boost =
      if bytes_eq class (codes "interactive") || bytes_eq class (codes "realtime")
      then F.add (F.sub (F.sub learned (F.mul latency (F.lit 220))) (F.mul jitter (F.lit 170)))
          (F.mul boost (F.lit 25))
      else if bytes_eq class (codes "streaming")
      then F.add (F.sub (F.sub learned (F.mul latency (F.lit 70))) (F.mul jitter (F.lit 40)))
          (F.mul boost (F.lit 150))
      else if bytes_eq class (codes "bulk")
      then F.add (F.sub learned (F.mul latency (F.lit 30))) (F.mul boost (F.lit 200))
      else F.add (F.sub learned latency) boost

  module _ (lower : Bytes → Bytes) where
    unfoldable pub learned_score : Bytes → Candidate F → Stats F → F.float
    learned_score class c s =
        let rate = F.div (F.of_int (pos s.successes)) (F.of_int (pos s.attempts)) in
        let learned =
          F.sub
            (F.sub (F.mul rate (F.lit 700)) (F.mul (F.of_int (pos s.failure_streak)) (F.lit 180)))
            c.cost in
        weighted (lower class) learned (F.least (F.div (F.of_int s.avg_latency) second) (F.lit 250))
          (F.least (F.div (F.of_int s.avg_jitter) second) (F.lit 150))
          (F.least (F.div s.avg_throughput (F.of_int (pos 8388608))) (F.lit 200))

    -- carrierScore
    unfoldable pub carrier_score : Bytes → Candidate F → Option (Stats F) → ℤ → F.float × Bool
    carrier_score class c none now = (F.sub (F.lit 25) c.cost, false)
    carrier_score class c (some s) now =
        let baseline = F.sub (F.lit 25) c.cost in
        if s.attempts == 0 then (baseline, false) else (
          F.add baseline
              (F.mul (evidence_freshness s now) (F.sub (learned_score class c s) baseline)),
          true,
        )

    pub record Ranked : Type 0 where
      pub candidate : Candidate F
      pub score : F.float
      pub known : Bool

    -- The order of Choose: the higher score first, the lower cost among equals.
    abbrev pub before : Ranked → Ranked → Bool
    before a b =
        if F.same a.score b.score
        then F.less a.candidate.cost b.candidate.cost
        else F.less b.score a.score

    -- sort.SliceStable
    unfoldable pub place : Ranked → List Ranked → List Ranked
    place x [] = x ∷ []
    place x (y ∷ ys) = let rest = place x ys in if before y x then y ∷ rest else x ∷ y ∷ ys

    unfoldable pub sort_stable : List Ranked → List Ranked
    sort_stable [] = []
    sort_stable (x ∷ xs) = place x (sort_stable xs)

    unfoldable pub ranked : Context → Entries F → ℤ → Candidate F → Ranked
    ranked ctx entries now c =
        let (score, known) =
          carrier_score ctx.traffic_class c (stats_of F lower ctx c.name entries) now in
        record { candidate = c; score = score; known = known }

    pub record Decision : Type 0 where
      pub carrier : Candidate F
      pub score : F.float
      pub known : Bool
      pub alternates : List Bytes

    unfoldable pub decided : List Ranked → Result CarrierError Decision
    decided [] = err no_compatible
    decided (best ∷ others) = ok (record {
      carrier = best.candidate;
      score = best.score;
      known = best.known;
      alternates = map (λ (r : Ranked). r.candidate.name) others;
    })

    -- The loop that ranks the compatible candidates; it reads the clock anew for each, and `clock` has
    -- these readings.
    unfoldable pub rank_all : Context → Entries F → (ℕ → ℤ) → ℕ → List (Candidate F) → List Ranked
    rank_all ctx entries clock turn [] = []
    rank_all ctx entries clock turn (c ∷ cs) =
        ranked ctx entries (clock turn) c ∷ rank_all ctx entries clock (suc turn) cs

    -- Choose
    unfoldable pub choose :
        Context → List (Candidate F) → (ℕ → ℤ) → Entries F → Result CarrierError Decision
    choose ctx candidates clock entries = decided (
        sort_stable
          (rank_all ctx entries clock 0 (filter_compatible F lower ctx.protocol candidates)))
