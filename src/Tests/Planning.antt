-- ===== src/Tests/Planning.antt =====
-- Plans and first writes at concrete inputs, with integers for floats.
use chameleon_protocol.Base.{◌≡◌, refl, true, false, ◌&&◌, if◌then◌else◌, [], ◌∷◌, ok}
use chameleon_protocol.Base.Int.{ℤ, pos, negsuc, ◌+ℤ◌, ◌-ℤ◌, ◌*ℤ◌, ltb_ℤ, leb_ℤ, quot}
use chameleon_protocol.Base.Bytes.{Bytes, codes}
use chameleon_protocol.Base.Dict.{lookup}
use chameleon_protocol.Net.Text.{trim_space}
use chameleon_protocol.Net.Number.{atoi}
use chameleon_protocol.Net.HostPort.{split_host_port}
use chameleon_protocol.Carrier.{
  Floats, Candidate, chameleon_quic, Kind, direct, compatible_of, filter_compatible,
}
use chameleon_protocol.Carrier.Choice.{
  choose, rank_all, decided, sort_stable, place, ranked, carrier_score,
}
use chameleon_protocol.Dpi.{Strategy, strategy, split, validate, default_strategies}
use chameleon_protocol.Dpi.Engine.Choice.{
  dpi_choose, all_valid, sort_strategies, place_strategy, ranked_strategy, strategy_score,
}
use chameleon_protocol.Planner.{direct_only_dpi}
use chameleon_protocol.Planner.Choice.{Request, ChosenPlan, planner_choose, plan_over}
use chameleon_protocol.Planner.Direct.{planner_choose-direct}
use chameleon_protocol.Traffic.{
  classify, destination_port, class_of_purpose, class_of_port, interactive,
}
use chameleon_protocol.Base.{List, none, inl}
use chameleon_protocol.Io.{Writer, wrote, write_full}
use chameleon_protocol.Dpi.{
  apply_writer, write_shaped, normalized_split_points, kept_points, sort_ints, write_fragments,
}
use chameleon_protocol.Dpi.First.{
  Conn, wrapped, plain, new_first_write_conn, first_write, write_conn, sent_of, write_all,
  write_all-sent,
}

abbrev integral : Floats
integral = record {
  float = ℤ;
  lit = pos;
  of_int = λ n. n;
  add = ◌+ℤ◌;
  sub = ◌-ℤ◌;
  mul = ◌*ℤ◌;
  div = quot;
  least = λ a b. if leb_ℤ a b then a else b;
  exp = λ a. a;
  minus_ln2 = negsuc 0;
  less = ltb_ℤ;
  same = λ a b. leb_ℤ a b && leb_ℤ b a;
}

abbrev lower_case : Bytes → Bytes
lower_case text = text

abbrev price : Strategy → ℤ
price s = s.cost

abbrev carrier : Bytes → Kind → ℤ → Candidate integral
carrier name kind cost = record {
  name = name;
  kind = kind;
  endpoint = codes "c.d:443";
  cost = cost;
  supports_tcp = true;
  supports_udp = true;
  requires_external = false;
}

abbrev offered_early : Strategy
offered_early = strategy (codes "split-early") (split ∷ []) (pos 1 ∷ []) (pos 0) (pos 35) false

abbrev request : Request integral lower_case price
request = record {
  network_id = codes "home";
  destination = codes "a.b:22";
  protocol = codes "tcp";
  purpose = [];
  carriers =
      carrier (codes "direct") direct (pos 9) ∷ carrier (codes "quic") chameleon_quic (pos 2) ∷ [];
  dpi_strategies = offered_early ∷ [];
}

abbrev plan : ChosenPlan integral lower_case price
plan = record {
  network_id = codes "home";
  traffic_class = interactive;
  carrier = record {
    carrier = carrier (codes "quic") chameleon_quic (pos 2);
    score = pos 23;
    known = false;
    alternates = codes "direct" ∷ [];
  };
  dpi = record {
    strategy =
        strategy (codes "direct") (chameleon_protocol.Dpi.direct ∷ []) [] (pos 0) (pos 0) false;
    score = pos 20;
    known = false;
    alternates = [];
  };
  dpi_target = codes "c.d:443";
}

planned : planner_choose integral lower_case price request (λ turn. pos turn) [] [] ≡ ok plan
unfolding planner_choose plan_over choose rank_all filter_compatible compatible_of sort_stable
    ranked decided carrier_score trim_space lookup ◌-ℤ◌ place dpi_choose all_valid validate
    sort_strategies place_strategy ranked_strategy strategy_score direct_only_dpi default_strategies
    classify destination_port class_of_purpose class_of_port split_host_port atoi
planned = refl

abbrev below : Writer
below = record { sent = 7 ∷ []; answers = wrote 1 ∷ wrote 2 ∷ wrote 1 ∷ [] }

planner_choose-direct_example : new_first_write_conn below plan.dpi.strategy ≡ plain below
planner_choose-direct_example =
    planner_choose-direct integral lower_case price request (λ turn. pos turn) [] [] plan below
      planned (inl refl)

abbrev first : Conn
first =
    wrapped (record { conn = below; strategy = offered_early; applied = false; kept_error = none })

abbrev payloads : List Bytes
payloads = (1 ∷ 2 ∷ 3 ∷ []) ∷ (4 ∷ []) ∷ []

made : new_first_write_conn below offered_early ≡ first
unfolding new_first_write_conn
made = refl

all_full : (write_all first payloads).0 ≡ true
unfolding write_all write_conn first_write apply_writer validate trim_space write_shaped
    normalized_split_points kept_points sort_ints write_fragments write_full
    chameleon_protocol.Dpi.place
all_full = refl

write_all-sent_example : sent_of (write_all first payloads).1 ≡ 7 ∷ 1 ∷ 2 ∷ 3 ∷ 4 ∷ []
write_all-sent_example = write_all-sent first payloads all_full
