-- ===== src/Tests/Policy.antt =====
-- Sessions, rekeying, DPI strategies and the carrier memory at concrete inputs.
use chameleon_protocol.Base.{
  ℕ, ◌+◌, ◌^◌, ◌<◌, ◌≤◌, ◌≡◌, ◌↔◌, ◌⊎◌, refl, arith, true, false, ◌&&◌, if◌then◌else◌, List, [],
  ◌∷◌, none, some, ok,
}
use chameleon_protocol.Base.Int.{ℤ, pos, negsuc, ◌≤ℤ◌, ◌+ℤ◌, ◌-ℤ◌, ◌*ℤ◌, ltb_ℤ, leb_ℤ, quot}
use chameleon_protocol.Base.Bytes.{Bytes, codes}
use chameleon_protocol.Net.Text.{trim_space}
use chameleon_protocol.Io.{Writer, wrote, write_full}
use chameleon_protocol.Session.Lifecycle.{
  new_session, session_closed, Call, begin_call, advance_call, run, call, close, closed,
  close-final,
}
use chameleon_protocol.Session.Rekey.{
  RekeyState, record_send, record_sends, reset, total, record_send-due,
}
use chameleon_protocol.Session.Epoch.{
  currents, profiles_at, new_epoch_state, currents-profiles_at, epoch_key,
}
use chameleon_protocol.Session.{period_or_minute}
use chameleon_protocol.Tunnel.Replay.{sub_time}
use chameleon_protocol.Dpi.{
  Strategy, strategy, split, apply_writer, validate, normalized_split_points, write_fragments,
  write_shaped, kept_points, sort_ints, place,
}
use chameleon_protocol.Dpi.Writing.{apply_writer-done, apply_writer-willing}
use chameleon_protocol.Carrier.{Floats, Context, Candidate, Observation, proto_of, direct}
use chameleon_protocol.Carrier.Memory.{observe_all, entry, tries, wins, observe_all-counts}
use chameleon_protocol.Carrier.Choice.{Decision, choose}
use chameleon_protocol.Carrier.Choice.Order.{FloatLaws}
use chameleon_protocol.Carrier.Choice.Best.{carries, Offered, Beats, choose-best}

abbrev calls : List Call
calls = begin_call (pos 1) ∷ advance_call (pos 2) [] (pos 0) ∷ []

close-final_example :
    ((run calls (close (pos 0) new_session).1).state ≡ closed)
    × ((call (begin_call (pos 3)) (run calls (close (pos 0) new_session).1)).0
        ≡ some session_closed)
close-final_example = close-final (pos 0) calls (begin_call (pos 3)) new_session

abbrev rekey : RekeyState
rekey = record {
  policy = record { period = pos 60; max_bytes = pos 10; fail_count = pos 0 };
  last_rekey = pos 0;
  bytes_sent = pos 3;
  consecutive_err = pos 0;
}

abbrev sends : List (ℕ × ℤ)
sends = (4, pos 6) ∷ (5, pos 7) ∷ []

sends_small : total sends + 1 < 2 ^ 63
unfolding total
sends_small = omega arith

record_send-due_example :
    ((record_send (pos 1) (pos 8) (record_sends sends (reset (pos 5) rekey))).0 ≡ true)
    ↔ ((10 ≤ total sends + 1) ⊎ (pos 60 ≤ℤ sub_time (pos 8) (pos 5)))
record_send-due_example =
    record_send-due sends 1 10 (pos 8) (pos 5) rekey refl (omega arith) sends_small

abbrev hmac : Bytes → Bytes → Bytes
hmac key message = 4 ∷ message

currents-profiles_at_example :
    currents hmac (pos 7 ∷ pos 3 ∷ []) (new_epoch_state hmac (pos 2))
    ≡ profiles_at hmac
        (pos 7 ∷ pos 3 ∷ [])
        (record { psk = epoch_key hmac; epoch_period = period_or_minute (pos 2) })
currents-profiles_at_example = currents-profiles_at hmac (pos 2) (pos 7 ∷ pos 3 ∷ [])

abbrev cut : Strategy
cut = strategy (codes "cut") (split ∷ []) (pos 2 ∷ pos 1 ∷ pos 9 ∷ []) (pos 0) (pos 10) false

abbrev slow : Writer
slow = record { sent = 9 ∷ []; answers = wrote 1 ∷ wrote 1 ∷ [] }

abbrev ready : Writer
ready = record { sent = 9 ∷ []; answers = [] }

cut_done : (apply_writer slow (1 ∷ 2 ∷ 3 ∷ []) cut).0 ≡ none
unfolding apply_writer validate trim_space write_shaped normalized_split_points kept_points
    sort_ints place write_fragments write_full
cut_done = refl

apply_writer-done_example : (apply_writer slow (1 ∷ 2 ∷ 3 ∷ []) cut).1.sent ≡ 9 ∷ 1 ∷ 2 ∷ 3 ∷ []
apply_writer-done_example = apply_writer-done slow (1 ∷ 2 ∷ 3 ∷ []) cut cut_done

cut_valid : validate cut ≡ ok tt
unfolding validate trim_space
cut_valid = refl

apply_writer-willing_example :
    ((apply_writer ready (1 ∷ 2 ∷ 3 ∷ []) cut).0 ≡ none)
    × ((apply_writer ready (1 ∷ 2 ∷ 3 ∷ []) cut).1.sent ≡ 9 ∷ 1 ∷ 2 ∷ 3 ∷ [])
apply_writer-willing_example = apply_writer-willing ready 1 (2 ∷ 3 ∷ []) cut cut_valid refl refl

-- Integers in place of floats.
abbrev whole_numbers : Floats
whole_numbers = record {
  float = ℤ;
  lit = pos;
  of_int = λ n. n;
  add = ◌+ℤ◌;
  sub = ◌-ℤ◌;
  mul = ◌*ℤ◌;
  div = quot;
  least = λ a b. if leb_ℤ a b then a else b;
  exp = λ a. a;
  minus_ln2 = negsuc 0;
  less = ltb_ℤ;
  same = λ a b. leb_ℤ a b && leb_ℤ b a;
}

abbrev whole_numbers-FloatLaws : FloatLaws whole_numbers
whole_numbers-FloatLaws = record {
  is_number = λ a. true;
  key = λ a. a;
  less_key = λ a b na nb. refl;
  same_key = λ a b na nb. refl;
}

abbrev as_is : Bytes → Bytes
as_is text = text

abbrev here : Context
here = record { network_id = []; destination = []; traffic_class = []; protocol = [] }

abbrev candidate : Bytes → ℤ → Candidate whole_numbers
candidate name cost = record {
  name = name;
  kind = direct;
  endpoint = [];
  cost = cost;
  supports_tcp = true;
  supports_udp = true;
  requires_external = false;
}

abbrev seen : Observation whole_numbers
seen = record {
  context = here;
  carrier = codes "direct";
  success = true;
  latency = pos 5;
  throughput = pos 0;
  at = none;
}

observe_all-counts_example :
    ((entry whole_numbers as_is here
        (codes "direct")
        (observe_all whole_numbers as_is ((seen, pos 1, true) ∷ []) [])).attempts
      ≡ tries whole_numbers as_is here (codes "direct") ((seen, pos 1, true) ∷ []))
    × ((entry whole_numbers as_is here
          (codes "direct")
          (observe_all whole_numbers as_is ((seen, pos 1, true) ∷ []) [])).successes
        ≡ wins whole_numbers as_is here (codes "direct") ((seen, pos 1, true) ∷ []))
observe_all-counts_example =
    observe_all-counts whole_numbers as_is ((seen, pos 1, true) ∷ []) here (codes "direct")
      (omega arith)

abbrev candidates : List (Candidate whole_numbers)
candidates = candidate (codes "relay") (pos 3) ∷ candidate (codes "direct") (pos 0) ∷ []

relay_fits :
    carries whole_numbers as_is
      (proto_of whole_numbers as_is [])
      (candidate (codes "relay") (pos 3))
    ≡ true
unfolding trim_space
relay_fits = refl

-- The first candidate, as an offer for the protocol of the context.
abbrev relay_offer : Offered whole_numbers as_is whole_numbers-FloatLaws here candidates [] pos
relay_offer = record {
  front = [];
  candidate = candidate (codes "relay") (pos 3);
  back = candidate (codes "direct") (pos 0) ∷ [];
  place = refl;
  fits = relay_fits;
}

choose-best_example :
    (d : Decision whole_numbers as_is) × (best : Offered whole_numbers as_is whole_numbers-FloatLaws
      here candidates [] pos)
    × (choose whole_numbers as_is here candidates pos [] ≡ ok d)
    × Beats whole_numbers as_is whole_numbers-FloatLaws here candidates [] pos d best relay_offer
choose-best_example =
    choose-best whole_numbers as_is whole_numbers-FloatLaws here candidates [] pos relay_offer
      (λ x. (refl, refl))
