-- ===== src/Tests/Sending.antt =====
-- The plain transport, the UDP server and the signed messages at concrete inputs.
use chameleon_protocol.Base.{
  ℕ, zero, suc, ◌+◌, ◌-◌, ◌^◌, ◌≤◌, ◌<◌, ◌≡◌, refl, arith, Bool, true, false, Option, none, some,
  List, [], ◌∷◌, ◌++◌, length, drop, ok, ◌>>=◌,
}
use chameleon_protocol.Base.Int.{ℤ, pos, ◌≤ℤ◌, ◌+ℤ◌, wrap64}
use chameleon_protocol.Base.Bytes.{Bytes, codes, is_empty}
use chameleon_protocol.Base.Dict.{lookup, insert}
use chameleon_protocol.Crypto.{seal_frame, open_frame}
use chameleon_protocol.Crypto.Peer.{
  Primitives, KeyManager, verify_signed_public, shared_secret, derive_shared_secret,
  session_context, derive_session_key, new_cipher_from_key, sign_with,
}
use chameleon_protocol.Crypto.Rekey.{
  create_rekey_message, verify_rekey_message, create_rekey_ack, verify_rekey_ack, SigningLaws,
  verify_rekey-create_rekey, verify_rekey_message-shifted,
}
use chameleon_protocol.Crypto.Envelope.{
  Json, EnvelopeLaws, wrap_identity_payload, parse_identity_payload, authentic_body,
  valid_identity_tag, parse_identity_payload-wrap, parse_identity_payload-authentic,
}
use chameleon_protocol.Frame.{decode_frame, encode_frame, profile_id}
use chameleon_protocol.Identity.{Store, register_or_verify, verify}
use chameleon_protocol.Morph.{
  Random, RandomLaws, target_size, normalize, pad_with, next_delay, validate_padding,
  validate_jitter,
}
use chameleon_protocol.Session.Lifecycle.{new_session, advance, stepped, rotated}
use chameleon_protocol.Session.{epoch_at}
use chameleon_protocol.Transport.{Normalizer, Transport, Moment, normalize_packet, consume_entropy}
use chameleon_protocol.Transport.Shaping.{IsPadded, normalize_packet-IsPadded}
use chameleon_protocol.Transport.Sending.{send, shaped, advanced, profile_name, burst}
use chameleon_protocol.Transport.Budget.{limited_to, total_padding, burst-total_padding}
use chameleon_protocol.Gateway.{
  Setup, Gateway, Arrival, Greeting, serve, receive, greeted, verified_claim, decoded_claim,
  session_cipher, opened_packet, active_cipher,
}
use chameleon_protocol.Gateway.Admission.{IsVouched, started, opened_packet-IsVouched}
use chameleon_protocol.Gateway.Delivery.{opened_packet-send}
use chameleon_protocol.Tests.Wire.{toy, toy-AeadLaws}

unfoldable zeros : ℕ → Bytes
zeros zero = []
zeros (suc n) = 0 ∷ zeros n

length-zeros : (n : ℕ) → length (zeros n) ≡ n
unfolding zeros
length-zeros zero = refl
length-zeros (suc n) = omega (arith, length-zeros n)

unfoldable least : ℕ → Option ℕ
least zero = none
least (suc n) = some 0

least_fits : (n o : ℕ) → least n ≡ some o → o < n
unfolding least
least_fits zero o h = cc
least_fits (suc n) o h = let e : 0 ≡ o = cc in omega arith

abbrev lazy : Random
lazy = record { size_below = least; padding_of = λ n. some (zeros n); delay_below = least }

lazy-RandomLaws : RandomLaws lazy
lazy-RandomLaws = record {
  size_fits = least_fits;
  padding_fits = λ n bytes h. (let e : zeros n ≡ bytes = cc in rw (← e) (length-zeros n));
  delay_fits = least_fits;
}

abbrev shaper : Normalizer
shaper = record {
  padding = record { min_pad = pos 2; max_pad = pos 4; entropy_budget = pos 5 };
  jitter = record { base_delay = pos 10; min_jitter = pos 1; max_jitter = pos 3 };
  profile = codes "gaming";
}

shaper_pads : normalize_packet shaper lazy (9 ∷ []) ≡ ok (9 ∷ 0 ∷ 0 ∷ [], pos 11)
unfolding normalize_packet target_size normalize pad_with next_delay validate_padding
    validate_jitter least zeros wrap64 ◌+ℤ◌ chameleon_protocol.Base.Int.◌-ℤ◌
shaper_pads = refl

normalize_packet-IsPadded_example :
    IsPadded shaper.padding (9 ∷ []) (9 ∷ 0 ∷ 0 ∷ [])
    × (pos 10 +ℤ pos 1 ≤ℤ pos 11)
    × (pos 11 ≤ℤ pos 10 +ℤ pos 3)
normalize_packet-IsPadded_example =
    normalize_packet-IsPadded shaper lazy (9 ∷ []) (9 ∷ 0 ∷ 0 ∷ []) (pos 11) lazy-RandomLaws
      (omega arith, omega arith) (omega arith) (unfold ◌+ℤ◌ in omega arith) shaper_pads

abbrev no_hmac : Bytes → Bytes → Bytes
no_hmac key msg = []

abbrev sender : Transport
sender = record {
  normalizer = shaper;
  cipher = some toy;
  syncer = none;
  session = new_session;
  sec = limited_to 5 [];
}

abbrev moment : Moment
moment = record {
  started = pos 0;
  profile_time = pos 1;
  advance_time = pos 2;
  epoch_time = pos 3;
  finished = pos 4;
  memory_profile = none;
  decided_profile = none;
  nonce = some (1 ∷ 2 ∷ []);
  random = lazy;
  taken = true;
}

burst-total_padding_example :
    total_padding (burst no_hmac sender (moment ∷ moment ∷ moment ∷ []) (9 ∷ [])) ≤ 5
burst-total_padding_example =
    burst-total_padding no_hmac sender (moment ∷ moment ∷ moment ∷ []) (9 ∷ []) 5 [] (omega arith)
      refl

abbrev sent_frame : Bytes
sent_frame =
    codes "CHLM" ++ (1 ∷ 0 ∷ 0 ∷ 3 ∷ 0 ∷ 0 ∷ 0 ∷ 4 ∷ 0 ∷ 0 ∷ 0 ∷ 6 ∷ 1 ∷ 2 ∷ 7 ∷ 9 ∷ 0 ∷ 0 ∷ [])

sender_writes : (send no_hmac sender moment (9 ∷ [])).written ≡ some sent_frame
unfolding send shaped advanced profile_name normalize_packet target_size normalize pad_with
    next_delay validate_padding validate_jitter least zeros wrap64 ◌+ℤ◌
    chameleon_protocol.Base.Int.◌-ℤ◌ seal_frame encode_frame profile_id consume_entropy advance
    stepped rotated epoch_at new_session
sender_writes = refl

-- Algorithms that are not secure, and keep the documented laws.
abbrev weak : Primitives
weak = record {
  sha256 = λ s. 1 ∷ [];
  aes_gcm = λ key. some toy;
  hkdf = λ secret salt info n. some (1 ∷ []);
  x25519 = λ scalar point. some (1 ∷ []);
  sign = λ key msg. zeros 64;
  verify = λ key msg sig. true;
  hmac = λ key msg. zeros 32;
  encode64 = λ s. 0 ∷ s;
  decode64 = λ s. some (drop 1 s);
}

abbrev manager : KeyManager
manager = record { private = 1 ∷ []; public = zeros 32 }

abbrev strict : Setup
strict = record { primitives = weak; legacy = toy; require_auth = true; manager = manager }

abbrev known_peer : Gateway
known_peer = record { store = []; peers = insert (codes "c") toy [] }

known_peer_cipher : active_cipher strict (lookup (codes "c") known_peer.peers) ≡ ok toy
unfolding active_cipher lookup insert
known_peer_cipher = refl

opened_packet-send_example : opened_packet strict known_peer (codes "c") sent_frame ≡ ok (9 ∷ [])
opened_packet-send_example =
    opened_packet-send no_hmac sender moment (9 ∷ []) sent_frame (codes "c") strict known_peer toy 4
      toy-AeadLaws lazy-RandomLaws (λ nonce h. (let e : 1 ∷ 2 ∷ [] ≡ nonce = cc in rw (← e) refl))
      (omega arith, omega arith) (omega arith) (omega arith) refl known_peer_cipher sender_writes

abbrev greeting : Greeting
greeting = record {
  identity = codes "a";
  x25519 = 0 ∷ 5 ∷ [];
  ed25519 = 0 ∷ zeros 32;
  sig = 0 ∷ zeros 64;
}

abbrev hello : Arrival
hello = record {
  from = codes "c";
  packet = [];
  greeting = some greeting;
  exchange = some (record { private = 1 ∷ []; public = 6 ∷ [] });
  saves = true;
  answered = true;
}

abbrev loaded : Store
loaded = insert (codes "b") (codes "key") []

greeted_opens :
    opened_packet strict (serve strict (started loaded) (hello ∷ [])) (codes "c") sent_frame
    ≡ ok (9 ∷ [])
unfolding opened_packet decode_frame active_cipher lookup insert open_frame serve receive greeted
    verified_claim decoded_claim verify_signed_public session_cipher derive_shared_secret
    shared_secret session_context derive_session_key new_cipher_from_key sign_with
    register_or_verify verify zeros
greeted_opens = refl

opened_packet-IsVouched_example :
    IsVouched strict (hello ∷ []) (serve strict (started loaded) (hello ∷ [])).store (codes "c")
opened_packet-IsVouched_example =
    opened_packet-IsVouched strict loaded (hello ∷ []) (codes "c") sent_frame (9 ∷ []) refl
      greeted_opens

manager-SigningLaws : SigningLaws weak manager
unfolding zeros
manager-SigningLaws = record {
  verify_sign = λ msg. refl;
  decode_encode = λ bytes. refl;
  public_size = refl;
  has_private = refl;
}

verify_rekey-create_rekey_example :
    ((create_rekey_message weak manager (3 ∷ []) (4 ∷ []) >>= λ msg.
    verify_rekey_message weak msg manager.public)
      ≡ ok (3 ∷ []))
    × ((create_rekey_ack weak manager (3 ∷ []) (5 ∷ []) >>= λ msg.
          verify_rekey_ack weak msg manager.public)
        ≡ ok (3 ∷ []))
verify_rekey-create_rekey_example =
    verify_rekey-create_rekey weak manager (3 ∷ []) (4 ∷ []) (5 ∷ []) manager-SigningLaws

first_message :
    verify_rekey_message weak
      (record { epoch_id = 0 ∷ 3 ∷ 4 ∷ []; key_info = 5 ∷ []; sig = 0 ∷ 6 ∷ [] })
      manager.public
    ≡ ok (3 ∷ 4 ∷ [])
unfolding verify_rekey_message zeros
first_message = refl

verify_rekey_message-shifted_example :
    verify_rekey_message weak
      (record { epoch_id = 0 ∷ 3 ∷ []; key_info = 4 ∷ 5 ∷ []; sig = 0 ∷ 6 ∷ [] })
      manager.public
    ≡ ok (3 ∷ [])
verify_rekey_message-shifted_example =
    verify_rekey_message-shifted weak (3 ∷ []) (4 ∷ []) (5 ∷ []) (0 ∷ 6 ∷ []) manager.public
      (λ bytes. refl) first_message

-- A pair of texts, the first with a 1 before each byte and a 0 at its end.
unfoldable paired : Bytes → Bytes → Bytes
paired [] payload = 0 ∷ payload
paired (b ∷ id) payload = 1 ∷ b ∷ paired id payload

abbrev with_first : ℕ → Option (Bytes × Bytes) → Option (Bytes × Bytes)
with_first b none = none
with_first b (some (id, payload)) = some (b ∷ id, payload)

unfoldable unpaired : Bytes → Option (Bytes × Bytes)
unpaired [] = none
unpaired (zero ∷ payload) = some ([], payload)
unpaired (suc n ∷ []) = none
unpaired (suc n ∷ b ∷ rest) = with_first b (unpaired rest)

unpaired-paired : (id payload : Bytes) → unpaired (paired id payload) ≡ some (id, payload)
unfolding unpaired paired
unpaired-paired [] payload = refl
unpaired-paired (b ∷ id) payload = rw (unpaired-paired id payload) refl

paired_some : (id payload : Bytes) → 0 < length (paired id payload)
unfolding paired
paired_some [] payload = omega arith
paired_some (b ∷ id) payload = omega arith

abbrev pairs : Json
pairs = record { marshal = paired; unmarshal = unpaired }

weak-EnvelopeLaws : EnvelopeLaws weak pairs
weak-EnvelopeLaws = record {
  tag_size = λ key msg. length-zeros 32;
  decode_encode = λ bytes. refl;
  encode_some = λ bytes h. refl;
  unmarshal_marshal = unpaired-paired;
  marshal_some = paired_some;
}

parse_identity_payload-wrap_example :
    (wrap_identity_payload weak pairs (codes "a") (codes "k") (codes "p") >>= λ encoded.
    parse_identity_payload weak pairs encoded (codes "k"))
    ≡ ok (codes "a", codes "p")
parse_identity_payload-wrap_example =
    parse_identity_payload-wrap weak pairs (codes "a") (codes "k") (codes "p") weak-EnvelopeLaws
      refl refl

-- An envelope whose body ends with a dot.
abbrev envelope : Bytes
envelope = 0 ∷ (paired (codes "a") (codes "p") ++ (b'.' ∷ zeros 32))

envelope_parses :
    parse_identity_payload weak pairs envelope (codes "k") ≡ ok (codes "a", codes "p.")
unfolding parse_identity_payload authentic_body valid_identity_tag zeros paired unpaired
envelope_parses = refl

parse_identity_payload-authentic_example :
    (decoded : Bytes) × (body : Bytes) × (weak.decode64 envelope ≡ some decoded)
    × (weak.hmac (codes "k") body ≡ drop (length decoded - 32) decoded)
    × (pairs.unmarshal body ≡ some (codes "a", codes "p."))
    × (is_empty (codes "a") ≡ false)
parse_identity_payload-authentic_example =
    parse_identity_payload-authentic weak pairs envelope (codes "k") (codes "a") (codes "p.")
      envelope_parses
