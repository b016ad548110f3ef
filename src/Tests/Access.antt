-- ===== src/Tests/Access.antt =====
-- Hellos, handshakes, the registry, the replay cache and the identity store at concrete inputs.
use chameleon_protocol.Base.{
  ◌+◌, ◌^◌, ◌≡◌, ◌≢◌, ◌↔◌, refl, arith, true, false, if◌then◌else◌, [], ◌∷◌, ◌++◌, List, Option,
  none, some, ok, err,
}
use chameleon_protocol.Base.Int.{ℤ, pos, ◌+ℤ◌, ◌-ℤ◌, wrap64, saturate64, int_laws}
use chameleon_protocol.Base.Bytes.{Bytes, codes, is_empty}
use chameleon_protocol.Base.Dict.{lookup, insert}
use chameleon_protocol.Net.HostPort.{split_host_port}
use chameleon_protocol.Net.Text.{trim_space}
use chameleon_protocol.Tunnel.Trim.{strings_trim}
use chameleon_protocol.Net.Number.{atoi}
use chameleon_protocol.Crypto.{Aead, seal_frame}
use chameleon_protocol.Io.{Writer, write_full, write_loop, read_full}
use chameleon_protocol.Identity.{
  key_mismatch, save_failed, register_or_verify, verify, call_all, StoreCall, meet, put,
  register_or_verify-pinned,
}
use chameleon_protocol.Tunnel.Destination.{validate_destination}
use chameleon_protocol.Tunnel.Registry.{
  ClientCredential, Registry, new_client_registry, add_all, add_credential, validate_client_id,
  validate_client_secret, all_id_bytes, is_id_byte, resolve,
}
use chameleon_protocol.Tunnel.Registry.Built.{AllGood, new_client_registry-AllGood}
use chameleon_protocol.Tunnel.Registry.Resolved.{Serves, resolve_iff}
use chameleon_protocol.Tunnel.Replay.{
  sub_time, evict, accept_nonce, within_skew, admit, unix_time, Seen,
}
use chameleon_protocol.Tunnel.Replay.Cache.{empty}
use chameleon_protocol.Tunnel.Replay.Admission.{
  admit_all, no_replay, replay_admitted, within_skew-overflow,
}
use chameleon_protocol.Tunnel.Hello.{replayed, build_client_hello, read_client_hello}
use chameleon_protocol.Tunnel.Hello.RoundTrip.{hello_of, read_client_hello-build_client_hello}
use chameleon_protocol.Tunnel.Handshake.{
  read_start, client_start, client_proof, derive_v2_cipher, server_handshake_v2, ServerState,
  authenticate_conn,
}
use chameleon_protocol.Tunnel.Handshake.Legacy.{authenticate_conn-admit}
use chameleon_protocol.Tunnel.Handshake.Refused.{
  server_handshake_v2-refuses, server_handshake_v2-same_challenge,
}
use chameleon_protocol.Tunnel.Handshake.Complete.{hello_v2, server_handshake_v2-client}
use chameleon_protocol.Tests.Wire.{toy, toy-AeadLaws, site, site_valid}

abbrev toy_derive : Bytes → Bytes → Bytes → Aead
toy_derive secret salt info = toy

abbrev no_time : Bytes → Option ℤ
no_time text = none

-- 32 bytes
abbrev nonce : Bytes
nonce = codes "0123456789abcdef0123456789abcdef"

abbrev hello_bytes : Bytes
hello_bytes = nonce ++ (0 ∷ 20 ∷ 1 ∷ 2 ∷ 7 ∷ 1 ∷ 0 ∷ 0 ∷ 0 ∷ 0 ∷ 0 ∷ 0 ∷ 0 ∷ 0 ∷ 0 ∷ 6 ∷ site)

hello_built :
    build_client_hello toy_derive (codes "key") site (pos 0) (some nonce) (some (1 ∷ 2 ∷ []))
    ≡ ok (hello_bytes, nonce)
unfolding build_client_hello seal_frame validate_destination split_host_port trim_space atoi
hello_built = refl

hello_fresh : within_skew (pos 120000000000) (pos 0) (unix_time (pos 0)) ≡ true
unfolding within_skew unix_time sub_time saturate64 wrap64 ◌-ℤ◌ ◌+ℤ◌
hello_fresh = refl

read_client_hello-build_client_hello_example :
    read_client_hello toy_derive (hello_bytes ++ (5 ∷ [])) (codes "key") (pos 0) (pos 0)
    ≡ ok (hello_of toy_derive (pos 0) nonce site, 5 ∷ [])
read_client_hello-build_client_hello_example =
    read_client_hello-build_client_hello toy_derive (codes "key") site nonce (1 ∷ 2 ∷ [])
      hello_bytes nonce (5 ∷ []) (pos 0) (pos 0) (pos 0) toy-AeadLaws refl refl
      (omega arith, omega arith) hello_fresh hello_built

hello_read :
    read_client_hello toy_derive hello_bytes (codes "key") (pos 0) (pos 120000000000)
    ≡ ok (hello_of toy_derive (pos 0) nonce site, [])
hello_read =
    read_client_hello-build_client_hello toy_derive (codes "key") site nonce (1 ∷ 2 ∷ [])
      hello_bytes nonce [] (pos 0) (pos 0) (pos 120000000000) toy-AeadLaws refl refl
      (omega arith, omega arith) hello_fresh hello_built

abbrev server : ServerState toy_derive no_time
server = record { psk = codes "key"; clients = []; max_clock_skew = pos 120000000000; seen = [] }

key_set : is_empty (strings_trim (codes "key")) ≡ false
unfolding strings_trim
key_set = refl

authenticate_conn-admit_example :
    ((authenticate_conn toy_derive no_time hello_bytes
        (record { sent = []; answers = [] })
        (pos 0)
        (pos 7)
        none
        none
        server).0
      ≡ (if (admit (pos 120000000000) nonce (unix_time (pos 0)) (pos 0) (pos 7) []).0
          then ok (hello_of toy_derive (pos 0) nonce site, toy)
          else err replayed))
    × ((authenticate_conn toy_derive no_time hello_bytes
          (record { sent = []; answers = [] })
          (pos 0)
          (pos 7)
          none
          none
          server).1.1.seen
        ≡ (admit (pos 120000000000) nonce (unix_time (pos 0)) (pos 0) (pos 7) []).1)
authenticate_conn-admit_example =
    authenticate_conn-admit toy_derive no_time hello_bytes [] (record { sent = []; answers = [] })
      (pos 0) (pos 7) none none server (hello_of toy_derive (pos 0) nonce site) refl refl key_set
      (omega arith) hello_read

abbrev client : ClientCredential
client = record {
  id = codes "client-1";
  name = [];
  secret = nonce;
  enabled = true;
  expires_at = [];
}

abbrev clients : Registry
clients = (codes "client-1", client) ∷ []

clients_built : new_client_registry no_time (client ∷ []) ≡ ok clients
unfolding new_client_registry add_all add_credential insert lookup validate_client_id
    validate_client_secret all_id_bytes is_id_byte trim_space
clients_built = refl

new_client_registry-AllGood_example : AllGood no_time clients
new_client_registry-AllGood_example =
    new_client_registry-AllGood no_time (client ∷ []) clients clients_built

resolve_iff_example :
    (resolve no_time clients (codes "client-1") (pos 0) ≡ some client)
    ↔ Serves no_time clients (codes "client-1") (pos 0) client
resolve_iff_example = resolve_iff no_time clients (codes "client-1") (pos 0) client

client_resolved : resolve no_time clients (codes "client-1") (pos 0) ≡ some client
unfolding resolve lookup trim_space
client_resolved = refl

abbrev proof : Bytes
proof = 0 ∷ 12 ∷ 1 ∷ 2 ∷ 7 ∷ 2 ∷ 0 ∷ 6 ∷ site

proof_made : client_proof toy_derive nonce nonce nonce site (some (1 ∷ 2 ∷ [])) ≡ ok proof
unfolding client_proof derive_v2_cipher validate_client_secret trim_space seal_frame
proof_made = refl

abbrev quiet : Writer
quiet = record { sent = []; answers = [] }

challenge_sent : (write_full quiet nonce).0 ≡ none
unfolding write_full write_loop
challenge_sent = refl

server_handshake_v2-client_example :
    server_handshake_v2 toy_derive no_time
      (client_start toy_derive (codes "client-1") nonce ++ (proof ++ (5 ∷ [])))
      quiet
      clients
      (pos 0)
      none
      (some nonce)
    ≡ (ok (hello_v2 toy_derive (codes "client-1") nonce site, toy), (write_full quiet nonce).1)
server_handshake_v2-client_example =
    server_handshake_v2-client toy_derive no_time (codes "client-1") nonce nonce site (1 ∷ 2 ∷ [])
      proof (5 ∷ []) quiet clients (pos 0) none client toy-AeadLaws refl (omega arith) (omega arith)
      refl site_valid client_resolved proof_made challenge_sent

abbrev stream : Bytes
stream = 0x43 ∷ 0x48 ∷ 0x32 ∷ 0x00 ∷ 0 ∷ 8 ∷ (codes "client-2" ++ (nonce ++ proof))

stream_started :
    read_start stream
    ≡ ok (record { client_id = codes "client-2"; client_nonce = nonce; rest = proof })
unfolding read_start read_full
stream_started = refl

not_resolved : resolve no_time clients (codes "client-2") (pos 0) ≡ none
unfolding resolve lookup trim_space
not_resolved = refl

server_handshake_v2-refuses_example :
    (server_handshake_v2 toy_derive no_time stream quiet clients
      (pos 0)
      (some nonce)
      (some nonce)).0
    ≢ ok (hello_v2 toy_derive (codes "client-2") nonce site, toy)
server_handshake_v2-refuses_example =
    server_handshake_v2-refuses toy_derive no_time stream quiet clients (pos 0) (some nonce)
      (some nonce) (record { client_id = codes "client-2"; client_nonce = nonce; rest = proof })
      (hello_v2 toy_derive (codes "client-2") nonce site, toy) stream_started not_resolved

server_handshake_v2-same_challenge_example :
    (server_handshake_v2 toy_derive no_time stream quiet clients
      (pos 0)
      (some nonce)
      (some nonce)).1
    ≡ (server_handshake_v2 toy_derive no_time stream quiet [] (pos 0) (some nonce) (some nonce)).1
server_handshake_v2-same_challenge_example =
    server_handshake_v2-same_challenge toy_derive no_time stream quiet clients [] (pos 0) nonce
      (some nonce)

first_admitted : (admit (pos 10) nonce (pos 100) (pos 104) (pos 105) []).0 ≡ true
unfolding admit accept_nonce within_skew sub_time saturate64 wrap64 ◌-ℤ◌ evict lookup
first_admitted = refl

no_replay_example :
    (admit (pos 10) nonce (pos 100) (pos 117) (pos 120) (
      admit_all
        (pos 10)
        (record { nonce = []; sent_at = pos 111; tested = pos 110; now = pos 111 } ∷ [])
        (admit (pos 10) nonce (pos 100) (pos 104) (pos 105) []).1)).0
    ≡ false
no_replay_example =
    no_replay (pos 10) (pos 104) (pos 105) (pos 117) (pos 120) (pos 100) (pos 4) nonce
      (record { nonce = []; sent_at = pos 111; tested = pos 110; now = pos 111 } ∷ []) []
      (omega arith) (omega arith) (omega int_laws) (omega int_laws) (omega arith, tt) first_admitted

abbrev nothing_seen : Seen
nothing_seen = []

unknown_nonce : lookup nonce nothing_seen ≡ none
unfolding lookup
unknown_nonce = refl

replay_admitted_example :
    ((admit (pos 10) nonce (pos 100) (pos 100) (pos 101) []).0 ≡ true)
    × ((admit
          (pos 10)
          nonce
          (pos 100)
          (pos 109)
          (pos 112)
          (admit (pos 10) nonce (pos 100) (pos 100) (pos 101) []).1).0
        ≡ true)
replay_admitted_example =
    replay_admitted (pos 10) (pos 100) (pos 101) (pos 109) (pos 112) (pos 100) nonce []
      (omega arith) (omega arith) empty unknown_nonce (omega int_laws) (omega int_laws)
      (omega int_laws) (omega int_laws) (omega int_laws)

within_skew-overflow_example : within_skew (pos 10) (pos 5) (pos (2 ^ 63 + 5)) ≡ true
within_skew-overflow_example =
    within_skew-overflow (pos 10) (pos 5) (pos (2 ^ 63 + 5)) (omega arith) (omega int_laws)

abbrev alice : Bytes
alice = codes "alice"

first_seen : (register_or_verify alice (1 ∷ []) true []).0 ≡ ok true
unfolding register_or_verify verify lookup
first_seen = refl

abbrev others : List StoreCall
others =
    meet (record { id = alice; key = 3 ∷ []; saves = true })
    ∷ put (record { id = codes "bob"; key = 4 ∷ []; saves = true })
    ∷ []

register_or_verify-pinned_example :
    (register_or_verify alice
      (2 ∷ [])
      true
      (call_all others (register_or_verify alice (1 ∷ []) true []).1)).0
    ≡ err key_mismatch
register_or_verify-pinned_example =
    register_or_verify-pinned alice (1 ∷ []) (2 ∷ []) true true true others [] refl refl
      (tt, (refl, tt)) first_seen

not_saved : (register_or_verify alice (1 ∷ []) false []).0 ≡ err save_failed
unfolding register_or_verify verify lookup
not_saved = refl
