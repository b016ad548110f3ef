-- ===== src/Gateway/Admission.antt =====
-- Who has a cipher at the UDP server of cmd/server/main.go, and whose packets it opens.
use mathlib.Core.Path.{subst}
use mathlib.Core.List.{Memᴰ}
use chameleon_protocol.Base.{
  ◌≡◌, refl, sym, ◌∙◌, Bool, true, false, Bool-cases, inl, inr, if◌then◌else◌, Option, none, some,
  Option-cases, List, [], ◌∷◌, Result, ok, err, >>=-ok, >>-ok, fail_if-ok, from_option,
  from_option-ok, ok_injective, ap, not, not-not, length, ◌==◌,
}
use chameleon_protocol.Base.Bytes.{Bytes, bytes_eq, bytes_eq→eq, is_empty}
use chameleon_protocol.Base.Dict.{lookup, lookup-insert}
use chameleon_protocol.Crypto.{Aead}
use chameleon_protocol.Crypto.Peer.{Primitives, KeyError, verify_signed_public}
use chameleon_protocol.Frame.{decode_frame}
use chameleon_protocol.Identity.{Store, StoreError, meet-keeps, accepted-pins}
use chameleon_protocol.Gateway.{
  Gateway, Setup, Arrival, Greeting, Claim, GatewayError, verified_claim, session_cipher,
  after_cipher, after_pin, after_claim, greeted, received_packet, receive, serve, is_complete,
  opened_packet, active_cipher, frame_fault, decoded_claim, or_fault, not_verified, bad_x25519_text,
  bad_ed25519_text, bad_sig_text,
}

-- One of the arrivals is a greeting from this address, in which Ed25519 verifies the signature of the
-- X25519 key under the Ed25519 key, and its identity is pinned to this Ed25519 key.
pub record IsVouched (u : Setup) (all : List Arrival) (store : Store) (from : Bytes) : Type 0 where
  pub arrival : Arrival
  pub seen : Memᴰ arrival all
  pub same_address : arrival.from ≡ from
  pub greeting : Greeting
  pub given : arrival.greeting ≡ some greeting
  pub claim : Claim
  pub xpub : u.primitives.decode64 greeting.x25519 ≡ some claim.xpub
  pub edpub : u.primitives.decode64 greeting.ed25519 ≡ some claim.edpub
  pub sig : u.primitives.decode64 greeting.sig ≡ some claim.sig
  pub signed : u.primitives.verify claim.edpub claim.xpub claim.sig ≡ true
  pub pinned : lookup greeting.identity store ≡ some greeting.ed25519

abbrev pub AllVouched : Setup → List Arrival → Gateway → Type 0
AllVouched u all w =
    (from : Bytes) (c : Aead) → lookup from w.peers ≡ some c → IsVouched u all w.store from

abbrev Keeps : Store → Store → Type 0
Keeps s s' = (j k : Bytes) → lookup j s ≡ some k → lookup j s' ≡ some k

module _ (u : Setup) (all : List Arrival) where
  or_fault-ok :
      (f : KeyError → GatewayError) (r : Result KeyError (Unit {0}))
      → or_fault f r ≡ ok tt
      → r ≡ ok tt
  or_fault-ok f (ok _) h = refl
  or_fault-ok f (err e) h = cc

  verify_signed_public-signed :
      (p : Primitives) (xpub edpub sig : Bytes)
      → verify_signed_public p xpub edpub sig ≡ ok tt
      → p.verify edpub xpub sig ≡ true
  unfolding verify_signed_public
  verify_signed_public-signed p xpub edpub sig h =
      let (_, h1) = fail_if-ok (is_empty xpub) _ _ h in
      let (_, h2) = fail_if-ok (not (length edpub == 32)) _ _ h1 in
      let (_, h3) = fail_if-ok (not (length sig == 64)) _ _ h2 in
      not-not _ (fail_if-ok (not (p.verify edpub xpub sig)) _ _ h3).0

  decoded_claim-texts :
      (g : Greeting) (c : Claim)
      → decoded_claim u g ≡ ok c
      → (u.primitives.decode64 g.x25519 ≡ some c.xpub)
        × (u.primitives.decode64 g.ed25519 ≡ some c.edpub)
        × (u.primitives.decode64 g.sig ≡ some c.sig)
  unfolding decoded_claim
  decoded_claim-texts g c h =
      let (xpub, x, h1) =
        >>=-ok (from_option (u.primitives.decode64 g.x25519) bad_x25519_text) _ h in
      let (edpub, ed, h2) =
        >>=-ok (from_option (u.primitives.decode64 g.ed25519) bad_ed25519_text) _ h1 in
      let (sig, s, h3) = >>=-ok (from_option (u.primitives.decode64 g.sig) bad_sig_text) _ h2 in
      let same = ok_injective h3 in
      (
        from_option-ok _ _ x ∙ ap (λ (c : Claim). some c.xpub) same,
        from_option-ok _ _ ed ∙ ap (λ (c : Claim). some c.edpub) same,
        from_option-ok _ _ s ∙ ap (λ (c : Claim). some c.sig) same,
      )

  verified_claim-signed :
      (g : Greeting) (c : Claim)
      → verified_claim u g ≡ ok c
      → (u.primitives.decode64 g.x25519 ≡ some c.xpub)
        × (u.primitives.decode64 g.ed25519 ≡ some c.edpub)
        × (u.primitives.decode64 g.sig ≡ some c.sig)
        × (u.primitives.verify c.edpub c.xpub c.sig ≡ true)
  unfolding verified_claim
  verified_claim-signed g c h =
      let (d, decoded, h1) = >>=-ok (decoded_claim u g) _ h in
      let (passed, kept) =
        >>-ok (or_fault not_verified (verify_signed_public u.primitives d.xpub d.edpub d.sig)) _
          h1 in
      let same : d ≡ c = ok_injective kept in
      let (x, ed, s) = decoded_claim-texts g c (decoded ∙ ap ok same) in
      let signed =
        verify_signed_public-signed u.primitives d.xpub d.edpub d.sig
          (or_fault-ok not_verified _ passed) in
      (x, ed, s, subst (λ (c : Claim). u.primitives.verify c.edpub c.xpub c.sig ≡ true) same signed)

  IsVouched-Keeps :
      (s s' : Store) (from : Bytes) → Keeps s s' → IsVouched u all s from → IsVouched u all s' from
  IsVouched-Keeps s s' from keeps v = record {
    arrival = v.arrival;
    seen = v.seen;
    same_address = v.same_address;
    greeting = v.greeting;
    given = v.given;
    claim = v.claim;
    xpub = v.xpub;
    edpub = v.edpub;
    sig = v.sig;
    signed = v.signed;
    pinned = keeps v.greeting.identity v.greeting.ed25519 v.pinned;
  }

  inserted-IsVouched :
      (b : Bool) (address from : Bytes) (cipher c : Aead) (o : Option Aead) (store : Store)
      → bytes_eq address from ≡ b
      → IsVouched u all store address
      → (o ≡ some c → IsVouched u all store from)
      → (if b then some cipher else o) ≡ some c
      → IsVouched u all store from
  inserted-IsVouched true address from cipher c o store same v old h =
      subst (IsVouched u all store) (bytes_eq→eq address from same) v
  inserted-IsVouched false address from cipher c o store same v old h = old h

  after_cipher-AllVouched :
      (w : Gateway) (a : Arrival) (store : Store) (r : Result GatewayError Aead)
      → AllVouched u all w
      → Keeps w.store store
      → IsVouched u all store a.from
      → AllVouched u all (after_cipher w a store r).1
  after_cipher-AllVouched w a store (err e) good keeps v from c found =
      IsVouched-Keeps w.store store from keeps (good from c found)
  after_cipher-AllVouched w a store (ok cipher) good keeps v from c found =
      inserted-IsVouched (bytes_eq a.from from) a.from from cipher c (lookup from w.peers) store
        refl v (λ old. IsVouched-Keeps w.store store from keeps (good from c old))
        (sym (lookup-insert a.from from cipher w.peers) ∙ found)

  after_pin-AllVouched :
      (w : Gateway) (a : Arrival) (g : Greeting) (c : Claim) (r : Result StoreError Bool × Store)
      → AllVouched u all w
      → Memᴰ a all
      → a.greeting ≡ some g
      → verified_claim u g ≡ ok c
      → Keeps w.store r.1
      → ((new : Bool) → r.0 ≡ ok new → lookup g.identity r.1 ≡ some g.ed25519)
      → AllVouched u all (after_pin u w a c r).1
  after_pin-AllVouched w a g c (err e, store) good seen given verified keeps pins from d found =
      IsVouched-Keeps w.store store from keeps (good from d found)
  after_pin-AllVouched w a g c (ok new, store) good seen given verified keeps pins from d found =
      let facts = verified_claim-signed g c verified in
      after_cipher-AllVouched w a store (session_cipher u a c) good keeps
        (record {
          arrival = a;
          seen = seen;
          same_address = refl;
          greeting = g;
          given = given;
          claim = c;
          xpub = facts.0;
          edpub = facts.1;
          sig = facts.2;
          signed = facts.3;
          pinned = pins new refl;
        })
        from d found

  after_claim-AllVouched :
      (w : Gateway) (a : Arrival) (g : Greeting) (r : Result GatewayError Claim)
      → AllVouched u all w
      → Memᴰ a all
      → a.greeting ≡ some g
      → verified_claim u g ≡ r
      → AllVouched u all (after_claim u w a g r).1
  after_claim-AllVouched w a g (err e) good seen given verified = good
  after_claim-AllVouched w a g (ok c) good seen given verified =
      after_pin-AllVouched w a g c _ good seen given verified
        (λ j k h.
          meet-keeps (record { id = g.identity; key = g.ed25519; saves = a.saves }) j k w.store h)
        (λ new h. accepted-pins g.identity g.ed25519 a.saves new w.store h)

  received_packet-AllVouched :
      (w : Gateway) (a : Arrival) (o : Option Greeting)
      → AllVouched u all w
      → Memᴰ a all
      → a.greeting ≡ o
      → AllVouched u all (received_packet u w a o).1
  unfolding greeted
  received_packet-AllVouched w a none good seen given = good
  received_packet-AllVouched w a (some g) good seen given = elim (Bool-cases (is_complete g)) [
    | inl whole ↦ rw whole (after_claim-AllVouched w a g (verified_claim u g) good seen given refl)
    | inr partial ↦ rw partial good
  ]

  serve-AllVouched_from :
      (w : Gateway) (arrivals : List Arrival)
      → AllVouched u all w
      → ((a : Arrival) → Memᴰ a arrivals → Memᴰ a all)
      → AllVouched u all (serve u w arrivals)
  unfolding serve receive
  serve-AllVouched_from w [] good sub = good
  serve-AllVouched_from w (a ∷ arrivals) good sub =
      serve-AllVouched_from (receive u w a).1 arrivals
        (received_packet-AllVouched w a a.greeting good (sub a (Memᴰ.head refl)) refl)
        (λ b m. sub b (Memᴰ.tail m))

-- The server when it starts, with the identities that it has loaded and no peer.
abbrev pub started : Store → Gateway
started store = record { store = store; peers = [] }

nobody : (u : Setup) (all : List Arrival) (store : Store) → AllVouched u all (started store)
unfolding lookup
nobody u all store from c h = cc

-- A server that requires authentication, whatever identities it has loaded, opens a packet only for an address from which, earlier, a
-- greeting came whose X25519 key was signed by the Ed25519 key in it, and the identity of that greeting
-- is pinned to this Ed25519 key now.
pub opened_packet-IsVouched :
    (u : Setup) (store : Store) (arrivals : List Arrival) (from packet plain : Bytes)
    → u.require_auth ≡ true
    → opened_packet u (serve u (started store) arrivals) from packet ≡ ok plain
    → IsVouched u arrivals (serve u (started store) arrivals).store from
unfolding opened_packet active_cipher
opened_packet-IsVouched u store arrivals from packet plain auth h =
    let w = serve u (started store) arrivals in
    let (payload, _, h1) = >>=-ok (frame_fault (decode_frame packet)) _ h in
    let (cipher, active, _) = >>=-ok (active_cipher u (lookup from w.peers)) _ h1 in
    elim (Option-cases (lookup from w.peers)) [
      | inl unknown ↦ let refused = rw (unknown, auth) at active in cc
      | inr (c, known) ↦
          serve-AllVouched_from u arrivals (started store) arrivals (nobody u arrivals store)
            (λ a m. m) from c known
    ]
