-- ===== src/Socks/Reply.antt =====
-- The reply of pkg/socks5/server.go, what it says of the request, and how client.go reads it.
use mathlib.Core.List.{append_assoc}
use chameleon_protocol.Base.{
  Bool-cases, inl, inr, sym, ap, ◌∙◌, ℕ, suc, ◌%◌, ◌≡◌, refl, arith, not, Bool, true, false, ◌==◌,
  if◌then◌else◌, Option, none, some, [], ◌∷◌, ◌++◌, length, get_or, Result, ok, err, ◌>>=◌, ◌>>◌,
  fail_if,
}
use chameleon_protocol.Base.Bytes.{Bytes, put_uint16}
use chameleon_protocol.Io.{read_full}
use chameleon_protocol.Io.Reading.{read_full-exact, read_full-header}
use chameleon_protocol.Socks.{IpText, SocksError, or_io, read_address, bad_reply, refused_code}

-- The local address of the outbound connection: To4 of its IP, and its port.
pub record Bound : Type 0 where
  pub ip4 : Option Bytes
  pub port : ℕ

abbrev pub four_bytes : Option Bytes → Bytes
four_bytes none = 0 ∷ 0 ∷ 0 ∷ 0 ∷ []
four_bytes (some b) = b

-- writeReply; `none` is an address of another type, or none.
unfoldable pub reply : ℕ → Option Bound → Bytes
reply code none = 5 ∷ code ∷ 0 ∷ 1 ∷ (four_bytes none ++ put_uint16 0)
reply code (some b) = 5 ∷ code ∷ 0 ∷ 1 ∷ (four_bytes b.ip4 ++ put_uint16 (b.port % 65536))

-- What the server can do: CONNECT, and UDP ASSOCIATE.
pub record Server : Type 0 where
  pub dials : Bool
  pub opens_udp : Bool

pub data Connected : Type 0 where
  forwards : Connected
  associates : Connected
  stops : Connected

-- Behind a reply that reports success the server stops if the reply could not be written.
abbrev pub if_written : Bool → Connected → Connected
if_written true next = next
if_written false next = stops

-- The part of handle behind the request, up to the copying: the reply, and what comes then. For UDP
-- ASSOCIATE, `dialed` stands for OpenUDP and ListenUDP, with the relay's local address. `written` is
-- whether writeReply succeeds.
unfoldable pub handle_request :
    Server → Result SocksError (ℕ × Bytes × Bytes) → Option Bound → Bool → Bytes × Connected
unfolding reply
handle_request s (err e) dialed written = (reply 1 none, stops)
handle_request s (ok (command, destination, rest)) dialed written =
    if command == 3
    then (if s.opens_udp
        then elim dialed [
          | none ↦ (reply 1 none, stops)
          | some b ↦ (reply 0 (some b), if_written written associates)
        ]
        else (reply 7 none, stops))
    else if not (command == 1)
    then (reply 7 none, stops)
    else if s.dials
    then elim dialed [
      | none ↦ (reply 5 none, stops)
      | some b ↦ (reply 0 (some b), if_written written forwards)
    ]
    else (reply 7 none, stops)

module _ (t : IpText) where
  -- The end of clientHandshake.
  unfoldable pub check_reply : Bytes → Result SocksError Bytes
  unfolding read_address
  check_reply stream = do
    (header, s1) ← or_io (read_full 4 stream)
    fail_if (not (get_or header 0 0 == 5)) bad_reply
    fail_if (not (get_or header 1 0 == 0)) (refused_code (get_or header 1 0))
    (host, s2) ← read_address t (get_or header 3 0) s1
    (port, rest) ← or_io (read_full 2 s2)
    ok rest

  check_reply-parts :
      (code : ℕ) (ip port later : Bytes)
      → length ip ≡ 4
      → length port ≡ 2
      → check_reply (5 ∷ code ∷ 0 ∷ 1 ∷ ((ip ++ port) ++ later))
        ≡ (if code == 0 then ok later else err (refused_code code))
  unfolding check_reply read_address
  check_reply-parts code ip port later size two =
      rw
        (
          append_assoc ip port later,
          read_full-header 5 code 0 1 (ip ++ (port ++ later)),
          read_full-exact 4 ip (port ++ later) size,
          read_full-exact 2 port later two,
        )
        (accepted (code == 0))
    where
      accepted :
          (b : Bool)
          → (fail_if (not b) (refused_code code) >> ok later)
            ≡ (if b then ok later else err (refused_code code))
      accepted true = refl
      accepted false = refl

  check_reply-reply :
      (code : ℕ) (addr : Option Bound) (later : Bytes)
      → ((b : Bound) (ip : Bytes) → addr ≡ some b → b.ip4 ≡ some ip → length ip ≡ 4)
      → check_reply (reply code addr ++ later)
        ≡ (if code == 0 then ok later else err (refused_code code))
  unfolding reply
  check_reply-reply code none later laws =
      check_reply-parts code (0 ∷ 0 ∷ 0 ∷ 0 ∷ []) (put_uint16 0) later refl refl
  check_reply-reply code (some b) later laws = with_ip b.ip4 (λ ip. laws b ip refl)
    where
      with_ip :
          (o : Option Bytes)
          → ((ip : Bytes) → o ≡ some ip → length ip ≡ 4)
          → check_reply
              (5 ∷ code ∷ 0 ∷ 1 ∷ ((four_bytes o ++ put_uint16 (b.port % 65536)) ++ later))
            ≡ (if code == 0 then ok later else err (refused_code code))
      with_ip none h =
          check_reply-parts code (0 ∷ 0 ∷ 0 ∷ 0 ∷ []) (put_uint16 (b.port % 65536)) later refl refl
      with_ip (some ip) h =
          check_reply-parts code ip (put_uint16 (b.port % 65536)) later (h ip refl) refl

abbrev pub goes_on : Connected → Bool
goes_on forwards = true
goes_on associates = true
goes_on stops = false

abbrev pub is_ok : Result SocksError Bytes → Bool
is_ok (ok a) = true
is_ok (err e) = false

-- The reply that goes with what comes then.
abbrev RepliedWith : Option Bound → Bytes × Connected → Type 0
RepliedWith dialed r =
    (code : ℕ) × (addr : Option Bound) × (r.0 ≡ reply code addr)
    × ((code == 0) ≡ goes_on r.1)
    × ((b : Bound) → addr ≡ some b → dialed ≡ some b)

refusal : (dialed : Option Bound) (code : ℕ) → RepliedWith dialed (reply (suc code) none, stops)
refusal dialed code = (suc code, none, refl, ground arith, λ b h. cc)

answer_for :
    (dialed given : Option Bound) (code : ℕ) (next : Connected)
    → dialed ≡ given
    → goes_on next ≡ true
    → RepliedWith dialed
        (elim given [ none ↦ (reply (suc code) none, stops) | some b ↦ (reply 0 (some b), next) ])
answer_for dialed none code next e h = refusal dialed code
answer_for dialed (some b) code next e h = (0, some b, refl, sym h, λ c same. e ∙ same)

handle_request-RepliedWith :
    (s : Server) (r : Result SocksError (ℕ × Bytes × Bytes)) (dialed : Option Bound)
    → RepliedWith dialed (handle_request s r dialed true)
unfolding handle_request
handle_request-RepliedWith s (err e) dialed = refusal dialed 0
handle_request-RepliedWith s (ok (command, destination, rest)) dialed =
    elim (Bool-cases (command == 3)) [
      | inl udp ↦ rw udp (elim (Bool-cases s.opens_udp) [
        | inl can ↦ rw can (answer_for dialed dialed 0 associates refl refl)
        | inr cannot ↦ rw cannot (refusal dialed 6)
      ])
      | inr other ↦ rw other (elim (Bool-cases (command == 1)) [
        | inl connect ↦ rw connect (elim (Bool-cases s.dials) [
          | inl can ↦ rw can (answer_for dialed dialed 4 forwards refl refl)
          | inr cannot ↦ rw cannot (refusal dialed 6)
        ])
        | inr unknown ↦ rw unknown (refusal dialed 6)
      ])
    ]

is_ok_if : (b : Bool) (later : Bytes) (e : SocksError) → is_ok (if b then ok later else err e) ≡ b
is_ok_if true later e = refl
is_ok_if false later e = refl

-- The client takes the server's reply as a success exactly when the server goes on, to copy or to relay,
-- whatever the request was, whether or not it could be read, and whether or not the dial succeeded. The
-- reply could be written.
pub check_reply-handle_request :
    (t : IpText) (s : Server) (r : Result SocksError (ℕ × Bytes × Bytes)) (dialed : Option Bound)
    (later : Bytes)
    → ((b : Bound) (ip : Bytes) → dialed ≡ some b → b.ip4 ≡ some ip → length ip ≡ 4)
    → is_ok (check_reply t ((handle_request s r dialed true).0 ++ later))
      ≡ goes_on (handle_request s r dialed true).1
check_reply-handle_request t s r dialed later sizes =
    let (code, addr, replied, fits, from_dial) = handle_request-RepliedWith s r dialed in
    ap (λ m. is_ok (check_reply t (m ++ later))) replied
    ∙ ap is_ok (check_reply-reply t code addr later (λ b ip h. sizes b ip (from_dial b h)))
    ∙ is_ok_if (code == 0) later (refused_code code)
    ∙ fits
