-- ===== src/Tunnel/Replay/Admission.antt =====
-- Which replays of a v1 hello are caught, and which are not.
use chameleon_protocol.Base.{
  ◌^◌, ◌-◌, ◌≡◌, refl, ap, true, false, if◌then◌else◌, List, [], ◌∷◌, none, some, arith, Bool-cases,
  inl, inr, All, not,
}
use chameleon_protocol.Base.Int.{
  ℤ, pos, negsuc, ◌+ℤ◌, ◌-ℤ◌, ◌≤ℤ◌, ◌<ℤ◌, ltb_ℤ, saturate64, wrap64, wrap64_exact, ltb_ℤ→lt,
  le→ltb_ℤ-false, saturate64_low, saturate64_exact, IsInt64, int_laws,
}
use chameleon_protocol.Base.Bytes.{Bytes, bytes_eq_refl}
use chameleon_protocol.Base.Dict.{lookup, lookup-insert}
use chameleon_protocol.Tunnel.Replay.{Seen, sub_time, evict, accept_nonce, within_skew, admit}
use chameleon_protocol.Tunnel.Replay.Cache.{
  sub_time-le, sub_time-gt, accept_nonce-known, accept_nonce-keeps, accept_nonce-new, Distinct,
  lookup-evict_expired, lookup-evict-none, accept_nonce-Distinct,
}

-- One hello that reaches the server: its nonce, the time that it names, the two readings of the clock.
pub record Arrival : Type 0 where
  pub nonce : Bytes
  pub sent_at : ℤ
  pub tested : ℤ
  pub now : ℤ

-- The cache after a sequence of arrivals.
unfoldable pub admit_all : ℤ → List Arrival → Seen → Seen
admit_all skew [] seen = seen
admit_all skew (x ∷ xs) seen =
    admit_all skew xs (admit skew x.nonce x.sent_at x.tested x.now seen).1

admit-keeps :
    (skew at : ℤ) (n : Bytes) (x : Arrival) (seen : Seen)
    → IsInt64 skew
    → x.now ≤ℤ at +ℤ skew
    → lookup n seen ≡ some at
    → lookup n (admit skew x.nonce x.sent_at x.tested x.now seen).1 ≡ some at
unfolding admit
admit-keeps skew at n x seen dur early h = elim (Bool-cases (within_skew skew x.tested x.sent_at)) [
  | inl fresh ↦
      rw fresh
        (accept_nonce-keeps skew x.now at n x.nonce seen (sub_time-le skew x.now at dur early) h)
  | inr stale ↦ rw stale h
]

admit_all-keeps :
    (skew at : ℤ) (n : Bytes) (xs : List Arrival) (seen : Seen)
    → IsInt64 skew
    → All (λ (x : Arrival). x.now ≤ℤ at +ℤ skew) xs
    → lookup n seen ≡ some at
    → lookup n (admit_all skew xs seen) ≡ some at
unfolding admit_all
admit_all-keeps skew at n [] seen dur early h = h
admit_all-keeps skew at n (x ∷ xs) seen dur (e, es) h =
    admit_all-keeps skew at n xs _ dur es (admit-keeps skew at n x seen dur e h)

-- the clock test fails on a positive distance beyond the skew
skew_test :
    (skew d : ℤ)
    → pos 0 ≤ℤ skew
    → ltb_ℤ skew d ≡ true
    → ltb_ℤ skew (if ltb_ℤ d (pos 0) then wrap64 (pos 0 -ℤ d) else d) ≡ true
skew_test skew (pos n) nonneg h = ground arith
skew_test (pos s) (negsuc n) nonneg h = absurd (ground arith)
skew_test (negsuc s) (negsuc n) nonneg h = absurd (omega arith)

-- a fresh hello does not name a time further back than the skew
within_skew-past :
    (skew now sent_at : ℤ)
    → pos 0 ≤ℤ skew
    → skew <ℤ pos (2 ^ 63 - 1)
    → sent_at +ℤ skew <ℤ now
    → within_skew skew now sent_at ≡ false
unfolding within_skew
within_skew-past skew now sent_at nonneg dur late =
    ap not (skew_test skew (sub_time now sent_at) nonneg (sub_time-gt skew now sent_at dur late))

admitted-lookup :
    (skew tested now sent_at : ℤ) (n : Bytes) (seen : Seen)
    → (admit skew n sent_at tested now seen).0 ≡ true
    → lookup n (admit skew n sent_at tested now seen).1 ≡ some now
unfolding admit accept_nonce
admitted-lookup skew tested now sent_at n seen h =
    ground (arith, bytes_eq_refl n, lookup-insert n n now (evict skew now seen))

admit-known :
    (skew at tested now sent_at : ℤ) (n : Bytes) (seen : Seen)
    → IsInt64 skew
    → now ≤ℤ at +ℤ skew
    → lookup n seen ≡ some at
    → (admit skew n sent_at tested now seen).0 ≡ false
unfolding admit
admit-known skew at tested now sent_at n seen dur early h =
    ground (arith, accept_nonce-known skew now at n seen (sub_time-le skew now at dur early) h)

admit-stale :
    (skew tested now sent_at : ℤ) (n : Bytes) (seen : Seen)
    → within_skew skew tested sent_at ≡ false
    → (admit skew n sent_at tested now seen).0 ≡ false
unfolding admit
admit-stale skew tested now sent_at n seen h = ground arith

before-All :
    (skew at now' : ℤ) (xs : List Arrival)
    → now' ≤ℤ at +ℤ skew
    → All (λ (x : Arrival). x.now ≤ℤ now') xs
    → All (λ (x : Arrival). x.now ≤ℤ at +ℤ skew) xs
before-All skew at now' [] early h = tt
before-All skew at now' (x ∷ xs) early (h, hs) = (omega arith, before-All skew at now' xs early hs)

-- A hello that was admitted is refused at every later arrival, whatever other hellos came in between and
-- no later than it, if the time that it names lies at least `delay` before its first entry in the
-- cache, where `delay` bounds the time from the clock test of the later arrival to its look in the
-- cache. The skew is a Duration, neither negative nor the largest one.
pub no_replay :
    (skew tested now tested' now' sent_at delay : ℤ) (n : Bytes) (xs : List Arrival) (seen : Seen)
    → pos 0 ≤ℤ skew
    → skew <ℤ pos (2 ^ 63 - 1)
    → sent_at +ℤ delay ≤ℤ now
    → now' ≤ℤ tested' +ℤ delay
    → All (λ (x : Arrival). x.now ≤ℤ now') xs
    → (admit skew n sent_at tested now seen).0 ≡ true
    → (admit skew n sent_at tested' now'
        (admit_all skew xs (admit skew n sent_at tested now seen).1)).0
      ≡ false
no_replay skew tested now tested' now' sent_at delay n xs seen nonneg dur past quick order first =
    elim (Bool-cases (ltb_ℤ (now +ℤ skew) now')) [
      | inl late ↦
          let after : now +ℤ skew <ℤ now' = ltb_ℤ→lt (now +ℤ skew) now' late in
          admit-stale skew tested' now' sent_at n _
            (within_skew-past skew tested' sent_at nonneg dur (omega int_laws))
      | inr early ↦
          let bound : now' ≤ℤ now +ℤ skew = ground arith in
          admit-known skew now tested' now' sent_at n _ (omega arith) bound (
            admit_all-keeps skew now n xs _ (omega arith) (before-All skew now now' xs bound order)
              (admitted-lookup skew tested now sent_at n seen first))
    ]

-- a distance within the skew passes the clock test
skew_test_close :
    (skew d : ℤ)
    → skew <ℤ pos (2 ^ 63 - 1)
    → d ≤ℤ skew
    → pos 0 ≤ℤ d +ℤ skew
    → ltb_ℤ skew
        (if ltb_ℤ (saturate64 d) (pos 0) then wrap64 (pos 0 -ℤ saturate64 d) else saturate64 d)
      ≡ false
skew_test_close skew d dur high low =
    rw (saturate64_exact d (omega int_laws)) (elim (Bool-cases (ltb_ℤ d (pos 0))) [
      | inl neg ↦
          let below = ltb_ℤ→lt d (pos 0) neg in
          rw (neg, wrap64_exact (pos 0 -ℤ d) (omega int_laws))
            (le→ltb_ℤ-false skew (pos 0 -ℤ d) (omega int_laws))
      | inr nonneg ↦ rw nonneg (le→ltb_ℤ-false skew d high)
    ])

within_skew-close :
    (skew now sent_at : ℤ)
    → skew <ℤ pos (2 ^ 63 - 1)
    → now ≤ℤ sent_at +ℤ skew
    → sent_at ≤ℤ now +ℤ skew
    → within_skew skew now sent_at ≡ true
unfolding within_skew sub_time
within_skew-close skew now sent_at dur after before =
    ap not (skew_test_close skew (now -ℤ sent_at) dur (omega int_laws) (omega int_laws))

admit-new :
    (skew tested now sent_at : ℤ) (n : Bytes) (seen : Seen)
    → within_skew skew tested sent_at ≡ true
    → lookup n (evict skew now seen) ≡ none
    → (admit skew n sent_at tested now seen).0 ≡ true
unfolding admit
admit-new skew tested now sent_at n seen fresh new =
    ground (arith, accept_nonce-new skew now n seen new)

-- Every arrival keeps each nonce in the cache at most once.
pub admit-Distinct :
    (skew tested now sent_at : ℤ) (n : Bytes) {seen : Seen}
    → Distinct seen
    → Distinct (admit skew n sent_at tested now seen).1
unfolding admit
admit-Distinct skew tested now sent_at n d = elim (Bool-cases (within_skew skew tested sent_at)) [
  | inl fresh ↦ rw fresh (accept_nonce-Distinct skew now n d)
  | inr stale ↦ rw stale d
]

-- A hello is admitted a second time when both clock tests pass it and the cache is asked again more than
-- the skew after the first admission. So it goes for one that names a time after its first arrival,
-- and for one whose second arrival passes the clock test before it is slowly read.
pub replay_admitted :
    (skew tested now tested' now' sent_at : ℤ) (n : Bytes) (seen : Seen)
    → pos 0 ≤ℤ skew
    → skew <ℤ pos (2 ^ 63 - 1)
    → Distinct seen
    → lookup n seen ≡ none
    → tested ≤ℤ sent_at +ℤ skew
    → sent_at ≤ℤ tested +ℤ skew
    → tested' ≤ℤ sent_at +ℤ skew
    → sent_at ≤ℤ tested' +ℤ skew
    → now +ℤ skew <ℤ now'
    → ((admit skew n sent_at tested now seen).0 ≡ true)
      × ((admit skew n sent_at tested' now' (admit skew n sent_at tested now seen).1).0 ≡ true)
replay_admitted skew tested now tested' now' sent_at n seen nonneg dur distinct new before after
      before' after' forgotten =
    let first =
      admit-new skew tested now sent_at n seen
        (within_skew-close skew tested sent_at dur before after)
        (lookup-evict-none skew now n seen new) in
    let found = admitted-lookup skew tested now sent_at n seen first in
    (
      first,
      admit-new skew tested' now' sent_at n _
          (within_skew-close skew tested' sent_at dur before' after')
          (lookup-evict_expired skew now' now n (admit-Distinct skew tested now sent_at n distinct)
            (sub_time-gt skew now' now dur forgotten) found),
    )

least_negated : wrap64 (pos 0 -ℤ negsuc (2 ^ 63 - 1)) ≡ negsuc (2 ^ 63 - 1)
unfolding wrap64 ◌-ℤ◌
least_negated = refl

-- The clock test passes every hello that names a time at least 2^63 nanoseconds ahead: the
-- difference stops at the least Duration, which is its own negative.
pub within_skew-overflow :
    (skew now sent_at : ℤ)
    → pos 0 ≤ℤ skew
    → now +ℤ pos (2 ^ 63) ≤ℤ sent_at
    → within_skew skew now sent_at ≡ true
unfolding within_skew sub_time
within_skew-overflow skew now sent_at nonneg far =
    let least : saturate64 (now -ℤ sent_at) ≡ negsuc (2 ^ 63 - 1) =
      saturate64_low (now -ℤ sent_at) (omega int_laws) in
    rw (least, least_negated) (ap not (le→ltb_ℤ-false skew (negsuc (2 ^ 63 - 1)) (omega arith)))
