-- ===== src/Tunnel/Replay/Cache.antt =====
-- acceptNonce, call by call.
use chameleon_protocol.Base.{
  ◌^◌, ◌-◌, ◌≡◌, refl, true, false, [], ◌∷◌, none, some, arith, Bool-cases, inl, inr, Option-cases,
}
use chameleon_protocol.Base.Int.{
  ℤ, pos, negsuc, ◌+ℤ◌, ◌-ℤ◌, ◌≤ℤ◌, ◌<ℤ◌, ltb_ℤ, saturate64, IsInt64, int_laws,
}
use chameleon_protocol.Base.Bytes.{Bytes, bytes_eq, bytes_eq_iff, bytes_eq_refl}
use chameleon_protocol.Base.Dict.{lookup, insert, lookup-insert}
use chameleon_protocol.Tunnel.Replay.{Seen, sub_time, evict, accept_nonce}

pub saturate64-le : (skew d : ℤ) → IsInt64 skew → d ≤ℤ skew → ltb_ℤ skew (saturate64 d) ≡ false
unfolding saturate64
saturate64-le (pos s) (pos n) h e = ground arith
saturate64-le (pos s) (negsuc n) h e = ground arith
saturate64-le (negsuc s) (pos n) h e = absurd (omega arith)
saturate64-le (negsuc s) (negsuc n) h e = ground arith

pub saturate64-gt :
    (skew d : ℤ) → skew <ℤ pos (2 ^ 63 - 1) → skew <ℤ d → ltb_ℤ skew (saturate64 d) ≡ true
unfolding saturate64
saturate64-gt (pos s) (pos n) h e = ground arith
saturate64-gt (pos s) (negsuc n) h e = absurd (omega arith)
saturate64-gt (negsuc s) (pos n) h e = ground arith
saturate64-gt (negsuc s) (negsuc n) h e = ground arith

-- An entry is kept as long as it is not older than the skew.
pub sub_time-le :
    (skew now at : ℤ) → IsInt64 skew → now ≤ℤ at +ℤ skew → ltb_ℤ skew (sub_time now at) ≡ false
unfolding sub_time
sub_time-le skew now at h e = saturate64-le skew (now -ℤ at) h (omega int_laws)

pub sub_time-gt :
    (skew now at : ℤ)
    → skew <ℤ pos (2 ^ 63 - 1)
    → at +ℤ skew <ℤ now
    → ltb_ℤ skew (sub_time now at) ≡ true
unfolding sub_time
sub_time-gt skew now at h e = saturate64-gt skew (now -ℤ at) h (omega int_laws)

pub lookup-evict_kept :
    (skew now at : ℤ) (n : Bytes) (seen : Seen)
    → ltb_ℤ skew (sub_time now at) ≡ false
    → lookup n seen ≡ some at
    → lookup n (evict skew now seen) ≡ some at
unfolding lookup evict
lookup-evict_kept skew now at n [] young h = cc
lookup-evict_kept skew now at n ((m, t) ∷ seen) young h =
    ground (arith, lookup-evict_kept skew now at n seen)

pub lookup-evict-none :
    (skew now : ℤ) (n : Bytes) (seen : Seen)
    → lookup n seen ≡ none
    → lookup n (evict skew now seen) ≡ none
unfolding lookup evict
lookup-evict-none skew now n [] h = refl
lookup-evict-none skew now n ((m, t) ∷ seen) h = ground (arith, lookup-evict-none skew now n seen)

-- Nonces stand in the cache once, so what is found of an expired nonce is nothing.
pub data Distinct : Seen → Type 0 where
  empty : Distinct []
  entry :
      {n : Bytes} {t : ℤ} {seen : Seen}
      → lookup n seen ≡ none
      → Distinct seen
      → Distinct ((n, t) ∷ seen)

pub lookup-evict_expired :
    (skew now at : ℤ) (n : Bytes) {seen : Seen}
    → Distinct seen
    → ltb_ℤ skew (sub_time now at) ≡ true
    → lookup n seen ≡ some at
    → lookup n (evict skew now seen) ≡ none
unfolding lookup evict
lookup-evict_expired skew now at n empty old h = cc
lookup-evict_expired skew now at n (entry {n = m} {t = t} {seen = seen} new rest) old h = ground (
  arith,
  bytes_eq_iff m n,
  lookup-evict_expired skew now at n rest old,
  lookup-evict-none skew now m seen new,
)

-- A nonce that is in the cache is refused, and stays there, at every time up to its age limit.
pub accept_nonce-known :
    (skew now at : ℤ) (n : Bytes) (seen : Seen)
    → ltb_ℤ skew (sub_time now at) ≡ false
    → lookup n seen ≡ some at
    → (accept_nonce skew n now seen).0 ≡ false
unfolding accept_nonce
accept_nonce-known skew now at n seen young h =
    let kept = lookup-evict_kept skew now at n seen young h in ground arith

-- Any call at such a time leaves the entry as it is.
pub accept_nonce-keeps :
    (skew now at : ℤ) (n m : Bytes) (seen : Seen)
    → ltb_ℤ skew (sub_time now at) ≡ false
    → lookup n seen ≡ some at
    → lookup n (accept_nonce skew m now seen).1 ≡ some at
unfolding accept_nonce
accept_nonce-keeps skew now at n m seen young h =
    let kept = lookup-evict_kept skew now at n seen young h in
    ground (arith, bytes_eq_iff m n, lookup-insert m n now (evict skew now seen))

-- A nonce that is not in the cache, or only with an expired entry, is accepted and entered.
pub accept_nonce-new :
    (skew now : ℤ) (n : Bytes) (seen : Seen)
    → lookup n (evict skew now seen) ≡ none
    → ((accept_nonce skew n now seen).0 ≡ true)
      × (lookup n (accept_nonce skew n now seen).1 ≡ some now)
unfolding accept_nonce
accept_nonce-new skew now n seen new =
    ground (arith, bytes_eq_refl n, lookup-insert n n now (evict skew now seen))

evict-Distinct : (skew now : ℤ) {seen : Seen} → Distinct seen → Distinct (evict skew now seen)
unfolding evict
evict-Distinct skew now empty = empty
evict-Distinct skew now (entry {n = n} {t = t} {seen = seen} new rest) =
    elim (Bool-cases (ltb_ℤ skew (sub_time now t))) [
      | inl old ↦ rw old (evict-Distinct skew now rest)
      | inr young ↦
          rw young (entry (lookup-evict-none skew now n seen new) (evict-Distinct skew now rest))
    ]

insert-Distinct :
    (n : Bytes) (t : ℤ) {seen : Seen}
    → Distinct seen
    → lookup n seen ≡ none
    → Distinct (insert n t seen)
unfolding lookup insert
insert-Distinct n t empty h = entry refl empty
insert-Distinct n t (entry {n = m} {t = at} {seen = seen} new rest) h =
    elim (Bool-cases (bytes_eq m n)) [
      | inl same ↦ let found = rw same at h in cc
      | inr other ↦ rw other (
          entry (rw lookup-insert (ground (arith, bytes_eq_iff n m, bytes_eq_iff m n)))
            (insert-Distinct n t rest (rw other at h)))
    ]

-- Every call keeps each nonce in the cache at most once.
pub accept_nonce-Distinct :
    (skew now : ℤ) (n : Bytes) {seen : Seen}
    → Distinct seen
    → Distinct (accept_nonce skew n now seen).1
unfolding accept_nonce
accept_nonce-Distinct skew now n {seen} d = elim (Option-cases (lookup n (evict skew now seen))) [
  | inl new ↦ rw new (insert-Distinct n now (evict-Distinct skew now d) new)
  | inr (at, known) ↦ rw known (evict-Distinct skew now d)
]
