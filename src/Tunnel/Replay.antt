-- ===== src/Tunnel/Replay.antt =====
-- The replay cache of pkg/tunnel/server.go and the clock test of readClientHello. A time is its
-- distance from the epoch in nanoseconds.
pub mod Cache
pub mod Admission
use chameleon_protocol.Base.{
  ℕ, suc, ◌+◌, ◌-◌, ◌*◌, ◌≡◌, Bool, true, false, not, ◌&&◌, if◌then◌else◌, List, [], ◌∷◌, Option,
  none, some,
}
use chameleon_protocol.Base.Int.{ℤ, pos, negsuc, ◌+ℤ◌, ◌-ℤ◌, ltb_ℤ, wrap64, saturate64}
use chameleon_protocol.Base.Bytes.{Bytes}
use chameleon_protocol.Base.Dict.{Dict, lookup, insert}

-- `t.Sub(u)`
unfoldable pub sub_time : ℤ → ℤ → ℤ
sub_time t u = saturate64 (t -ℤ u)

abbrev pub Seen : Type 0
Seen = Dict ℤ

-- The loop over s.seen: entries older than the skew are deleted.
unfoldable pub evict : ℤ → ℤ → Seen → Seen
unfolding sub_time
evict skew now [] = []
evict skew now ((nonce, seen_at) ∷ seen) =
    let rest = evict skew now seen in
    if ltb_ℤ skew (sub_time now seen_at) then rest else (nonce, seen_at) ∷ rest

is_known : Option ℤ → Bool
is_known none = false
is_known (some t) = true

unfoldable pub accept_nonce : ℤ → Bytes → ℤ → Seen → Bool × Seen
unfolding is_known
accept_nonce skew nonce now seen =
    let kept = evict skew now seen in
    if is_known (lookup nonce kept) then (false, kept) else (true, insert nonce now kept)

-- `time.Unix(seconds, 0)`: Go counts seconds from the year 1 in an int64.
unfoldable pub unix_time : ℤ → ℤ
unix_time seconds = seconds_ns (wrap64 (seconds +ℤ pos 62135596800) -ℤ pos 62135596800)
  where
    seconds_ns : ℤ → ℤ
    seconds_ns (pos n) = pos (n * 1000000000)
    seconds_ns (negsuc n) = negsuc (suc n * 1000000000 - 1)

-- `delta := now.Sub(sentAt); if delta < 0 { delta = -delta }`, and whether it is within the skew.
unfoldable pub within_skew : ℤ → ℤ → ℤ → Bool
unfolding sub_time
within_skew skew now sent_at =
    let delta = sub_time now sent_at in
    not (ltb_ℤ skew (if ltb_ℤ delta (pos 0) then wrap64 (pos 0 -ℤ delta) else delta))

-- What authenticateConn does with an opened v1 hello: the clock test, then the replay cache. The clock
-- is read twice: `tested` before the hello is read from the network, `now` after that.
unfoldable pub admit : ℤ → Bytes → ℤ → ℤ → ℤ → Seen → Bool × Seen
admit skew nonce sent_at tested now seen =
    if within_skew skew tested sent_at then accept_nonce skew nonce now seen else (false, seen)
