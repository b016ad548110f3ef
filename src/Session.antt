-- ===== src/Session.antt =====
-- pkg/state: the life of a transport session, its rekey policy, and the profile of an epoch.
pub mod Lifecycle
pub mod Rekey
pub mod Epoch
use chameleon_protocol.Base.{
  ℕ, suc, zero, ◌/◌, Bool, true, false, if◌then◌else◌, [], ◌∷◌, ◌≡◌, refl, arith, ◌≤◌,
}
use chameleon_protocol.Base.Int.{quot, ℤ, pos, negsuc, leb_ℤ, ltb_ℤ, ◌≤ℤ◌}
use chameleon_protocol.Base.Bytes.{Bytes, codes, is_empty}

abbrev pub webrtc : Bytes
webrtc = codes "webrtc"

abbrev pub period_or_minute : ℤ → ℤ
period_or_minute period = if leb_ℤ period (pos 0) then pos 60000000000 else period

-- The epoch of a time in nanoseconds.
unfoldable pub epoch_at : ℤ → ℤ → ℤ
epoch_at ts period =
    let epoch = quot ts (period_or_minute period) in if ltb_ℤ epoch (pos 0) then pos 0 else epoch

abbrev pub profile_or_default : Bytes → Bytes
profile_or_default profile = if is_empty profile then webrtc else profile
