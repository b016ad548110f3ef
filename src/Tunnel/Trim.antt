-- ===== src/Tunnel/Trim.antt =====
-- stringsTrim of pkg/tunnel/client.go, which takes off fewer runes than strings.TrimSpace.
use mathlib.Core.List.{reverse}
use chameleon_protocol.Base.{ℕ, Bool, ◌||◌, ◌==◌, if◌then◌else◌, [], ◌∷◌}
use chameleon_protocol.Base.Bytes.{Bytes}

abbrev pub is_blank : ℕ → Bool
is_blank c = c == 32 || c == 9 || c == 13 || c == 10

-- The first of its two loops.
unfoldable pub trim_front : Bytes → Bytes
trim_front [] = []
trim_front (c ∷ s) = if is_blank c then trim_front s else c ∷ s

unfoldable pub strings_trim : Bytes → Bytes
unfolding trim_front
strings_trim v = reverse (trim_front (reverse (trim_front v)))
