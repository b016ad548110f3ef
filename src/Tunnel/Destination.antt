-- ===== src/Tunnel/Destination.antt =====
-- validateDestination of pkg/tunnel/protocol.go.
use chameleon_protocol.Base.{
  ℕ, ◌≡◌, ◌≤◌, ◌<◌, Bool, false, not, ◌&&◌, ◌||◌, ltb, Option, none, some, [], ◌∷◌, length, Result,
  ok, err, ◌>>=◌, ◌>>◌, fail_if, >>=-ok, arith,
}
use chameleon_protocol.Base.Int.{ℤ, pos, leb_ℤ, ltb_ℤ}
use chameleon_protocol.Base.Bytes.{Bytes, is_empty}
use chameleon_protocol.Net.Text.{trim_space}
use chameleon_protocol.Net.Number.{atoi}
use chameleon_protocol.Net.HostPort.{split_host_port}

pub data DestinationError : Type 0 where
  not_host_port empty_part bad_port too_long : DestinationError

abbrev pub max_destination_len : ℕ
max_destination_len = 1024

is_port : Option ℤ → Bool
is_port none = false
is_port (some p) = not (leb_ℤ p (pos 0)) && not (ltb_ℤ (pos 65535) p)

check_parts : Bytes × Bytes → Bytes → Result DestinationError (Unit {0})
unfolding is_port
check_parts (host, port_text) destination = do
  fail_if (is_empty (trim_space host) || is_empty (trim_space port_text)) empty_part
  fail_if (not (is_port (atoi port_text))) bad_port
  fail_if (ltb max_destination_len (length destination)) too_long
  ok tt

split_trimmed : Bytes → Result DestinationError (Bytes × Bytes)
split_trimmed destination = elim (split_host_port (trim_space destination)) [
  | ok parts ↦ ok parts
  | err e ↦ err not_host_port
]

unfoldable pub validate_destination : Bytes → Result DestinationError (Unit {0})
unfolding split_trimmed check_parts
validate_destination destination = do
  parts ← split_trimmed destination
  check_parts parts destination

check_parts-length :
    (parts : Bytes × Bytes) (destination : Bytes)
    → check_parts parts destination ≡ ok tt
    → length destination ≤ max_destination_len
unfolding check_parts
check_parts-length (host, port_text) destination h = ground arith

validate_destination-nonempty :
    (destination : Bytes) → validate_destination destination ≡ ok tt → 0 < length destination
unfolding validate_destination trim_space split_host_port
validate_destination-nonempty [] h = cc
validate_destination-nonempty (c ∷ s) h = omega arith

-- What passes is not empty and not longer than the limit.
pub validate_destination-length :
    (destination : Bytes)
    → validate_destination destination ≡ ok tt
    → (0 < length destination) × (length destination ≤ max_destination_len)
unfolding validate_destination
validate_destination-length destination h =
    let (parts, _, h1) = >>=-ok (split_trimmed destination) _ h in
    (validate_destination-nonempty destination h, check_parts-length parts destination h1)
