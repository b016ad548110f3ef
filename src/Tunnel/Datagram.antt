-- ===== src/Tunnel/Datagram.antt =====
-- The plaintext frame of pkg/tunnel/quic_datagram.go: a version byte, the destination's length in
-- two bytes, the destination and one UDP payload.
pub mod RoundTrip
use chameleon_protocol.Base.{
  ℕ, ◌+◌, ◌%◌, ◌^◌, ◌<◌, not, ◌||◌, ◌==◌, ltb, leb, Bool, [], ◌∷◌, ◌++◌, length, take, drop, get_or,
  Result, ok, err, ◌>>=◌, ◌>>◌, fail_if,
}
use chameleon_protocol.Base.Bytes.{Bytes, put_uint16, uint16_at}
use chameleon_protocol.Tunnel.Destination.{
  DestinationError, max_destination_len, validate_destination,
}

pub data DatagramError : Type 0 where
  destination : DestinationError → DatagramError
  destination_too_long datagram_too_large : DatagramError
  bad_frame bad_destination_length : DatagramError

abbrev pub datagram_frame_version : ℕ
datagram_frame_version = 1

abbrev pub max_datagram_plain : ℕ
max_datagram_plain = 1080

-- `if err := validateDestination(d); err != nil { return err }`
abbrev pub check_destination : Bytes → Result DatagramError (Unit {0})
check_destination d = elim (validate_destination d) [ ok u ↦ ok u | err e ↦ err (destination e) ]

unfoldable pub encode_datagram_frame : Bytes → Bytes → Result DatagramError Bytes
encode_datagram_frame dest payload = do
  check_destination dest
  fail_if (ltb max_destination_len (length dest)) destination_too_long
  fail_if (ltb max_datagram_plain (1 + 2 + length dest + length payload)) datagram_too_large
  ok ((datagram_frame_version ∷ put_uint16 (length dest % 2 ^ 16)) ++ (dest ++ payload))

unfoldable pub decode_datagram_frame : Bytes → Result DatagramError (Bytes × Bytes)
decode_datagram_frame frame = do
  fail_if (ltb (length frame) 3 || not (get_or frame 0 0 == datagram_frame_version)) bad_frame
  let dest_len = uint16_at frame 1
  fail_if (leb dest_len 0 || ltb max_destination_len dest_len || ltb (length frame) (3 + dest_len))
      bad_destination_length
  let dest = take dest_len (drop 3 frame)
  check_destination dest
  ok (dest, drop (3 + dest_len) frame)
