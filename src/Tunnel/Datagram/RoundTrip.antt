-- ===== src/Tunnel/Datagram/RoundTrip.antt =====
-- One UDP datagram through encodeDatagramFrame and decodeDatagramFrame.
use chameleon_protocol.Base.{
  ℕ, ◌+◌, ◌*◌, ◌%◌, ◌^◌, ◌≤◌, ◌≡◌, sym, ap, ◌∙◌, [], ◌∷◌, ◌++◌, length, take, drop, ok, arith, All,
  length-append, length-take, take-append-drop, drop-length_append, drop-drop, take-length_append,
}
use chameleon_protocol.Base.Bytes.{Bytes, IsByte, put_uint16, uint16_at-put_uint16}
use chameleon_protocol.Tunnel.Destination.{
  max_destination_len, validate_destination, validate_destination-length,
}
use chameleon_protocol.Tunnel.Datagram.{
  max_datagram_plain, encode_datagram_frame, decode_datagram_frame,
}

abbrev parts_frame : Bytes → Bytes → Bytes
parts_frame dest payload = (1 ∷ put_uint16 (length dest)) ++ (dest ++ payload)

-- a frame whose parts fit is read back
decode-parts_frame :
    (dest payload : Bytes)
    → validate_destination dest ≡ ok tt
    → decode_datagram_frame (parts_frame dest payload) ≡ ok (dest, payload)
unfolding decode_datagram_frame
decode-parts_frame dest payload valid =
    let (ne, le) = validate_destination-length dest valid in
    rw (uint16_at-put_uint16 (length dest) (omega arith)) (
      rw
        (
          drop-drop 3 (length dest) _,
          take-length_append dest payload,
          drop-length_append dest payload,
        )
        (ground (arith, length-append dest payload)))

encode_datagram_frame-ok :
    (dest payload frame : Bytes)
    → encode_datagram_frame dest payload ≡ ok frame
    → (validate_destination dest ≡ ok tt)
      × (length dest ≤ max_destination_len)
      × (1 + 2 + length dest + length payload ≤ max_datagram_plain)
      × ((1 ∷ put_uint16 (length dest % 2 ^ 16)) ++ (dest ++ payload) ≡ frame)
unfolding encode_datagram_frame
encode_datagram_frame-ok dest payload frame h = ground arith

-- A datagram that encodeDatagramFrame accepts is read back whole by decodeDatagramFrame, and its
-- frame fits the envelope of 1080 bytes.
pub decode_datagram_frame-encode_datagram_frame :
    (dest payload frame : Bytes)
    → encode_datagram_frame dest payload ≡ ok frame
    → (decode_datagram_frame frame ≡ ok (dest, payload)) × (length frame ≤ max_datagram_plain)
decode_datagram_frame-encode_datagram_frame dest payload frame h =
    let (valid, short, fits, shape) = encode_datagram_frame-ok dest payload frame h in
    let low : length dest % 2 ^ 16 ≡ length dest = omega arith in
    let same : parts_frame dest payload ≡ frame = rw low at shape in
    (
      ap decode_datagram_frame (sym same) ∙ decode-parts_frame dest payload valid,
      omega (arith, ap length same, length-append dest payload),
    )

decode_datagram_frame-ok :
    (b0 b1 b2 : ℕ) (s dest payload : Bytes)
    → decode_datagram_frame (b0 ∷ b1 ∷ b2 ∷ s) ≡ ok (dest, payload)
    → (b0 ≡ 1)
      × (b1 * 256 + b2 ≤ length s)
      × (validate_destination dest ≡ ok tt)
      × (take (b1 * 256 + b2) s ≡ dest)
      × (drop (b1 * 256 + b2) s ≡ payload)
unfolding decode_datagram_frame
decode_datagram_frame-ok b0 b1 b2 s dest payload h =
    ground (arith, drop-drop 3 (b1 * 256 + b2) (b0 ∷ b1 ∷ b2 ∷ s))

encode-parts_frame :
    (dest payload : Bytes)
    → validate_destination dest ≡ ok tt
    → 1 + 2 + length dest + length payload ≤ max_datagram_plain
    → encode_datagram_frame dest payload ≡ ok (parts_frame dest payload)
unfolding encode_datagram_frame
encode-parts_frame dest payload valid fits =
    let (_, short) = validate_destination-length dest valid in
    let low : length dest % 2 ^ 16 ≡ length dest = omega arith in rw low (ground arith)

header_bytes :
    (b1 b2 : ℕ) (s : Bytes)
    → IsByte b1
    → IsByte b2
    → ((1 ∷ put_uint16 (b1 * 256 + b2)) ++ s) ≡ 1 ∷ b1 ∷ b2 ∷ s
header_bytes b1 b2 s h1 h2 = ground arith

-- Frames are canonical: a frame of bytes within the envelope that decodeDatagramFrame accepts is
-- the one that encodeDatagramFrame builds from the destination and the payload that it carries.
pub encode_datagram_frame-decode_datagram_frame :
    (frame dest payload : Bytes)
    → All IsByte frame
    → length frame ≤ max_datagram_plain
    → decode_datagram_frame frame ≡ ok (dest, payload)
    → encode_datagram_frame dest payload ≡ ok frame
encode_datagram_frame-decode_datagram_frame [] dest payload bytes small h =
    unfold decode_datagram_frame in cc
encode_datagram_frame-decode_datagram_frame (b0 ∷ []) dest payload bytes small h =
    unfold decode_datagram_frame in ground arith
encode_datagram_frame-decode_datagram_frame (b0 ∷ b1 ∷ []) dest payload bytes small h =
    unfold decode_datagram_frame in ground arith
encode_datagram_frame-decode_datagram_frame (b0 ∷ b1 ∷ b2 ∷ s) dest payload bytes small h =
    let (version, fits, valid, front, back) = decode_datagram_frame-ok b0 b1 b2 s dest payload h in
    let len : length dest ≡ b1 * 256 + b2 =
      sym (ap length front) ∙ omega (arith, length-take (b1 * 256 + b2) s) in
    let whole : dest ++ payload ≡ s = rw (← front, ← back) (take-append-drop (b1 * 256 + b2) s) in
    encode-parts_frame dest payload valid
      (omega (arith, ap length whole, length-append dest payload))
    ∙ ap ok (rw (whole, version, len) (header_bytes b1 b2 s bytes.1.0 bytes.1.1.0))
