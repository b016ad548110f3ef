-- ===== src/Frame.antt =====
-- pkg/core/frame.go: the frame of the plain UDP transport. A frame is 16 header bytes (magic,
-- version, flags, profile id, original length, normalized length) and the normalized payload.
pub mod RoundTrip
use chameleon_protocol.Base.{
  ℕ, ◌+◌, ◌-◌, ◌*◌, ◌/◌, ◌%◌, ◌^◌, ◌++◌, [], ◌∷◌, ◌==◌, ltb, leb, not, ◌||◌, true, Bool,
  if◌then◌else◌, Result, ok, err, ◌>>=◌, ◌>>◌, fail_if, length, take, drop, get_or,
}
use chameleon_protocol.Base.Int.{ℤ, pos, pos_part, neg_part, leb_ℤ, ltb_ℤ}
use chameleon_protocol.Base.Bytes.{
  Bytes, codes, bytes_eq, is_empty, put_uint16, put_uint32, uint32_at,
}

pub data FrameError : Type 0 where
  empty_payload bad_original_length : FrameError
  too_short bad_magic bad_version bad_length : FrameError

abbrev pub frame_magic : Bytes
frame_magic = codes "CHLM"

abbrev pub frame_version : ℕ
frame_version = 1

abbrev pub profile_web_rtc : Bytes
profile_web_rtc = codes "webrtc"

abbrev pub profile_http3 : Bytes
profile_http3 = codes "http3"

abbrev pub profile_gaming : Bytes
profile_gaming = codes "gaming"

-- The `switch profile` of EncodeFrame.
unfoldable pub profile_id : Bytes → ℕ
profile_id profile =
    if bytes_eq profile profile_web_rtc
    then 1
    else if bytes_eq profile profile_http3
    then 2
    else if bytes_eq profile profile_gaming
    then 3
    else 0

-- `uint32(n)` keeps the low 32 bits. The guards above its uses leave `n` positive.
unfoldable pub encode_frame : Bytes → Bytes → ℤ → Result FrameError Bytes
encode_frame profile payload original_len = do
  fail_if (is_empty payload) empty_payload
  fail_if (leb_ℤ original_len (pos 0) || ltb_ℤ (pos (length payload)) original_len)
      bad_original_length
  ok (
      frame_magic
      ++ (frame_version ∷ 0 ∷ put_uint16 (profile_id profile))
      ++ (put_uint32 (pos_part original_len % 2 ^ 32)
          ++ (put_uint32 (length payload % 2 ^ 32) ++ payload)))

unfoldable pub decode_frame : Bytes → Result FrameError Bytes
decode_frame frame = do
  fail_if (ltb (length frame) 16) too_short
  fail_if (not (bytes_eq (take 4 frame) frame_magic)) bad_magic
  fail_if (not (get_or frame 4 0 == frame_version)) bad_version
  let original_len = uint32_at frame 8
  let normalized_len = uint32_at frame 12
  fail_if
      (leb original_len 0
        || ltb normalized_len original_len
        || ltb (length frame - 16) normalized_len)
      bad_length
  ok (take original_len (take normalized_len (drop 16 frame)))
