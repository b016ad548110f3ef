-- ===== src/Frame/RoundTrip.antt =====
-- What EncodeFrame and DecodeFrame of pkg/core/frame.go promise one another.
use chameleon_protocol.Base.{
  ℕ, suc, ◌+◌, ◌-◌, ◌%◌, ◌^◌, ◌≤◌, ◌<◌, ◌≡◌, refl, ap, sym, ◌∙◌, [], ◌∷◌, ◌++◌, arith, length, take,
  drop, ok, err, ◌>>=◌, ◌⊎◌, inl, inr, ltb, leb, length-append, length-take, length-drop, take-take,
  fail_if-ok, ok_injective, not-not, take-take, take-length_append, ◌||◌, false,
}
use chameleon_protocol.Base.Int.{ℤ, pos, ◌≤ℤ◌, ◌<ℤ◌}
use chameleon_protocol.Base.Bytes.{
  Bytes, bytes_eq→eq, uint32_at, uint32_at, uint32_at-put_uint32, put_uint16, put_uint32,
}
use chameleon_protocol.Frame.{
  FrameError, empty_payload, bad_original_length, frame_magic, encode_frame, decode_frame,
  profile_id,
}

abbrev header : ℕ → ℕ → ℕ → ℕ → Bytes → Bytes
header flags profile original_len normalized_len body =
    frame_magic
    ++ ((1 ∷ flags ∷ put_uint16 profile)
        ++ (put_uint32 original_len ++ (put_uint32 normalized_len ++ body)))

decode_frame-header :
    (flags profile o n : ℕ) (body : Bytes)
    → 0 < o
    → o ≤ n
    → n ≤ length body
    → n < 2 ^ 32
    → decode_frame (header flags profile o n body) ≡ ok (take o (take n body))
unfolding decode_frame
decode_frame-header flags profile o n body h1 h2 h3 h4 =
    let eo = uint32_at-put_uint32 o (omega arith) in
    let en = uint32_at-put_uint32 n h4 in rw (eo, en) (ground arith)

-- what encode_frame writes, when its guards pass
encode_frame-header :
    (profile payload : Bytes) (n : ℕ)
    → 0 < n
    → n ≤ length payload
    → length payload < 2 ^ 32
    → encode_frame profile payload (pos n)
      ≡ ok (header 0 (profile_id profile) n (length payload) payload)
unfolding encode_frame
encode_frame-header profile [] n pos_n le small = absurd (omega arith)
encode_frame-header profile (b ∷ bs) n pos_n le small =
    let en : n % 2 ^ 32 ≡ n = omega arith in
    let el : suc (length bs) % 2 ^ 32 ≡ suc (length bs) = omega arith in rw (en, el) (ground arith)

-- A frame that EncodeFrame built from a payload of less than 2^32 bytes and an original length
-- between 1 and the payload's decodes to the first `n` bytes of the payload, whatever bytes
-- follow the frame.
pub decode_frame-encode_frame :
    (profile payload more : Bytes) (n : ℕ)
    → 0 < n
    → n ≤ length payload
    → length payload < 2 ^ 32
    → (encode_frame profile payload (pos n) >>= λ frame. decode_frame (frame ++ more))
      ≡ ok (take n payload)
decode_frame-encode_frame profile payload more n pos_n le small =
    rw (encode_frame-header profile payload n pos_n le small) (
      decode_frame-header 0 (profile_id profile) n (length payload) (payload ++ more) pos_n le
        (omega (arith, length-append payload more)) small
      ∙ ap (λ t. ok (take n t)) (take-length_append payload more))

-- EncodeFrame refuses exactly the empty payloads and the original lengths outside 1 .. length.
pub encode_frame-err :
    (profile payload : Bytes) (n : ℤ) (e : FrameError)
    → encode_frame profile payload n ≡ err e
    → ((e ≡ empty_payload) × (payload ≡ []))
      ⊎ ((e ≡ bad_original_length) × ((n ≤ℤ pos 0) ⊎ (pos (length payload) <ℤ n)))
unfolding encode_frame
encode_frame-err profile [] n e h = inl (cc, refl)
encode_frame-err profile (b ∷ bs) n e h = inr (ground arith, ground arith)

length_guard :
    (o n room : ℕ) → (leb o 0 || ltb n o || ltb room n) ≡ false → (0 < o) × (o ≤ n) × (n ≤ room)
length_guard o n room h = ground arith

-- the payload slice, when the lengths fit
length_slice :
    (o n : ℕ) (body : Bytes)
    → o ≤ n
    → n ≤ length body
    → (length (take o (take n body)) ≡ o) × (take o (take n body) ≡ take o body)
length_slice o n body h1 h2 =
    (omega (arith, length-take o (take n body), length-take n body), take-take o n body h1)

-- Whatever DecodeFrame accepts starts with the magic and carries at least one payload byte;
-- the result is the front of what follows the header.
pub decode_frame_sound :
    (frame out : Bytes)
    → decode_frame frame ≡ ok out
    → (take 4 frame ≡ frame_magic)
      × (0 < length out)
      × (length out + 16 ≤ length frame)
      × (out ≡ take (length out) (drop 16 frame))
unfolding decode_frame
decode_frame_sound frame out h =
    let (long, h1) = fail_if-ok _ _ _ h in
    let (magic, h2) = fail_if-ok _ _ _ h1 in
    let (version, h3) = fail_if-ok _ _ _ h2 in
    let (lengths, h4) = fail_if-ok _ _ _ h3 in
    let o = uint32_at frame 8 in
    let n = uint32_at frame 12 in
    let body = drop 16 frame in
    let (low, mid, fits) = length_guard o n (length frame - 16) lengths in
    let (len, slice) = length_slice o n body mid (omega (arith, length-drop 16 frame)) in
    let same : take o (take n body) ≡ out = ok_injective h4 in
    let len_out : length out ≡ o = sym (ap length same) ∙ len in
    (
      bytes_eq→eq (take 4 frame) frame_magic (not-not _ magic),
      omega arith,
      ground arith,
      sym same ∙ slice ∙ ap (λ t. take t body) (sym len_out),
    )
