-- ===== src/Tunnel/Secure/Read.antt =====
-- SecureConn.Read on a stream that carries a payload.
use mathlib.Core.List.{append_assoc}
use chameleon_protocol.Base.{
  ℕ, zero, suc, ◌≤◌, ◌<◌, ◌≡◌, refl, sym, ap, ◌∙◌, [], ◌∷◌, ◌++◌, length, take, drop, arith, Result,
  ok, err, length-append, take-append-drop, length-take,
}
use chameleon_protocol.Base.Bytes.{Bytes}
use chameleon_protocol.Crypto.{Aead, AeadLaws}
use chameleon_protocol.Io.{eof, read_full}
use chameleon_protocol.Tunnel.Secure.{
  SecureError, io, Incoming, read_chunk, deliver, refill, read_pending, read,
}
use chameleon_protocol.Tunnel.Secure.Frames.{Carries, ended, framed, read_chunk-frame}

module _ (a : Aead) where
  -- What the reader still has to deliver: the pending bytes and then the stream's payload.
  pub record Holds (c : Incoming) (rest : Bytes) : Type 0 where
    pub payload : Bytes
    pub carries : Carries a c.stream payload
    pub whole : rest ≡ c.pending ++ payload

  -- A Read of `room` bytes gave the front of `data`, and the reader holds what is left.
  pub record Gives (room : ℕ) (data_ : Bytes) (r : Result SecureError Bytes × Incoming)
      : Type 0 where
    pub out : Bytes
    pub left : Bytes
    pub given : r.0 ≡ ok out
    pub some_bytes : 0 < length out
    pub fits : length out ≤ room
    pub split : data_ ≡ out ++ left
    pub holds : Holds r.1 left

  deliver-Gives :
      (room : ℕ) (plain stream payload : Bytes)
      → 0 < room
      → 0 < length plain
      → Carries a stream payload
      → Gives room (plain ++ payload) (deliver a room plain stream)
  deliver-Gives room plain stream payload pos_room ne carries = record {
    out = take room plain;
    left = drop room plain ++ payload;
    given = refl;
    some_bytes = omega (arith, length-take room plain);
    fits = omega (arith, length-take room plain);
    split =
        ap (λ t. t ++ payload) (sym (take-append-drop room plain))
        ∙ append_assoc (take room plain) (drop room plain) payload;
    holds = record { payload = payload; carries = carries; whole = refl };
  }

  refill-Gives :
      {stream payload : Bytes} (room : ℕ)
      → AeadLaws a
      → 0 < room
      → 0 < length payload
      → Carries a stream payload
      → Gives room payload (refill a room (read_chunk a stream))
  refill-Gives room laws pos_room ne ended = absurd (omega arith)
  refill-Gives room laws pos_room ne
        (framed nonce chunk {stream = s} {payload = p} size pos_chunk le carries) =
      rw (read_chunk-frame a nonce chunk s laws size pos_chunk le)
        (unfold refill in deliver-Gives room chunk s p pos_room pos_chunk carries)

  read_pending-Gives :
      (room : ℕ) (pending stream payload : Bytes)
      → AeadLaws a
      → 0 < room
      → Carries a stream payload
      → 0 < length (pending ++ payload)
      → Gives room (pending ++ payload) (read_pending a room pending stream)
  unfolding read_pending
  read_pending-Gives room [] stream payload laws pos_room carries ne =
      refill-Gives room laws pos_room ne carries
  read_pending-Gives room (b ∷ bs) stream payload laws pos_room carries ne =
      deliver-Gives room (b ∷ bs) stream payload pos_room (omega arith) carries

  -- While there is something to deliver, a Read into a non-empty buffer gives at least one byte of
  -- it, in order, and
  -- loses nothing. The cipher is a lawful one.
  pub read-Gives :
      (room : ℕ) (c : Incoming) (rest : Bytes)
      → AeadLaws a
      → 0 < room
      → 0 < length rest
      → Holds c rest
      → Gives room rest (read a room c)
  unfolding read
  read-Gives zero c rest laws pos_room ne h = absurd (omega arith)
  read-Gives (suc room) c rest laws pos_room ne h = rw h.whole (
      read_pending-Gives (suc room) c.pending c.stream h.payload laws pos_room h.carries
        (rw h.whole at ne))

  refill-eof :
      {stream payload : Bytes} (room : ℕ)
      → Carries a stream payload
      → payload ≡ []
      → (refill a room (read_chunk a stream)).0 ≡ err (io eof)
  unfolding refill
  refill-eof room ended e = unfold read_chunk read_full in refl
  refill-eof room (framed nonce chunk {stream = s} {payload = p} size pos_chunk le carries) e =
      absurd (omega (arith, ap length e, length-append chunk p))

  read_pending-eof :
      (room : ℕ) (pending stream payload : Bytes)
      → Carries a stream payload
      → [] ≡ pending ++ payload
      → (read_pending a room pending stream).0 ≡ err (io eof)
  unfolding read_pending
  read_pending-eof room [] stream payload carries e = refill-eof room carries (sym e)
  read_pending-eof room (b ∷ bs) stream payload carries e = cc

  -- With nothing left to deliver a Read answers io.EOF.
  pub read-eof :
      (room : ℕ) (c : Incoming) → 0 < room → Holds c [] → (read a room c).0 ≡ err (io eof)
  unfolding read
  read-eof zero c pos_room h = absurd (omega arith)
  read-eof (suc room) c pos_room h =
      read_pending-eof (suc room) c.pending c.stream h.payload h.carries h.whole
