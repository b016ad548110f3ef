-- ===== src/Tunnel/Secure.antt =====
-- pkg/tunnel/secure_conn.go: AEAD frames on a byte stream. `Incoming` is the reading half of a
-- SecureConn, `Outgoing` the writing half; a frame is a length in four bytes and a sealed chunk.
pub mod Frames
pub mod Write
pub mod Read
pub mod Channel
use chameleon_protocol.Base.{
  ℕ, zero, suc, ◌+◌, ◌*◌, ◌%◌, ◌^◌, ◌==◌, ◌||◌, leb, ltb, if◌then◌else◌, min, Option, none, some,
  List, [], ◌∷◌, ◌++◌, length, take, drop, Result, ok, err, Bool,
}
use chameleon_protocol.Base.Bytes.{Bytes, put_uint32, uint32_at}
use mathlib.Core.Option
use chameleon_protocol.Crypto.{Aead, CipherError, seal_frame, open_frame}
use chameleon_protocol.Io.{IoError, Writer, read_full, write_full}

abbrev pub max_plain_frame : ℕ
max_plain_frame = 64 * 1024

abbrev pub max_cipher_frame : ℕ
max_cipher_frame = 128 * 1024

pub data SecureError : Type 0 where
  io : IoError → SecureError
  cipher : CipherError → SecureError
  bad_length too_large : SecureError

pub record Incoming : Type 0 where
  pub stream : Bytes
  pub pending : Bytes

-- The nonces are what the next calls of rand.Read will deliver; with none left it fails.
pub record Outgoing : Type 0 where
  pub writer : Writer
  pub nonces : List Bytes

module _ (a : Aead) where
  -- Opening what was read of a frame; either way the frame is off the stream.
  abbrev pub opened : Result CipherError Bytes → Bytes → Result SecureError Bytes × Bytes
  opened (err e) rest = (err (cipher e), rest)
  opened (ok plain) rest = (ok plain, rest)

  -- A failing ReadFull has read the stream to its end.
  unfoldable pub read_body : ℕ → Bytes → Result SecureError Bytes × Bytes
  read_body size after_header =
      if leb size 0 || ltb max_cipher_frame size
      then (err bad_length, after_header)
      else elim (read_full size after_header) [
        | err e ↦ (err (io e), [])
        | ok (encrypted, rest) ↦ opened (open_frame a encrypted) rest
      ]

  -- The part of Read under `if len(c.pending) == 0`: the next chunk, and what stays on the stream.
  unfoldable pub read_chunk : Bytes → Result SecureError Bytes × Bytes
  unfolding read_body
  read_chunk stream = elim (read_full 4 stream) [
    | err e ↦ (err (io e), [])
    | ok (header, after_header) ↦ read_body (uint32_at header 0) after_header
  ]

  -- `n := copy(p, c.pending); c.pending = c.pending[n:]`
  abbrev pub deliver : ℕ → Bytes → Bytes → Result SecureError Bytes × Incoming
  deliver room plain stream =
      (ok (take room plain), record { stream = stream; pending = drop room plain })

  refill : ℕ → Result SecureError Bytes × Bytes → Result SecureError Bytes × Incoming
  refill room (err e, rest) = (err e, record { stream = rest; pending = [] })
  refill room (ok plain, rest) = deliver room plain rest

  read_pending : ℕ → Bytes → Bytes → Result SecureError Bytes × Incoming
  unfolding refill
  read_pending room [] stream = refill room (read_chunk stream)
  read_pending room (b ∷ bs) stream = deliver room (b ∷ bs) stream

  -- Read into a buffer of `room` bytes.
  unfoldable pub read : ℕ → Incoming → Result SecureError Bytes × Incoming
  unfolding read_pending
  read zero c = (ok [], c)
  read (suc room) c = read_pending (suc room) c.pending c.stream

  -- rand.Read, once
  draw : List Bytes → Option Bytes × List Bytes
  draw [] = (none, [])
  draw (nonce ∷ nonces) = (some nonce, nonces)

  then_write : Option IoError × Writer → Bytes → Option IoError × Writer
  then_write (some e, w) s = (some e, w)
  then_write (none, w) s = write_full w s

  -- Header and sealed chunk, by two calls of writeFull; the second only if the first succeeds.
  write_sealed : Bytes → Writer → Option IoError × Writer
  unfolding then_write
  write_sealed s w = then_write (write_full w (put_uint32 (length s % 2 ^ 32))) s

  send_sealed : Result CipherError Bytes → Writer → List Bytes → Option SecureError × Outgoing
  unfolding write_sealed
  send_sealed (err e) w nonces = (some (cipher e), record { writer = w; nonces = nonces })
  send_sealed (ok s) w nonces =
      if ltb max_cipher_frame (length s)
      then (some too_large, record { writer = w; nonces = nonces })
      else let (failure, w') = write_sealed s w in
        (Option.map io failure, record { writer = w'; nonces = nonces })

  -- One round of the loop: seal `chunk` and send it.
  unfoldable pub write_chunk : Bytes → Outgoing → Option SecureError × Outgoing
  unfolding draw send_sealed
  write_chunk chunk c =
      let (drawn, nonces) = draw c.nonces in send_sealed (seal_frame a drawn chunk) c.writer nonces

  -- The loop `for len(p) > 0`; each round takes a byte at least, so `length p` rounds suffice.
  unfoldable pub write_chunks : ℕ → Bytes → ℕ → Outgoing → (Option SecureError × ℕ) × Outgoing
  write_chunks zero p written c = ((none, written), c)
  write_chunks (suc fuel) [] written c = ((none, written), c)
  write_chunks (suc fuel) (b ∷ p) written c =
      let size = min (length (b ∷ p)) max_plain_frame in
      let (failure, c') = write_chunk (take size (b ∷ p)) c in
      let rest = write_chunks fuel (drop size (b ∷ p)) (written + size) c' in
      elim failure [ some e ↦ ((some e, written), c') | none ↦ rest ]

  -- Write: the error and the count of bytes that were sent.
  unfoldable pub write : Bytes → Outgoing → (Option SecureError × ℕ) × Outgoing
  unfolding write_chunks
  write p c = write_chunks (length p) p 0 c
