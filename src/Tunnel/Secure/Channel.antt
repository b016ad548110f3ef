-- ===== src/Tunnel/Secure/Channel.antt =====
-- A whole direction of the tunnel: everything written on one side is read on the other.
use chameleon_protocol.Base.{
  ℕ, zero, suc, ◌<◌, ◌≡◌, refl, ap, ◌∙◌, [], ◌∷◌, ◌++◌, length, arith, Option, none, some, Result,
  ok, err, length-append, All,
}
use chameleon_protocol.Base.Bytes.{Bytes}
use chameleon_protocol.Crypto.{Aead, AeadLaws}
use chameleon_protocol.Io.{eof}
use chameleon_protocol.Tunnel.Secure.{SecureError, io, Incoming, Outgoing, read, write}
use chameleon_protocol.Tunnel.Secure.Write.{Sized, write-Delivered}
use chameleon_protocol.Tunnel.Secure.Read.{Holds, read-Gives, read-eof}

-- io.Copy returns nil at io.EOF.
abbrev at_error : SecureError → Option (Result SecureError Bytes)
at_error (io eof) = some (ok [])
at_error e = some (err e)

abbrev prepend : Bytes → Option (Result SecureError Bytes) → Option (Result SecureError Bytes)
prepend out none = none
prepend out (some (ok more)) = some (ok (out ++ more))
prepend out (some (err e)) = some (err e)

module _ (a : Aead) where
  -- The reading loop of io.Copy with a buffer of `room` bytes. `none` means that the fuel ran out.
  pub read_all : ℕ → ℕ → Incoming → Option (Result SecureError Bytes)
  read_all zero room c = none
  read_all (suc fuel) room c =
      let (answer, c') = read a room c in
      let rest = read_all fuel room c' in
      elim answer [ err e ↦ at_error e | ok out ↦ prepend out rest ]

  read_all-eof :
      (fuel room : ℕ) (c : Incoming)
      → (read a room c).0 ≡ err (io eof)
      → read_all (suc fuel) room c ≡ some (ok [])
  unfolding read_all
  read_all-eof fuel room c e = rw (e, read_all)

  read_all-more :
      (fuel room : ℕ) (c : Incoming) (out more : Bytes)
      → (read a room c).0 ≡ ok out
      → read_all fuel room (read a room c).1 ≡ some (ok more)
      → read_all (suc fuel) room c ≡ some (ok (out ++ more))
  unfolding read_all
  read_all-more fuel room c out more e h = rw (e, h, read_all)

  read_all-Holds :
      (fuel room : ℕ) (c : Incoming) (rest : Bytes)
      → AeadLaws a
      → 0 < room
      → length rest < fuel
      → Holds a c rest
      → read_all fuel room c ≡ some (ok rest)
  read_all-Holds zero room c rest laws pos_room enough h = absurd (omega arith)
  read_all-Holds (suc fuel) room c [] laws pos_room enough h =
      read_all-eof fuel room c (read-eof a room c pos_room h)
  read_all-Holds (suc fuel) room c (b ∷ rest) laws pos_room enough h =
      let g = read-Gives a room c (b ∷ rest) laws pos_room (omega arith) h in
      rw g.split (
        read_all-more fuel room c g.out g.left g.given (
          read_all-Holds fuel room (read a room c).1 g.left laws pos_room
            (omega (arith, g.some_bytes, ap length g.split, length-append g.out g.left)) g.holds))

  -- What one Write without error put on an empty stream is what the reading loop delivers, for
  -- every buffer size but zero, after one round more than there are bytes at most. The cipher is a
  -- lawful one and every nonce drawn is of its size.
  pub read_all-write :
      (p : Bytes) (c : Outgoing) (room : ℕ)
      → AeadLaws a
      → All (Sized a) c.nonces
      → c.writer.sent ≡ []
      → (write a p c).0.0 ≡ none
      → 0 < room
      → read_all
          (suc (length p))
          room
          (record { stream = (write a p c).1.writer.sent; pending = [] })
        ≡ some (ok p)
  read_all-write p c room laws sized fresh done pos_room =
      let d = write-Delivered a p c laws sized done in
      let stream_is : (write a p c).1.writer.sent ≡ d.stream =
        d.out ∙ ap (λ t. t ++ d.stream) fresh in
      rw stream_is (
        read_all-Holds (suc (length p)) room (record { stream = d.stream; pending = [] }) p laws
          pos_room (omega arith) (record { payload = p; carries = d.carries; whole = refl }))
