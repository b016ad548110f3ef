-- ===== src/Io.antt =====
-- Byte streams. Of a reader the bytes that are still to come are the state; a writer has the bytes
-- that went out and the answers that its next calls of Write will give.
pub mod Reading
pub mod Writing
use chameleon_protocol.Base.{
  ℕ, zero, ◌≡◌, ◌||◌, ◌==◌, ltb, if◌then◌else◌, Option, none, some, List, [], ◌∷◌, ◌++◌, length,
  take, drop, Result, ok, err, Bool,
}
use chameleon_protocol.Base.Bytes.{Bytes}

pub data IoError : Type 0 where
  eof unexpected_eof short_write write_failed : IoError

-- io.ReadFull: exactly `n` bytes, or an error that leaves nothing to read. The error is io.EOF if
-- no byte was there at all.
unfoldable pub read_full : ℕ → Bytes → Result IoError (Bytes × Bytes)
read_full n stream =
    if ltb (length stream) n
    then err (if length stream == 0 then eof else unexpected_eof)
    else ok (take n stream, drop n stream)

-- One answer of Write: it took `n` bytes, or failed after `n` bytes.
pub data Answer : Type 0 where
  wrote : ℕ → Answer
  failed : ℕ → Answer

pub record Writer : Type 0 where
  pub sent : Bytes
  pub answers : List Answer

-- The loop `for len(p) > 0`, on the answers to come. A writer with no more answers takes all.
unfoldable pub write_loop : List Answer → Bytes → Bytes → Option IoError × Writer
write_loop answers sent [] = (none, record { sent = sent; answers = answers })
write_loop [] sent (b ∷ p) = (none, record { sent = sent ++ (b ∷ p); answers = [] })
write_loop (failed n ∷ answers) sent (b ∷ p) =
    (some write_failed, record { sent = sent ++ take n (b ∷ p); answers = answers })
write_loop (wrote n ∷ answers) sent (b ∷ p) =
    let rest = write_loop answers (sent ++ take n (b ∷ p)) (drop n (b ∷ p)) in
    if n == 0 || ltb (length (b ∷ p)) n
    then (some short_write, record { sent = sent ++ take n (b ∷ p); answers = answers })
    else rest

-- writeFull of pkg/tunnel/secure_conn.go (pkg/dpi and pkg/socks5 have the same loop as writeAll).
unfoldable pub write_full : Writer → Bytes → Option IoError × Writer
unfolding write_loop
write_full w p = write_loop w.answers w.sent p
