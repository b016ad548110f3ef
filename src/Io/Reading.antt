-- ===== src/Io/Reading.antt =====
-- io.ReadFull on a stream that begins with what is asked for.
use chameleon_protocol.Base.{
  ℕ, ◌≡◌, [], ◌∷◌, ◌++◌, arith, length, ok, length-append, take-length_append, drop-length_append,
}
use chameleon_protocol.Base.Bytes.{Bytes}
use chameleon_protocol.Io.{read_full}

pub read_full-append : (xs ys : Bytes) → read_full (length xs) (xs ++ ys) ≡ ok (xs, ys)
unfolding read_full
read_full-append xs ys =
    rw (take-length_append xs ys, drop-length_append xs ys) (ground (arith, length-append xs ys))

pub read_full-header :
    (b0 b1 b2 b3 : ℕ) (s : Bytes)
    → read_full 4 (b0 ∷ b1 ∷ b2 ∷ b3 ∷ s) ≡ ok (b0 ∷ b1 ∷ b2 ∷ b3 ∷ [], s)
unfolding read_full
read_full-header b0 b1 b2 b3 s = ground arith

pub read_full-exact : (n : ℕ) (xs ys : Bytes) → length xs ≡ n → read_full n (xs ++ ys) ≡ ok (xs, ys)
read_full-exact n xs ys h = rw (← h) (read_full-append xs ys)
