-- ===== src/Base/Bytes.antt =====
-- Byte strings: Go's []byte and string, both as lists of numbers below 256; encoding/binary's
-- big-endian integers; equality; the characters of a literal.
use Prim.Native.Char.{code}
use Prim.Native.String.{String}
use native.Mathlib.Nat.{add-zero}
use chameleon_protocol.Base.{
  ◌++◌, length, get_or-append, ℕ, ◌+◌, ◌*◌, ◌/◌, ◌%◌, ◌^◌, ◌<◌, ◌≡◌, refl, List, [], ◌∷◌, Bool,
  true, false, ◌&&◌, ◌==◌, ◌↔◌, arith, get_or,
}

abbrev pub IsByte : ℕ → Type 0
IsByte b = b < 256

abbrev pub Bytes : Type 0
Bytes = List ℕ

-- The bytes of a literal (all literals of the program are ASCII).
abbrev pub codes : String → Bytes
codes String.[] = []
codes (String.◌∷◌ c s) = code c ∷ codes s

abbrev pub bytes_eq : Bytes → Bytes → Bool
bytes_eq [] [] = true
bytes_eq (x ∷ xs) (y ∷ ys) = x == y && bytes_eq xs ys
bytes_eq _ _ = false

pub bytes_eq→eq : (xs ys : Bytes) → bytes_eq xs ys ≡ true → xs ≡ ys
bytes_eq→eq [] [] h = refl
bytes_eq→eq [] (y ∷ ys) h = cc
bytes_eq→eq (x ∷ xs) [] h = cc
bytes_eq→eq (x ∷ xs) (y ∷ ys) h = ground (arith, bytes_eq→eq xs ys)

pub bytes_eq_refl : (xs : Bytes) → bytes_eq xs xs ≡ true
bytes_eq_refl [] = refl
bytes_eq_refl (x ∷ xs) = ground (arith, bytes_eq_refl xs)

pub bytes_eq_iff : (xs ys : Bytes) → (bytes_eq xs ys ≡ true) ↔ (xs ≡ ys)
bytes_eq_iff xs ys = (bytes_eq→eq xs ys, λ e. rw e (bytes_eq_refl ys))

abbrev pub is_empty : Bytes → Bool
is_empty [] = true
is_empty (x ∷ xs) = false

-- binary.BigEndian.PutUint16 and PutUint32, of a value cut to that width.
abbrev pub put_uint16 : ℕ → Bytes
put_uint16 v = (v / 256 % 256) ∷ (v % 256) ∷ []

abbrev pub put_uint32 : ℕ → Bytes
put_uint32 v = (v / 2 ^ 24 % 256) ∷ (v / 2 ^ 16 % 256) ∷ (v / 256 % 256) ∷ (v % 256) ∷ []

-- binary.BigEndian.Uint16 and Uint32 at an offset. (Every caller tests the length first.)
abbrev pub uint16_at : Bytes → ℕ → ℕ
uint16_at s i = get_or s i 0 * 256 + get_or s (i + 1) 0

abbrev pub uint32_at : Bytes → ℕ → ℕ
uint32_at s i =
    get_or s i 0 * 2 ^ 24
    + get_or s (i + 1) 0 * 2 ^ 16
    + get_or s (i + 2) 0 * 256
    + get_or s (i + 3) 0

pub uint16_at-put_uint16 : (v : ℕ) → v < 2 ^ 16 → v / 256 % 256 * 256 + v % 256 ≡ v
uint16_at-put_uint16 v h = omega arith

pub uint32_at-put_uint32 :
    (v : ℕ)
    → v < 2 ^ 32
    → v / 2 ^ 24 % 256 * 2 ^ 24 + v / 2 ^ 16 % 256 * 2 ^ 16 + v / 256 % 256 * 256 + v % 256 ≡ v
uint32_at-put_uint32 v h = omega arith

pub put_uint16-uint16 : (a b : ℕ) → IsByte a → IsByte b → put_uint16 (a * 256 + b) ≡ a ∷ b ∷ []
put_uint16-uint16 a b ha hb = ground arith

-- PutUint64 and Uint64.
abbrev pub put_uint64 : ℕ → Bytes
put_uint64 v = put_uint32 (v / 2 ^ 32) ++ put_uint32 (v % 2 ^ 32)

abbrev pub uint64_at : Bytes → ℕ → ℕ
uint64_at s i = uint32_at s i * 2 ^ 32 + uint32_at s (i + 4)

pub uint16_at-append :
    (n : ℕ) (xs ys : Bytes) → length xs ≡ n → uint16_at (xs ++ ys) n ≡ uint16_at ys 0
uint16_at-append n xs ys h =
    let low : get_or (xs ++ ys) n 0 ≡ get_or ys 0 0 =
      rw (add-zero) at (get_or-append n 0 xs ys 0 h) in
    rw (low, get_or-append n 1 xs ys 0 h)

pub uint64_at-put_uint64 :
    (b v : ℕ) (s : Bytes) → v < 2 ^ 64 → uint64_at (b ∷ (put_uint64 v ++ s)) 1 ≡ v
uint64_at-put_uint64 b v s h =
    let high : v / 2 ^ 32 < 2 ^ 32 = omega arith in
    let low : v % 2 ^ 32 < 2 ^ 32 = omega arith in
    rw (uint32_at-put_uint32 (v / 2 ^ 32) high, uint32_at-put_uint32 (v % 2 ^ 32) low) (omega arith)
