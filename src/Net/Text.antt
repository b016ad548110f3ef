-- ===== src/Net/Text.antt =====
-- strings.TrimSpace: the runes that unicode.IsSpace names, in UTF-8, taken off both ends.
use mathlib.Core.List.{reverse}
use chameleon_protocol.Base.{
  ℕ, zero, suc, Bool, ◌&&◌, ◌||◌, ◌==◌, leb, if◌then◌else◌, Option, none, some, [], ◌∷◌, length,
}
use chameleon_protocol.Base.Bytes.{Bytes}

-- '\t' '\n' '\v' '\f' '\r' ' '
unfoldable pub is_space1 : ℕ → Bool
is_space1 a = (leb 9 a && leb a 13) || a == 32

-- U+0085 and U+00A0
unfoldable pub is_space2 : ℕ → ℕ → Bool
is_space2 a b = a == 0xc2 && (b == 0x85 || b == 0xa0)

-- U+1680, U+2000 to U+200A, U+2028, U+2029, U+202F, U+205F and U+3000
unfoldable pub is_space3 : ℕ → ℕ → ℕ → Bool
is_space3 a b c =
    (a == 0xe1 && b == 0x9a && c == 0x80)
    || (a == 0xe2
        && b == 0x80
        && ((leb 0x80 c && leb c 0x8a) || c == 0xa8 || c == 0xa9 || c == 0xaf))
    || (a == 0xe2 && b == 0x81 && c == 0x9f)
    || (a == 0xe3 && b == 0x80 && c == 0x80)

-- What follows a white-space rune at the front.
unfoldable pub after_space : Bytes → Option Bytes
unfolding is_space1 is_space2 is_space3
after_space [] = none
after_space (a ∷ []) = if is_space1 a then some [] else none
after_space (a ∷ b ∷ []) =
    if is_space1 a then some (b ∷ []) else if is_space2 a b then some [] else none
after_space (a ∷ b ∷ c ∷ s) =
    if is_space1 a
    then some (b ∷ c ∷ s)
    else if is_space2 a b
    then some (c ∷ s)
    else if is_space3 a b c
    then some s
    else none

-- The same, of a text that is written backwards.
unfoldable pub before_space : Bytes → Option Bytes
unfolding is_space1 is_space2 is_space3
before_space [] = none
before_space (a ∷ []) = if is_space1 a then some [] else none
before_space (b ∷ a ∷ []) =
    if is_space1 b then some (a ∷ []) else if is_space2 a b then some [] else none
before_space (c ∷ b ∷ a ∷ s) =
    if is_space1 c
    then some (b ∷ a ∷ s)
    else if is_space2 b c
    then some (a ∷ s)
    else if is_space3 a b c
    then some s
    else none

-- A rune is taken while there is one; each takes a byte at least.
unfoldable pub strip : (Bytes → Option Bytes) → ℕ → Bytes → Bytes
strip next zero s = s
strip next (suc fuel) s = elim (next s) [ none ↦ s | some rest ↦ strip next fuel rest ]

unfoldable pub trim_space : Bytes → Bytes
unfolding strip after_space before_space
trim_space s =
    let right = strip after_space (length s) s in
    reverse (strip before_space (length right) (reverse right))
