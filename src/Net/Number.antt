-- ===== src/Net/Number.antt =====
-- strconv.Atoi and strconv.Itoa in base ten.
use chameleon_protocol.Base.{
  ℕ, zero, suc, ◌+◌, ◌-◌, ◌*◌, ◌/◌, ◌%◌, ◌^◌, Bool, ◌&&◌, ◌==◌, leb, ltb, if◌then◌else◌, Option,
  none, some, [], ◌∷◌, ◌++◌,
}
use chameleon_protocol.Base.Int.{ℤ, pos, negsuc}
use chameleon_protocol.Base.Bytes.{Bytes}

unfoldable pub is_digit : ℕ → Bool
is_digit c = leb b'0' c && leb c b'9'

-- The value of a run of digits behind those that make `acc`.
unfoldable pub digits_from : ℕ → Bytes → Option ℕ
unfolding is_digit
digits_from acc [] = some acc
digits_from acc (c ∷ s) =
    let rest = digits_from (acc * 10 + (c - b'0')) s in if is_digit c then rest else none

-- At least one digit.
unfoldable pub parse_digits : Bytes → Option ℕ
unfolding digits_from
parse_digits [] = none
parse_digits (c ∷ s) = digits_from 0 (c ∷ s)

in_int64 : Option ℕ → Option ℤ
in_int64 none = none
in_int64 (some n) = if ltb n (2 ^ 63) then some (pos n) else none

neg_in_int64 : Option ℕ → Option ℤ
neg_in_int64 none = none
neg_in_int64 (some zero) = some (pos 0)
neg_in_int64 (some (suc n)) = if ltb n (2 ^ 63) then some (negsuc n) else none

-- An optional sign, then digits; a value outside int64 is an error.
unfoldable pub atoi : Bytes → Option ℤ
unfolding in_int64 neg_in_int64 parse_digits
atoi [] = none
atoi (c ∷ s) =
    if c == b'+'
    then in_int64 (parse_digits s)
    else if c == b'-'
    then neg_in_int64 (parse_digits s)
    else in_int64 (parse_digits (c ∷ s))

-- The digits of `n`, highest first, for `n` below 10 ^ (k + 1).
unfoldable pub itoa_digits : ℕ → ℕ → Bytes
itoa_digits zero n = (b'0' + n) ∷ []
itoa_digits (suc k) n =
    let front = itoa_digits k (n / 10) in
    if ltb n 10 then (b'0' + n) ∷ [] else front ++ ((b'0' + n % 10) ∷ [])

-- strconv.Itoa of a uint16.
unfoldable pub itoa_uint16 : ℕ → Bytes
unfolding itoa_digits
itoa_uint16 n = itoa_digits 4 n
