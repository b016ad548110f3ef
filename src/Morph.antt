-- ===== src/Morph.antt =====
-- pkg/morph/padding.go and jitter.go: how much padding a packet gets, and how long it waits.
pub mod Bounds
use chameleon_protocol.Base.{
  ℕ, ◌+◌, ◌-◌, ◌≤◌, ◌<◌, ◌≡◌, ◌&&◌, ◌==◌, true, false, Bool, if◌then◌else◌, Option, none, some, ltb,
  [], ◌∷◌, ◌++◌, length, Result, ok, err, ◌>>=◌, ◌>>◌, fail_if, from_option,
}
use chameleon_protocol.Base.Int64.{add64, sub64}
use chameleon_protocol.Base.Int.{
  ℤ, pos, negsuc, ◌+ℤ◌, ◌-ℤ◌, ltb_ℤ, leb_ℤ, pos_part, neg_part, wrap64,
}
use chameleon_protocol.Base.Bytes.{Bytes}

-- `panicked` is the panic of rand.Int on a bound that is not positive.
pub data MorphError : Type 0 where
  negative_min_pad max_below_min_pad negative_length no_size target_too_small : MorphError
  no_padding over_budget : MorphError
  negative_base_delay negative_min_jitter max_below_min_jitter no_jitter : MorphError
  panicked : MorphError

pub record PaddingConfig : Type 0 where
  pub min_pad : ℤ
  pub max_pad : ℤ
  pub entropy_budget : ℤ

pub record JitterConfig : Type 0 where
  pub base_delay : ℤ
  pub min_jitter : ℤ
  pub max_jitter : ℤ

-- What crypto/rand delivers for one packet: rand.Int below a bound, for the size and for the delay,
-- and rand.Read of a number of bytes. `none` is its error.
pub record Random : Type 0 where
  pub size_below : ℕ → Option ℕ
  pub padding_of : ℕ → Option Bytes
  pub delay_below : ℕ → Option ℕ

-- What the documentation of crypto/rand promises.
pub record RandomLaws (r : Random) : Type 0 where
  pub size_fits : (n o : ℕ) → r.size_below n ≡ some o → o < n
  pub padding_fits : (n : ℕ) (bytes : Bytes) → r.padding_of n ≡ some bytes → length bytes ≡ n
  pub delay_fits : (n o : ℕ) → r.delay_below n ≡ some o → o < n

abbrev pub is_zero : ℤ → Bool
is_zero z = leb_ℤ z (pos 0) && leb_ℤ (pos 0) z

-- PaddingConfig.Validate
unfoldable pub validate_padding : PaddingConfig → Result MorphError (Unit {0})
validate_padding c = do
  fail_if (ltb_ℤ c.min_pad (pos 0)) negative_min_pad
  fail_if (ltb_ℤ c.max_pad c.min_pad) max_below_min_pad
  ok tt

-- rand.Int(rand.Reader, big.NewInt(max))
abbrev pub int_below : (ℕ → Option ℕ) → ℤ → MorphError → Result MorphError ℤ
int_below draw max fault =
    if leb_ℤ max (pos 0)
    then err panicked
    else (do offset ← from_option (draw (pos_part max)) fault; ok (pos offset))

unfoldable pub target_size : PaddingConfig → (ℕ → Option ℕ) → ℤ → Result MorphError ℤ
unfolding validate_padding
target_size c draw payload_len = do
  fail_if (ltb_ℤ payload_len (pos 0)) negative_length
  validate_padding c
  let span = sub64 c.max_pad c.min_pad
  if is_zero span then ok (add64 payload_len c.min_pad) else (do
    offset ← int_below draw (add64 span (pos 1)) no_size
    ok (add64 (add64 payload_len c.min_pad) offset))

-- The part of Normalize behind its guards.
unfoldable pub pad_with : PaddingConfig → (ℕ → Option Bytes) → Bytes → ℕ → Result MorphError Bytes
pad_with c read payload padding_len = if padding_len == 0 then ok payload else (do
  padding ← from_option (read padding_len) no_padding
  fail_if (ltb_ℤ (pos 0) c.entropy_budget && ltb_ℤ c.entropy_budget (pos padding_len)) over_budget
  ok (payload ++ padding))

-- Normalize. The subtraction is exact behind the first guard.
unfoldable pub normalize : PaddingConfig → (ℕ → Option Bytes) → Bytes → ℤ → Result MorphError Bytes
unfolding validate_padding pad_with
normalize c read payload target = do
  fail_if (ltb_ℤ target (pos (length payload))) target_too_small
  validate_padding c
  pad_with c read payload (pos_part target - length payload)

-- JitterConfig.Validate
unfoldable pub validate_jitter : JitterConfig → Result MorphError (Unit {0})
validate_jitter c = do
  fail_if (ltb_ℤ c.base_delay (pos 0)) negative_base_delay
  fail_if (ltb_ℤ c.min_jitter (pos 0)) negative_min_jitter
  fail_if (ltb_ℤ c.max_jitter c.min_jitter) max_below_min_jitter
  ok tt

-- Next
unfoldable pub next_delay : JitterConfig → (ℕ → Option ℕ) → Result MorphError ℤ
unfolding validate_jitter
next_delay c draw = do
  validate_jitter c
  let span = sub64 c.max_jitter c.min_jitter
  if is_zero c.max_jitter
      then ok c.base_delay
      else if is_zero span
      then ok (add64 c.base_delay c.min_jitter)
      else (do
        offset ← int_below draw (add64 span (pos 1)) no_jitter
        ok (add64 (add64 c.base_delay c.min_jitter) offset))
