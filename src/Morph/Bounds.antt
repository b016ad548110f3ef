-- ===== src/Morph/Bounds.antt =====
-- What the shaping of pkg/morph guarantees of a packet and of its delay.
use mathlib.Core.List.{append-nil}
use mathlib.Core.Path.{subst}
use chameleon_protocol.Base.{
  from_option, ◌>>=◌, ℕ, ◌+◌, ◌-◌, ◌^◌, ◌≤◌, ◌<◌, ◌≡◌, sym, ap, ◌∙◌, arith, true, false, Bool,
  Bool-cases, inl, inr, Option, some, [], ◌++◌, length, Result, ok, err, fail_if-ok, >>-ok, >>=-ok,
  ok_injective, from_option-ok, if◌then◌else◌, ◌&&◌, ◌==◌,
}
use chameleon_protocol.Base.Int.{
  ℤ, pos, negsuc, ◌≤ℤ◌, ◌+ℤ◌, IsInt64, pos_part, leb_ℤ, ltb_ℤ, int_laws,
}
use chameleon_protocol.Base.Bytes.{Bytes}
use chameleon_protocol.Base.Int64.{
  add64, sub64, add64_pos, add64_zero, sum_wraps, sub64_pos, pos_part-add64_suc,
}
use chameleon_protocol.Morph.{
  PaddingConfig, JitterConfig, MorphError, is_zero, validate_padding, int_below, target_size,
  normalize, pad_with, validate_jitter, next_delay, no_size, no_padding, no_jitter, panicked,
}

validate_padding-ok :
    (c : PaddingConfig)
    → validate_padding c ≡ ok tt
    → (pos 0 ≤ℤ c.min_pad) × (c.min_pad ≤ℤ c.max_pad)
unfolding validate_padding
validate_padding-ok c h =
    let (low, h1) = fail_if-ok (ltb_ℤ c.min_pad (pos 0)) _ _ h in
    let (high, _) = fail_if-ok (ltb_ℤ c.max_pad c.min_pad) _ _ h1 in
    (ground (arith, low), ground (arith, high))

validate_jitter-ok :
    (c : JitterConfig)
    → validate_jitter c ≡ ok tt
    → (pos 0 ≤ℤ c.base_delay) × (pos 0 ≤ℤ c.min_jitter) × (c.min_jitter ≤ℤ c.max_jitter)
unfolding validate_jitter
validate_jitter-ok c h =
    let (base, h1) = fail_if-ok (ltb_ℤ c.base_delay (pos 0)) _ _ h in
    let (low, h2) = fail_if-ok (ltb_ℤ c.min_jitter (pos 0)) _ _ h1 in
    let (high, _) = fail_if-ok (ltb_ℤ c.max_jitter c.min_jitter) _ _ h2 in
    (ground (arith, base), ground (arith, low), ground (arith, high))

abbrev IsBelow : (ℕ → Option ℕ) → Type 0
IsBelow draw = (n o : ℕ) → draw n ≡ some o → o < n

after_guard :
    {A : Type 0} (b : Bool) (e : MorphError) (r : Result MorphError A) {a : A}
    → (if b then err e else r) ≡ ok a
    → r ≡ ok a
after_guard true e r h = cc
after_guard false e r h = h

int_below-ok :
    (draw : ℕ → Option ℕ) (k : ℕ) (fault : MorphError) (z : ℤ)
    → IsBelow draw
    → k < 2 ^ 63
    → int_below draw (add64 (pos k) (pos 1)) fault ≡ ok z
    → (o : ℕ) × (z ≡ pos o) × (o ≤ k)
int_below-ok draw k fault z law small h =
    let max = add64 (pos k) (pos 1) in
    let inner = after_guard (leb_ℤ max (pos 0)) panicked _ h in
    let (o, drawn, e) = >>=-ok (from_option (draw (pos_part max)) fault) _ inner in
    let below = law (pos_part max) o (from_option-ok (draw (pos_part max)) fault drawn) in
    (o, sym (ok_injective e), omega (arith, below, pos_part-add64_suc k small))

-- what is drawn from the window between `a` and `b`, and added to `n`
abbrev drawn_from : (ℕ → Option ℕ) → MorphError → ℤ → ℤ → ℤ → Result MorphError ℤ
drawn_from draw fault n a b = if is_zero (sub64 b a) then ok (add64 n a) else (do
  offset ← int_below draw (add64 (sub64 b a) (pos 1)) fault
  ok (add64 (add64 n a) offset))

drawn_from-window :
    (draw : ℕ → Option ℕ) (fault : MorphError) (n a b : ℕ) (t : ℤ)
    → IsBelow draw
    → a ≤ b
    → b < 2 ^ 63
    → n < 2 ^ 63
    → drawn_from draw fault (pos n) (pos a) (pos b) ≡ ok t
    → (o : ℕ) × (t ≡ add64 (add64 (pos n) (pos a)) (pos o)) × (a + o ≤ b)
drawn_from-window draw fault n a b t law le hb hn h =
    elim (Bool-cases (is_zero (sub64 (pos b) (pos a)))) [
      | inl none_left ↦ (
        0,
        sym (ok_injective (rw none_left at h)) ∙ sym (add64_zero n a hn (omega arith)),
        omega arith,
      )
      | inr some_left ↦
          let inner : (int_below draw (add64 (sub64 (pos b) (pos a)) (pos 1)) fault >>= λ offset.
          ok (add64 (add64 (pos n) (pos a)) offset))
              ≡ ok t =
            rw some_left at h in
          let (z, drawn, e) =
            >>=-ok (int_below draw (add64 (sub64 (pos b) (pos a)) (pos 1)) fault) _ inner in
          let same : sub64 (pos b) (pos a) ≡ pos (b - a) = sub64_pos b a le hb in
          let (o, ez, fit) =
            int_below-ok draw (b - a) fault z law (omega arith) (rw same at drawn) in
          (o, sym (ok_injective e) ∙ ap (λ w. add64 (add64 (pos n) (pos a)) w) ez, omega arith)
    ]

size_drawn :
    (draw : ℕ → Option ℕ) (n : ℕ) (a b t : ℤ)
    → IsBelow draw
    → pos 0 ≤ℤ a
    → a ≤ℤ b
    → IsInt64 b
    → n < 2 ^ 63
    → pos 0 ≤ℤ t
    → drawn_from draw no_size (pos n) a b ≡ ok t
    → (p : ℕ) × (t ≡ pos (n + p)) × (a ≤ℤ pos p) × (pos p ≤ℤ b)
size_drawn draw n (pos a) (pos b) t law low le fits small t_pos h =
    let (o, et, fit) =
      drawn_from-window draw no_size n a b t law (omega (arith, le)) (omega (arith, fits.1)) small
        h in
    let exact = sum_wraps n a o small (omega arith) (subst (λ z. pos 0 ≤ℤ z) et t_pos) in
    (a + o, et ∙ exact ∙ ap pos (omega arith), omega arith, omega arith)
size_drawn draw n (pos a) (negsuc b) t law low le fits small t_pos h = absurd (omega arith)
size_drawn draw n (negsuc a) b t law low le fits small t_pos h = absurd (omega arith)

-- The size that TargetSize returns is the size of the payload and a number between the ends of the
-- padding window.
pub target_size-window :
    (c : PaddingConfig) (draw : ℕ → Option ℕ) (n : ℕ) (t : ℤ)
    → IsBelow draw
    → IsInt64 c.max_pad
    → n < 2 ^ 63
    → pos 0 ≤ℤ t
    → target_size c draw (pos n) ≡ ok t
    → (p : ℕ) × (t ≡ pos (n + p)) × (c.min_pad ≤ℤ pos p) × (pos p ≤ℤ c.max_pad)
unfolding target_size
target_size-window c draw n t law fits small t_pos h =
    let (_, h1) = fail_if-ok (ltb_ℤ (pos n) (pos 0)) _ _ h in
    let (valid, h2) = >>-ok (validate_padding c) _ h1 in
    let (lo, hi) = validate_padding-ok c valid in
    size_drawn draw n c.min_pad c.max_pad t law lo hi fits small t_pos h2

delay_drawn :
    (draw : ℕ → Option ℕ) (n a b d : ℤ)
    → IsBelow draw
    → pos 0 ≤ℤ n
    → pos 0 ≤ℤ a
    → a ≤ℤ b
    → n +ℤ b ≤ℤ pos (2 ^ 63 - 1)
    → drawn_from draw no_jitter n a b ≡ ok d
    → (n +ℤ a ≤ℤ d) × (d ≤ℤ n +ℤ b)
unfolding ◌+ℤ◌
delay_drawn draw (pos n) (pos a) (pos b) d law hn low le room h =
    let fit : n + b < 2 ^ 63 = ground arith in
    let (o, ed, in_window) =
      drawn_from-window draw no_jitter n a b d law (omega (arith, le)) (omega arith) (omega arith)
        h in
    let exact : d ≡ pos (n + a + o) =
      ed
      ∙ ap (λ w. add64 w (pos o)) (add64_pos n a (omega arith))
      ∙ add64_pos (n + a) o (omega arith) in
    (ground (arith, exact, in_window), ground (arith, exact, in_window))
delay_drawn draw (pos n) (pos a) (negsuc b) d law hn low le room h = absurd (omega arith)
delay_drawn draw (pos n) (negsuc a) b d law hn low le room h = absurd (omega arith)
delay_drawn draw (negsuc n) a b d law hn low le room h = absurd (omega arith)

no_window :
    (n a b d : ℤ) → pos 0 ≤ℤ a → a ≤ℤ b → is_zero b ≡ true → d ≡ n → (n +ℤ a ≤ℤ d) × (d ≤ℤ n +ℤ b)
no_window n a b d low le z e = rw e (grind int_laws, grind int_laws)

-- The delay that Next returns lies between the base delay and the least jitter, and the base delay
-- and the greatest jitter, when the latter sum fits a Duration.
pub next_delay-window :
    (c : JitterConfig) (draw : ℕ → Option ℕ) (d : ℤ)
    → IsBelow draw
    → c.base_delay +ℤ c.max_jitter ≤ℤ pos (2 ^ 63 - 1)
    → next_delay c draw ≡ ok d
    → (c.base_delay +ℤ c.min_jitter ≤ℤ d) × (d ≤ℤ c.base_delay +ℤ c.max_jitter)
unfolding next_delay
next_delay-window c draw d law room h =
    let (valid, h1) = >>-ok (validate_jitter c) _ h in
    let (base, lo, hi) = validate_jitter-ok c valid in
    elim (Bool-cases (is_zero c.max_jitter)) [
      | inl at_zero ↦
          no_window c.base_delay c.min_jitter c.max_jitter d lo hi at_zero
            (sym (ok_injective (rw at_zero at h1)))
      | inr more ↦
          delay_drawn draw c.base_delay c.min_jitter c.max_jitter d law base lo hi room
            (rw more at h1)
    ]

within_budget :
    (b : ℤ) (p : ℕ) → (ltb_ℤ (pos 0) b && ltb_ℤ b (pos p)) ≡ false → pos 1 ≤ℤ b → pos p ≤ℤ b
within_budget b p h limited = ground arith

pad_with-padded :
    (c : PaddingConfig) (read : ℕ → Option Bytes) (payload : Bytes) (n : ℕ) {out : Bytes}
    → ((n : ℕ) (bytes : Bytes) → read n ≡ some bytes → length bytes ≡ n)
    → pad_with c read payload n ≡ ok out
    → (pad : Bytes) × (out ≡ payload ++ pad)
      × (length pad ≡ n)
      × (pos 1 ≤ℤ c.entropy_budget → pos n ≤ℤ c.entropy_budget)
unfolding pad_with
pad_with-padded c read payload n law h = elim (Bool-cases (n == 0)) [
  | inl nothing ↦ (
    [],
    sym (ok_injective (rw nothing at h)) ∙ sym (append-nil payload),
    ground arith,
    λ limited. ground arith,
  )
  | inr more ↦
      let (bytes, drawn, h1) = >>=-ok (from_option (read n) no_padding) _ (rw more at h) in
      let (fits, h2) =
        fail_if-ok (ltb_ℤ (pos 0) c.entropy_budget && ltb_ℤ c.entropy_budget (pos n)) _ _ h1 in
      (
        bytes,
        sym (ok_injective h2),
        law n bytes (from_option-ok (read n) no_padding drawn),
        within_budget c.entropy_budget n fits,
      )
]

-- What Normalize returns is the payload, unchanged, followed by as many bytes as the target is
-- longer; a configured budget is not exceeded.
pub normalize-padded :
    (c : PaddingConfig) (read : ℕ → Option Bytes) (payload : Bytes) (p : ℕ) (out : Bytes)
    → ((n : ℕ) (bytes : Bytes) → read n ≡ some bytes → length bytes ≡ n)
    → normalize c read payload (pos (length payload + p)) ≡ ok out
    → (pad : Bytes) × (out ≡ payload ++ pad)
      × (length pad ≡ p)
      × (pos 1 ≤ℤ c.entropy_budget → pos p ≤ℤ c.entropy_budget)
unfolding normalize
normalize-padded c read payload p out law h =
    let n = length payload + p - length payload in
    let (_, h1) = fail_if-ok _ _ _ h in
    let (_, h2) = >>-ok (validate_padding c) (pad_with c read payload n) h1 in
    let size : n ≡ p = omega arith in
    pad_with-padded c read payload p law (subst (λ k. pad_with c read payload k ≡ ok out) size h2)
