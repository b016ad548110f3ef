-- ===== src/Base/Int64.antt =====
-- Addition and subtraction of int64 values, which wrap.
use chameleon_protocol.Base.{
  ℕ, ◌+◌, ◌-◌, ◌^◌, ◌≤◌, ◌<◌, ◌≡◌, refl, ap, ◌∙◌, arith, Bool-cases, inl, inr, ltb, ltb→lt,
  ltb-false→le,
}
use chameleon_protocol.Base.Int.{ℤ, pos, negsuc, ◌≤ℤ◌, ◌+ℤ◌, ◌-ℤ◌, wrap64, wrap64_exact, pos_part}

abbrev pub add64 : ℤ → ℤ → ℤ
add64 a b = wrap64 (a +ℤ b)

abbrev pub sub64 : ℤ → ℤ → ℤ
sub64 a b = wrap64 (a -ℤ b)

pub nonneg : (z : ℤ) → pos 0 ≤ℤ z → (n : ℕ) × (z ≡ pos n)
nonneg (pos n) h = (n, refl)
nonneg (negsuc n) h = absurd (omega arith)

pub wrap64_pos : (n : ℕ) → n < 2 ^ 63 → wrap64 (pos n) ≡ pos n
wrap64_pos n h = wrap64_exact (pos n) (omega arith, omega arith)

pub add64_pos : (a b : ℕ) → a + b < 2 ^ 63 → add64 (pos a) (pos b) ≡ pos (a + b)
unfolding ◌+ℤ◌ wrap64
add64_pos a b h = ground arith

pub add64_high :
    (a b : ℕ)
    → a < 2 ^ 63
    → b < 2 ^ 63
    → 2 ^ 63 ≤ a + b
    → add64 (pos a) (pos b) ≡ negsuc (2 ^ 64 - 1 - (a + b))
unfolding ◌+ℤ◌ wrap64
add64_high a b ha hb h = ground arith

pub add64_neg : (k o : ℕ) → o ≤ k → k < 2 ^ 63 → add64 (negsuc k) (pos o) ≡ negsuc (k - o)
unfolding ◌+ℤ◌ wrap64
add64_neg k o h l = ground arith

-- A sum that wrapped is negative.
pub add64_wraps :
    (a b : ℕ)
    → a < 2 ^ 63
    → b < 2 ^ 63
    → pos 0 ≤ℤ add64 (pos a) (pos b)
    → add64 (pos a) (pos b) ≡ pos (a + b)
add64_wraps a b ha hb h = elim (Bool-cases (ltb (a + b) (2 ^ 63))) [
  | inl low ↦ add64_pos a b (ltb→lt _ _ low)
  | inr high ↦
      let big = ltb-false→le _ _ high in
      let off = rw (add64_high a b ha hb big) at h in absurd (omega arith)
]

-- The same of a sum of three, added up in two steps.
pub sum_wraps :
    (n m o : ℕ)
    → n < 2 ^ 63
    → m + o < 2 ^ 63
    → pos 0 ≤ℤ add64 (add64 (pos n) (pos m)) (pos o)
    → add64 (add64 (pos n) (pos m)) (pos o) ≡ pos (n + m + o)
sum_wraps n m o hn hm h = elim (Bool-cases (ltb (n + m) (2 ^ 63))) [
  | inl low ↦
      let fit = ltb→lt _ _ low in
      let e = add64_pos n m fit in rw e (add64_wraps (n + m) o fit (omega arith) (rw e at h))
  | inr high ↦
      let big = ltb-false→le _ _ high in
      let e = add64_high n m hn (omega arith) big in
      let e2 = add64_neg (2 ^ 64 - 1 - (n + m)) o (omega arith) (omega arith) in
      let off = rw (e, e2) at h in absurd (omega arith)
]

pub sub64_pos : (a b : ℕ) → b ≤ a → a < 2 ^ 63 → sub64 (pos a) (pos b) ≡ pos (a - b)
unfolding wrap64 ◌-ℤ◌
sub64_pos a b h l = ground arith

pub add64_zero :
    (n m : ℕ)
    → n < 2 ^ 63
    → m < 2 ^ 63
    → add64 (add64 (pos n) (pos m)) (pos 0) ≡ add64 (pos n) (pos m)
add64_zero n m hn hm = elim (Bool-cases (ltb (n + m) (2 ^ 63))) [
  | inl low ↦
      let fit = ltb→lt _ _ low in
      rw (add64_pos n m fit) (add64_pos (n + m) 0 (omega arith) ∙ ap pos (omega arith))
  | inr high ↦
      let big = ltb-false→le _ _ high in
      rw (add64_high n m hn hm big)
        (add64_neg (2 ^ 64 - 1 - (n + m)) 0 (omega arith) (omega arith) ∙ ap negsuc (omega arith))
]

pub pos_part-add64_suc : (k : ℕ) → k < 2 ^ 63 → pos_part (add64 (pos k) (pos 1)) ≤ k + 1
pos_part-add64_suc k small = elim (Bool-cases (ltb (k + 1) (2 ^ 63))) [
  | inl low ↦ rw (add64_pos k 1 (ltb→lt _ _ low)) (omega arith)
  | inr high ↦ rw (add64_high k 1 small (omega arith) (ltb-false→le _ _ high)) (omega arith)
]
