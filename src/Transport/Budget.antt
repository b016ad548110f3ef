-- ===== src/Transport/Budget.antt =====
-- The entropy budget of a session of pkg/core/normalization.go over a burst of sends.
use chameleon_protocol.Base.{
  ℕ, zero, suc, ◌+◌, ◌-◌, ◌^◌, ◌≤◌, ◌<◌, ◌≡◌, ◌⊎◌, ltb, refl, ap, sym, ◌∙◌, arith, true, false,
  Bool-cases, inl, inr, Option, none, some, List, [], ◌∷◌, length, ok, err, Result,
}
use chameleon_protocol.Base.Int.{ℤ, pos, negsuc, ◌-ℤ◌, ltb_ℤ, leb_ℤ}
use chameleon_protocol.Base.Int64.{sub64_pos}
use chameleon_protocol.Base.Bytes.{Bytes}
use mathlib.Core.Path.{subst}
use chameleon_protocol.Session.Epoch.{Sync}
use chameleon_protocol.Session.Lifecycle.{SessionError, advance}
use chameleon_protocol.Transport.{
  Transport, SecurityContext, consume_entropy, Moment, Sent, Shaped, SendError, entropy_exceeded,
}
use chameleon_protocol.Transport.Sending.{
  send, send_period, epoch_id, with_epoch_id, after_session, padding_bytes, burst, burst_on,
  after_framing, after_payment, after_advance, after_shaping, advanced, shaped,
}

-- The security context of a limited session that has `n` bytes of padding left.
abbrev pub limited_to : ℕ → Bytes → SecurityContext
limited_to n id = record { epoch_id = id; entropy_budget = pos n; entropy_limited = true }

consume_entropy-limited :
    (p n : ℕ) (id : Bytes)
    → n < 2 ^ 63
    → ((p ≤ n) × (consume_entropy (pos p) (limited_to n id) ≡ (none, limited_to (n - p) id)))
      ⊎ ((n < p)
          × (consume_entropy (pos p) (limited_to n id) ≡ (some entropy_exceeded, limited_to n id)))
unfolding consume_entropy
consume_entropy-limited zero n id fits =
    inl (omega arith, ap (λ k. (none, limited_to k id)) (omega arith))
consume_entropy-limited (suc p) n id fits =
    let some_padding : leb_ℤ (pos (suc p)) (pos 0) ≡ false = ground arith in
    elim (Bool-cases (ltb_ℤ (pos n) (pos (suc p)))) [
      | inl over ↦ inr (ground arith, rw (some_padding, over) refl)
      | inr under ↦
          let room : suc p ≤ n = ground arith in
          inl (room, rw (some_padding, under, sub64_pos n (suc p) room fits) refl)
    ]

amount :
    (a b : ℕ)
    → (pos a -ℤ pos b ≡ pos (a - b)) ⊎ ((a - b ≡ 0) × (k : ℕ) × (pos a -ℤ pos b ≡ negsuc k))
unfolding ◌-ℤ◌
amount a b = elim (Bool-cases (ltb a b)) [
  | inl short ↦ inr (ground arith, b - a - 1, ground arith)
  | inr long ↦ inl (ground arith)
]

consume_entropy-negsuc :
    (k : ℕ) (sec : SecurityContext) → consume_entropy (negsuc k) sec ≡ (none, sec)
unfolding consume_entropy
consume_entropy-negsuc k sec =
    let no_padding : leb_ℤ (negsuc k) (pos 0) ≡ true = ground arith in rw no_padding refl

-- what an entropy check leaves of a budget of `n`
abbrev Paid : ℕ → ℕ → Bytes → Option SendError × SecurityContext → Type 0
Paid p n id r =
    ((p ≤ n) × (r ≡ (none, limited_to (n - p) id)))
    ⊎ ((n < p) × (r ≡ (some entropy_exceeded, limited_to n id)))

consume_entropy-Paid :
    (a b n : ℕ) (id : Bytes)
    → n < 2 ^ 63
    → Paid (a - b) n id (consume_entropy (pos a -ℤ pos b) (limited_to n id))
consume_entropy-Paid a b n id fits = elim (amount a b) [
  | inl e ↦ rw e (consume_entropy-limited (a - b) n id fits)
  | inr (nothing, k, e) ↦
      let left : n ≡ n - (a - b) = omega arith in
      inl (
        omega arith,
        ap (λ z. consume_entropy z (limited_to n id)) e
            ∙ consume_entropy-negsuc k (limited_to n id)
            ∙ ap (λ m. (none, limited_to m id)) left,
      )
]

-- A call of Send that had `n` bytes of budget: what it left, and that its padding is paid for.
abbrev Spends : ℕ → Sent → Type 0
Spends n s = (m : ℕ) × (id : Bytes) × (s.transport.sec ≡ limited_to m id) × (s.padding + m ≤ n)

module _ (hmac : Bytes → Bytes → Bytes) where
  after_framing-Spends :
      (t : Transport) (m : Moment) (payload : Bytes) (s : Shaped) (slept : ℤ) (n k : ℕ) (id : Bytes)
      (r : Result SendError Bytes)
      → t.sec ≡ limited_to k id
      → length s.normalized - length s.body + k ≤ n
      → Spends n (after_framing hmac t m payload s slept r)
  after_framing-Spends t m payload s slept n k id (ok frame) e le = (k, id, e, le)
  after_framing-Spends t m payload s slept n k id (err fault) e le = (k, id, e, omega arith)

  after_payment-Spends :
      (t : Transport) (m : Moment) (payload : Bytes) (s : Shaped) (slept : ℤ) (n : ℕ) (id : Bytes)
      (r : Option SendError × SecurityContext)
      → t.sec ≡ limited_to n id
      → Paid (length s.normalized - length s.body) n id r
      → Spends n (after_payment hmac t m payload s slept r)
  after_payment-Spends t m payload s slept n id (none, sec) e (inl (le, paid)) =
      after_framing-Spends (record t { sec = sec }) m payload s slept n _ id _ (ap (λ p. p.1) paid)
        (omega arith)
  after_payment-Spends t m payload s slept n id (none, sec) e (inr (over, refused)) =
      let off = ap (λ p. p.0) refused in cc
  after_payment-Spends t m payload s slept n id (some fault, sec) e paid = (n, id, e, omega arith)

  with_epoch_id-limited :
      (ts : ℤ) (y : Option Sync) (n : ℕ) (id : Bytes) (sec : SecurityContext)
      → sec ≡ limited_to n id
      → (i : Bytes) × (with_epoch_id hmac ts y sec ≡ limited_to n i)
  with_epoch_id-limited ts none n id sec e = (id, e)
  with_epoch_id-limited ts (some y) n id sec e = (
    epoch_id hmac ts y,
    ap {A = SecurityContext} {B = SecurityContext} (λ c. record c { epoch_id = epoch_id hmac ts y })
        e,
  )

  after_session-limited :
      (m : Moment) (t : Transport) (e : Option SessionError) (n : ℕ) (id : Bytes)
      → t.sec ≡ limited_to n id
      → (i : Bytes) × ((after_session hmac m t e).1.sec ≡ limited_to n i)
  after_session-limited m t (some e) n id h = (id, h)
  after_session-limited m t none n id h = with_epoch_id-limited m.epoch_time t.syncer n id t.sec h

  after_advance-Spends :
      (m : Moment) (payload : Bytes) (s : Shaped) (n : ℕ) (id : Bytes)
      (r : Option SendError × Transport)
      → n < 2 ^ 63
      → r.1.sec ≡ limited_to n id
      → Spends n (after_advance hmac m payload s r)
  after_advance-Spends m payload s n id (some fault, t) fits e = (n, id, e, omega arith)
  after_advance-Spends m payload s n id (none, t) fits e =
      let a = length s.normalized in
      let b = length s.body in
      after_payment-Spends t m payload s _ n id (consume_entropy (padding_bytes hmac s) t.sec) e (
        subst (λ c. Paid (a - b) n id (consume_entropy (padding_bytes hmac s) c)) (sym e)
          (consume_entropy-Paid a b n id fits))

  after_shaping-Spends :
      (t : Transport) (m : Moment) (payload : Bytes) (r : Result SendError Shaped) (n : ℕ)
      (id : Bytes)
      → n < 2 ^ 63
      → t.sec ≡ limited_to n id
      → Spends n (after_shaping hmac t m payload r)
  unfolding advanced
  after_shaping-Spends t m payload (err fault) n id fits e = (n, id, e, omega arith)
  after_shaping-Spends t m payload (ok s) n id fits e =
      let step = advance m.advance_time s.profile (send_period t.syncer) t.session in
      let (i, e2) = after_session-limited m (record t { session = step.1 }) step.0 n id e in
      after_advance-Spends m payload s n i (advanced hmac m s.profile t) fits e2

  send-Spends :
      (t : Transport) (m : Moment) (payload : Bytes) (n : ℕ) (id : Bytes)
      → n < 2 ^ 63
      → t.sec ≡ limited_to n id
      → Spends n (send hmac t m payload)
  unfolding send
  send-Spends t m payload n id fits e =
      after_shaping-Spends t m payload (shaped hmac t m payload) n id fits e

-- All the padding of a list of sends.
unfoldable pub total_padding : List Sent → ℕ
total_padding [] = 0
total_padding (s ∷ ss) = s.padding + total_padding ss

module _ (hmac : Bytes → Bytes → Bytes) where
  burst_on-bounded :
      (n k : ℕ) (s : Sent) (rest : List Sent) (e : Option SendError)
      → s.padding + k ≤ n
      → total_padding rest ≤ k
      → total_padding (burst_on hmac s rest e) ≤ n
  unfolding total_padding
  burst_on-bounded n k s rest (some e) le h = omega arith
  burst_on-bounded n k s rest none le h = omega arith

  -- In a session with an entropy budget of `n` bytes, the packets of a burst carry `n` bytes of padding
  -- at most, all of them together, whatever the sends meet: the check of the budget is never bypassed.
  pub burst-total_padding :
      (t : Transport) (ms : List Moment) (payload : Bytes) (n : ℕ) (id : Bytes)
      → n < 2 ^ 63
      → t.sec ≡ limited_to n id
      → total_padding (burst hmac t ms payload) ≤ n
  unfolding burst total_padding
  burst-total_padding t [] payload n id fits e = omega arith
  burst-total_padding t (m ∷ ms) payload n id fits e =
      let (k, i, left, le) = send-Spends hmac t m payload n id fits e in
      burst_on-bounded n k (send hmac t m payload) _ (send hmac t m payload).error le
        (burst-total_padding (send hmac t m payload).transport ms payload k i (omega arith) left)
