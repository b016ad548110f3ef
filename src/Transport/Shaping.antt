-- ===== src/Transport/Shaping.antt =====
-- What a Normalizer of pkg/core/normalization.go does to a packet.
use mathlib.Core.Path.{subst}
use chameleon_protocol.Base.{
  ℕ, ◌-◌, ◌^◌, ◌<◌, ◌≡◌, ap, sym, arith, ◌++◌, length, ok, >>=-ok, fail_if-ok, ok_injective,
}
use chameleon_protocol.Base.Int.{ℤ, pos, ◌≤ℤ◌, ◌+ℤ◌, IsInt64, ltb_ℤ, ltb_ℤ-false→le}
use chameleon_protocol.Base.Bytes.{Bytes}
use chameleon_protocol.Morph.{
  Random, RandomLaws, PaddingConfig, target_size, normalize, next_delay, target_too_small,
}
use chameleon_protocol.Morph.Bounds.{target_size-window, next_delay-window, normalize-padded}
use chameleon_protocol.Transport.{Normalizer, normalize_packet}

-- The padding of a packet: what the payload became, and that its length keeps to the configuration.
pub record IsPadded (c : PaddingConfig) (payload out : Bytes) : Type 0 where
  pub pad : Bytes
  pub appended : out ≡ payload ++ pad
  pub at_least : c.min_pad ≤ℤ pos (length pad)
  pub at_most : pos (length pad) ≤ℤ c.max_pad
  pub affordable : pos 1 ≤ℤ c.entropy_budget → pos (length pad) ≤ℤ c.entropy_budget

normalize-target :
    (c : PaddingConfig) (read : ℕ → _) (payload : Bytes) (t : ℤ) (out : Bytes)
    → normalize c read payload t ≡ ok out
    → pos (length payload) ≤ℤ t
unfolding normalize
normalize-target c read payload t out h =
    let (fits, _) = fail_if-ok (ltb_ℤ t (pos (length payload))) target_too_small _ h in
    ltb_ℤ-false→le t (pos (length payload)) fits

normalize-IsPadded :
    (c : PaddingConfig) (r : Random) (payload out : Bytes) (t : ℤ)
    → RandomLaws r
    → IsInt64 c.max_pad
    → length payload < 2 ^ 63
    → target_size c r.size_below (pos (length payload)) ≡ ok t
    → normalize c r.padding_of payload t ≡ ok out
    → IsPadded c payload out
normalize-IsPadded c r payload out t laws fits small sized done =
    let room = normalize-target c r.padding_of payload t out done in
    let (p, et, low, high) =
      target_size-window c r.size_below (length payload) t laws.size_fits fits small
        (omega (arith, room)) sized in
    let (pad, eo, ep, budget) =
      normalize-padded c r.padding_of payload p out laws.padding_fits
        (subst (λ z. normalize c r.padding_of payload z ≡ ok out) et done) in
    record {
      pad = pad;
      appended = eo;
      at_least = subst (λ n. c.min_pad ≤ℤ pos n) (sym ep) low;
      at_most = subst (λ n. pos n ≤ℤ c.max_pad) (sym ep) high;
      affordable = λ limited. subst (λ n. pos n ≤ℤ c.entropy_budget) (sym ep) (budget limited);
    }

pub normalize_packet-pad :
    (n : Normalizer) (r : Random) (payload out : Bytes) (delay : ℤ)
    → RandomLaws r
    → IsInt64 n.padding.max_pad
    → length payload < 2 ^ 63
    → normalize_packet n r payload ≡ ok (out, delay)
    → IsPadded n.padding payload out
unfolding normalize_packet
normalize_packet-pad n r payload out delay laws fits small h =
    let (t, sized, h1) = >>=-ok (target_size n.padding r.size_below (pos (length payload))) _ h in
    let (body, done, h2) = >>=-ok (normalize n.padding r.padding_of payload t) _ h1 in
    let (d, drawn, e) = >>=-ok (next_delay n.jitter r.delay_below) _ h2 in
    subst (IsPadded n.padding payload) (ap (λ p. p.0) (ok_injective e))
      (normalize-IsPadded n.padding r payload body t laws fits small sized done)

-- A packet that NormalizePacket returns is the payload, unchanged, and padding behind it, whose
-- length lies between the ends of the padding window and within a configured budget; the delay
-- lies in the jitter window. (rand.Int keeps to its bound, rand.Read fills the slice, the greatest
-- delay fits a Duration.)
pub normalize_packet-IsPadded :
    (n : Normalizer) (r : Random) (payload out : Bytes) (delay : ℤ)
    → RandomLaws r
    → IsInt64 n.padding.max_pad
    → length payload < 2 ^ 63
    → n.jitter.base_delay +ℤ n.jitter.max_jitter ≤ℤ pos (2 ^ 63 - 1)
    → normalize_packet n r payload ≡ ok (out, delay)
    → IsPadded n.padding payload out
      × (n.jitter.base_delay +ℤ n.jitter.min_jitter ≤ℤ delay)
      × (delay ≤ℤ n.jitter.base_delay +ℤ n.jitter.max_jitter)
unfolding normalize_packet
normalize_packet-IsPadded n r payload out delay laws fits small room h =
    let (t, sized, h1) = >>=-ok (target_size n.padding r.size_below (pos (length payload))) _ h in
    let (body, done, h2) = >>=-ok (normalize n.padding r.padding_of payload t) _ h1 in
    let (d, drawn, e) = >>=-ok (next_delay n.jitter r.delay_below) _ h2 in
    let same = ok_injective e in
    let (low, high) = next_delay-window n.jitter r.delay_below d laws.delay_fits room drawn in
    (
      normalize_packet-pad n r payload out delay laws fits small h,
      subst (λ z. n.jitter.base_delay +ℤ n.jitter.min_jitter ≤ℤ z) (ap (λ p. p.1) same) low,
      subst (λ z. z ≤ℤ n.jitter.base_delay +ℤ n.jitter.max_jitter) (ap (λ p. p.1) same) high,
    )
