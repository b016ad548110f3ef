-- ===== src/Tunnel/Registry/Resolved.antt =====
-- Resolve answers with exactly the enabled, unexpired credential of an id.
use chameleon_protocol.Base.{◌≡◌, refl, true, false, Option, none, some, [], ◌∷◌, arith, ◌↔◌}
use chameleon_protocol.Base.Int.{ℤ, ◌<ℤ◌}
use chameleon_protocol.Base.Bytes.{Bytes}
use chameleon_protocol.Base.Dict.{lookup}
use chameleon_protocol.Net.Text.{trim_space}
use chameleon_protocol.Tunnel.Registry.{
  ClientCredential, Registry, is_expired, resolve_found, resolve,
}

module _ (parse_time : Bytes → Option ℤ) where
  -- No expiry, or one that parses and is after `now`.
  pub data Unexpired (now : ℤ) (text : Bytes) : Type 0 where
    never : text ≡ [] → Unexpired now text
    until : (expires : ℤ) → parse_time text ≡ some expires → now <ℤ expires → Unexpired now text

  -- What it takes for the id to be served at the time `now` with the credential `c`.
  pub record Serves (clients : Registry) (id : Bytes) (now : ℤ) (c : ClientCredential)
      : Type 0 where
    pub registered : lookup (trim_space id) clients ≡ some c
    pub active : c.enabled ≡ true
    pub unexpired : Unexpired now c.expires_at

  is_expired-Unexpired :
      (text : Bytes) (now : ℤ) → is_expired parse_time text now ≡ false → Unexpired now text
  unfolding is_expired
  is_expired-Unexpired [] now h = never refl
  is_expired-Unexpired (b ∷ text) now h = go (parse_time (b ∷ text)) refl
    where
      go : (o : Option ℤ) → parse_time (b ∷ text) ≡ o → Unexpired now (b ∷ text)
      go none e = let expired = rw (e, is_expired) at h in cc
      go (some t) e = until t e (let before = rw (e, is_expired) at h in ground arith)

  Unexpired-is_expired :
      (text : Bytes) (now : ℤ) → Unexpired now text → is_expired parse_time text now ≡ false
  unfolding is_expired
  Unexpired-is_expired [] now u = refl
  Unexpired-is_expired (b ∷ text) now (never e) = cc
  Unexpired-is_expired (b ∷ text) now (until t e lt) = rw (e, is_expired) (ground arith)

  resolve_found-some :
      (o : Option ClientCredential) (now : ℤ) (c : ClientCredential)
      → resolve_found parse_time o now ≡ some c
      → (o ≡ some c) × (c.enabled ≡ true) × (is_expired parse_time c.expires_at now ≡ false)
  unfolding resolve_found
  resolve_found-some none now c h = cc
  resolve_found-some (some d) now c h = ground arith

  resolve_found-serves :
      (c : ClientCredential) (now : ℤ)
      → c.enabled ≡ true
      → is_expired parse_time c.expires_at now ≡ false
      → resolve_found parse_time (some c) now ≡ some c
  unfolding resolve_found
  resolve_found-serves c now h e = rw (h, e)

  -- Resolve gives a credential exactly if it is the one registered under the trimmed id, it is
  -- enabled, and its expiry is empty or a later time.
  pub resolve_iff :
      (clients : Registry) (id : Bytes) (now : ℤ) (c : ClientCredential)
      → (resolve parse_time clients id now ≡ some c) ↔ Serves clients id now c
  unfolding resolve
  resolve_iff clients id now c = (
    λ h.
        let (found, on, test) = resolve_found-some (lookup (trim_space id) clients) now c h in
        record {
          registered = found;
          active = on;
          unexpired = is_expired-Unexpired c.expires_at now test;
        },
    λ s.
        rw (s.registered)
          (resolve_found-serves c now s.active (Unexpired-is_expired c.expires_at now s.unexpired)),
  )
