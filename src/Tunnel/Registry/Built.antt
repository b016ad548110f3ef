-- ===== src/Tunnel/Registry/Built.antt =====
-- What NewClientRegistry guarantees of the registry that it returns.
use mathlib.Core.Path.{subst}
use chameleon_protocol.Base.{
  ◌≡◌, refl, sym, ap, ◌∙◌, Bool, true, false, if◌then◌else◌, Option, none, some, List, [], ◌∷◌,
  length, ok, arith, inl, inr, fail_if-ok, >>-ok, ◌+◌, >>=-ok, ok_injective, ◌⊎◌,
}
use chameleon_protocol.Base.Int.{ℤ}
use chameleon_protocol.Base.Bytes.{Bytes, bytes_eq, bytes_eq_iff}
use chameleon_protocol.Base.Dict.{lookup, insert, lookup-insert, length-insert}
use chameleon_protocol.Net.Text.{trim_space}
use chameleon_protocol.Tunnel.Registry.{
  ClientCredential, Registry, validate_client_id, validate_client_secret, is_some, bad_expiry_text,
  add_credential, add_all, new_client_registry,
}

not_some : (o : Option ClientCredential) → is_some o ≡ false → o ≡ none
not_some none h = refl
not_some (some c) h = cc

found_in_if :
    (b : Bool) (x : ClientCredential) (o : Option ClientCredential) (c : ClientCredential)
    → (if b then some x else o) ≡ some c
    → ((b ≡ true) × (x ≡ c)) ⊎ ((b ≡ false) × (o ≡ some c))
found_in_if true x o c h = inl (refl, cc)
found_in_if false x o c h = inr (refl, h)

module _ (parse_time : Bytes → Option ℤ) where
  -- A credential that may stand in a registry under `key`.
  pub record IsGood (key : Bytes) (c : ClientCredential) : Type 0 where
    pub keyed : c.id ≡ key
    pub id_valid : validate_client_id c.id ≡ ok tt
    pub secret_valid : validate_client_secret c.secret ≡ ok tt
    pub expiry_valid : bad_expiry_text parse_time c.expires_at ≡ false

  abbrev pub AllGood : Registry → Type 0
  AllGood clients =
      (key : Bytes) (c : ClientCredential) → lookup key clients ≡ some c → IsGood key c

  abbrev trimmed : ClientCredential → ClientCredential
  trimmed given = record given { id = trim_space given.id; secret = trim_space given.secret }

  add_credential-ok :
      (given : ClientCredential) (clients more : Registry)
      → add_credential parse_time given clients ≡ ok more
      → IsGood (trim_space given.id) (trimmed given)
        × (lookup (trim_space given.id) clients ≡ none)
        × (more ≡ insert (trim_space given.id) (trimmed given) clients)
  unfolding add_credential
  add_credential-ok given clients more h =
      let c : ClientCredential = trimmed given in
      let (id_ok, h1) = >>-ok (validate_client_id c.id) _ h in
      let (secret_ok, h2) = >>-ok (validate_client_secret c.secret) _ h1 in
      let (expiry_ok, h3) = fail_if-ok (bad_expiry_text parse_time c.expires_at) _ _ h2 in
      let (new, h4) = fail_if-ok (is_some (lookup c.id clients)) _ _ h3 in
      (
        record {
          keyed = refl;
          id_valid = id_ok;
          secret_valid = secret_ok;
          expiry_valid = expiry_ok;
        },
        not_some (lookup c.id clients) new,
        sym (ok_injective h4),
      )

  add_credential-AllGood :
      (given : ClientCredential) (clients more : Registry)
      → AllGood clients
      → add_credential parse_time given clients ≡ ok more
      → AllGood more
  add_credential-AllGood given clients more good h key c found =
      let (fits, new, same) = add_credential-ok given clients more h in
      let id = trim_space given.id in
      let at : (if bytes_eq id key then some (trimmed given) else lookup key clients) ≡ some c =
        sym (lookup-insert id key (trimmed given) clients) ∙ rw (← same) found in
      elim (found_in_if (bytes_eq id key) (trimmed given) (lookup key clients) c at) [
        | inl (eq, here) ↦
            subst (λ (k : Bytes). IsGood k c) ((bytes_eq_iff id key).0 eq)
              (subst (IsGood id) here fits)
        | inr (ne, old) ↦ good key c old
      ]

  add_all-AllGood :
      (cs : List ClientCredential) (clients done : Registry)
      → AllGood clients
      → add_all parse_time cs clients ≡ ok done
      → AllGood done
  unfolding add_all
  add_all-AllGood [] clients done good h = subst AllGood (ok_injective h) good
  add_all-AllGood (c ∷ cs) clients done good h =
      let (more, step, rest) = >>=-ok (add_credential parse_time c clients) _ h in
      add_all-AllGood cs more done (add_credential-AllGood c clients more good step) rest

  -- Every credential of a registry that NewClientRegistry returned stands under its own id; its id
  -- and secret are valid, and its expiry is empty or a time.
  pub new_client_registry-AllGood :
      (credentials : List ClientCredential) (clients : Registry)
      → new_client_registry parse_time credentials ≡ ok clients
      → AllGood clients
  unfolding new_client_registry
  new_client_registry-AllGood credentials clients h =
      add_all-AllGood credentials [] clients (λ key c found. nothing_found key c found) h
    where
      nothing_found : (key : Bytes) (c : ClientCredential) → lookup key [] ≡ some c → IsGood key c
      nothing_found key c found = unfold lookup in cc

  add_credential-length :
      (given : ClientCredential) (clients more : Registry)
      → add_credential parse_time given clients ≡ ok more
      → length more ≡ length clients + 1
  add_credential-length given clients more h =
      let (_, new, same) = add_credential-ok given clients more h in
      ap length same ∙ length-insert (trim_space given.id) (trimmed given) clients new

  add_all-length :
      (cs : List ClientCredential) (clients done : Registry)
      → add_all parse_time cs clients ≡ ok done
      → length done ≡ length clients + length cs
  unfolding add_all
  add_all-length [] clients done h = ap length (sym (ok_injective h)) ∙ omega arith
  add_all-length (c ∷ cs) clients done h =
      let (more, step, rest) = >>=-ok (add_credential parse_time c clients) _ h in
      omega (arith, add_all-length cs more done rest, add_credential-length c clients more step)

  -- No credential is dropped or merged: the registry has as many clients as were given.
  pub new_client_registry-length :
      (credentials : List ClientCredential) (clients : Registry)
      → new_client_registry parse_time credentials ≡ ok clients
      → length clients ≡ length credentials
  unfolding new_client_registry
  new_client_registry-length credentials clients h =
      add_all-length credentials [] clients h ∙ omega arith
