-- ===== src/Tunnel/Registry.antt =====
-- pkg/tunnel/auth.go: client credentials and the registry of Auth v2 clients. time.Parse is a
-- parameter: it reads an RFC 3339 text as a time, or refuses it.
pub mod Built
pub mod Resolved
use chameleon_protocol.Base.{
  ℕ, ◌<◌, Bool, true, false, not, ◌&&◌, ◌||◌, ◌==◌, ltb, leb, if◌then◌else◌, Option, none, some,
  List, [], ◌∷◌, length, Result, ok, err, ◌>>=◌, ◌>>◌, fail_if,
}
use chameleon_protocol.Base.Int.{ℤ, pos, negsuc, ltb_ℤ}
use chameleon_protocol.Base.Bytes.{Bytes, is_empty}
use chameleon_protocol.Base.Dict.{Dict, lookup, insert}
use chameleon_protocol.Net.Text.{trim_space}

pub data AuthError : Type 0 where
  bad_client_id bad_client_secret bad_expiry duplicate_id no_credentials bad_schema : AuthError

pub record ClientAuth : Type 0 where
  pub psk : Bytes
  pub client_id : Bytes
  pub client_secret : Bytes

pub record ClientCredential : Type 0 where
  pub id : Bytes
  pub name : Bytes
  pub secret : Bytes
  pub enabled : Bool
  pub expires_at : Bytes

abbrev pub Registry : Type 0
Registry = Dict ClientCredential

-- Letters, digits, '-', '_' and '.'. (A rune outside ASCII has bytes from 0x80 on only.)
unfoldable pub is_id_byte : ℕ → Bool
is_id_byte c =
    (leb b'a' c && leb c b'z')
    || (leb b'A' c && leb c b'Z')
    || (leb b'0' c && leb c b'9')
    || c == b'-'
    || c == b'_'
    || c == b'.'

unfoldable pub all_id_bytes : Bytes → Bool
all_id_bytes [] = true
all_id_bytes (c ∷ s) = is_id_byte c && all_id_bytes s

-- `len(s) < lo || len(s) > hi`
abbrev pub outside : ℕ → ℕ → Bytes → Bool
outside lo hi s = ltb (length s) lo || ltb hi (length s)

unfoldable pub validate_client_id : Bytes → Result AuthError (Unit {0})
validate_client_id text = do
  let id = trim_space text
  fail_if (outside 8 128 id) bad_client_id
  fail_if (not (all_id_bytes id)) bad_client_id
  ok tt

unfoldable pub validate_client_secret : Bytes → Result AuthError (Unit {0})
validate_client_secret text = do fail_if (outside 24 256 (trim_space text)) bad_client_secret; ok tt

unfoldable pub uses_v2 : ClientAuth → Bool
uses_v2 a = not (is_empty (trim_space a.client_id)) || not (is_empty (trim_space a.client_secret))

unfoldable pub validate_auth : ClientAuth → Result AuthError (Unit {0})
unfolding uses_v2
validate_auth a =
    if uses_v2 a
    then (do validate_client_id a.client_id; validate_client_secret a.client_secret; ok tt)
    else (do fail_if (is_empty (trim_space a.psk)) no_credentials; ok tt)

abbrev pub is_some {ℓ} : {A : Type ℓ} → Option A → Bool
is_some none = false
is_some (some x) = true

-- `file.Schema == 1`
abbrev pub is_one : ℤ → Bool
is_one (pos n) = n == 1
is_one (negsuc n) = false

module _ (parse_time : Bytes → Option ℤ) where
  -- `credential.ExpiresAt != ""` and it does not parse
  abbrev pub bad_expiry_text : Bytes → Bool
  bad_expiry_text text = not (is_empty text) && not (is_some (parse_time text))

  -- One round of the loop of NewClientRegistry.
  unfoldable pub add_credential : ClientCredential → Registry → Result AuthError Registry
  add_credential given clients = do
    let c : ClientCredential = record given {
      id = trim_space given.id;
      secret = trim_space given.secret;
    }
    validate_client_id c.id
    validate_client_secret c.secret
    fail_if (bad_expiry_text c.expires_at) bad_expiry
    fail_if (is_some (lookup c.id clients)) duplicate_id
    ok (insert c.id c clients)

  unfoldable pub add_all : List ClientCredential → Registry → Result AuthError Registry
  add_all [] clients = ok clients
  add_all (c ∷ cs) clients = add_credential c clients >>= λ more. add_all cs more

  unfoldable pub new_client_registry : List ClientCredential → Result AuthError Registry
  new_client_registry credentials = add_all credentials []

  -- The part of LoadClientRegistry behind the file and its JSON.
  unfoldable pub load_client_registry : ℤ → List ClientCredential → Result AuthError Registry
  load_client_registry schema clients = do
    fail_if (not (is_one schema)) bad_schema
    new_client_registry clients

  -- `credential.ExpiresAt != ""` and (it does not parse, or now is not before it)
  unfoldable pub is_expired : Bytes → ℤ → Bool
  is_expired [] now = false
  is_expired (c ∷ text) now = elim (parse_time (c ∷ text)) [
    | none ↦ true
    | some expires ↦ not (ltb_ℤ now expires)
  ]

  resolve_found : Option ClientCredential → ℤ → Option ClientCredential
  unfolding is_expired
  resolve_found none now = none
  resolve_found (some c) now =
      if not c.enabled then none else if is_expired c.expires_at now then none else some c

  -- Resolve; `none` stands for the false answer.
  unfoldable pub resolve : Registry → Bytes → ℤ → Option ClientCredential
  unfolding resolve_found
  resolve clients id now = resolve_found (lookup (trim_space id) clients) now
