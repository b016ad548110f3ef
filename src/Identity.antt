-- ===== src/Identity.antt =====
-- pkg/identity/store.go: the registry that pins the first key seen of a peer. Whether the file could
-- be written is an argument of each call that saves.
use chameleon_protocol.Base.{
  ◌||◌, ◌≡◌, refl, sym, ap, ◌∙◌, Bool, true, false, if◌then◌else◌, List, [], ◌∷◌, Option, none,
  some, Result, ok, err, arith, Bool-cases, inl, inr, All,
}
use chameleon_protocol.Base.Bytes.{Bytes, bytes_eq, bytes_eq_refl, bytes_eq→eq, is_empty}
use chameleon_protocol.Base.Dict.{Dict, lookup, insert, remove, lookup-insert, lookup-remove}

pub data StoreError : Type 0 where
  empty_argument key_mismatch save_failed : StoreError

-- IdMap
abbrev pub Store : Type 0
Store = Dict Bytes

-- saveLocked
abbrev pub save : Bool → Option StoreError
save true = none
save false = some save_failed

-- Register
unfoldable pub register : Bytes → Bytes → Bool → Store → Option StoreError × Store
register id key saves s =
    if is_empty id || is_empty key then (some empty_argument, s) else (save saves, insert id key s)

-- What RegisterOrVerify does with the key it finds.
unfoldable pub verify : Option Bytes → Bytes → Bytes → Bool → Store → Result StoreError Bool × Store
verify (some existing) id key saves s =
    ((if bytes_eq existing key then ok false else err key_mismatch), s)
verify none id key true s = (ok true, insert id key s)
verify none id key false s = (err save_failed, remove id (insert id key s))

-- RegisterOrVerify
unfoldable pub register_or_verify : Bytes → Bytes → Bool → Store → Result StoreError Bool × Store
register_or_verify id key saves s =
    if is_empty id || is_empty key
    then (err empty_argument, s)
    else verify (lookup id s) id key saves s

-- The arguments of a call, and whether its save succeeds.
pub record Meeting : Type 0 where
  pub id : Bytes
  pub key : Bytes
  pub saves : Bool

-- A call of the store that changes it, and a sequence of them.
pub data StoreCall : Type 0 where
  meet put : Meeting → StoreCall

abbrev pub call_store : StoreCall → Store → Store
call_store (meet m) s = (register_or_verify m.id m.key m.saves s).1
call_store (put m) s = (register m.id m.key m.saves s).1

unfoldable pub call_all : List StoreCall → Store → Store
call_all [] s = s
call_all (c ∷ cs) s = call_all cs (call_store c s)

-- A call of Register is for another id; one of RegisterOrVerify may be for any.
abbrev pub Spares : Bytes → StoreCall → Type 0
Spares id (meet m) = Unit
Spares id (put m) = bytes_eq m.id id ≡ false

verify-keeps :
    (o : Option Bytes) (j id key k : Bytes) (saves : Bool) (s : Store)
    → lookup id s ≡ o
    → lookup j s ≡ some k
    → lookup j (verify o id key saves s).1 ≡ some k
unfolding verify
verify-keeps (some existing) j id key k saves s found h = h
verify-keeps none j id key k true s found h = elim (Bool-cases (bytes_eq id j)) [
  | inl same ↦ absurd (let e = bytes_eq→eq id j same in cc)
  | inr other ↦ rw (lookup-insert id j key s, other) h
]
verify-keeps none j id key k false s found h = elim (Bool-cases (bytes_eq id j)) [
  | inl same ↦ absurd (let e = bytes_eq→eq id j same in cc)
  | inr other ↦ rw (lookup-remove id j (insert id key s), other, lookup-insert id j key s, other) h
]

pub meet-keeps :
    (m : Meeting) (j k : Bytes) (s : Store)
    → lookup j s ≡ some k
    → lookup j (register_or_verify m.id m.key m.saves s).1 ≡ some k
unfolding register_or_verify
meet-keeps m j k s h = elim (Bool-cases (is_empty m.id || is_empty m.key)) [
  | inl empty ↦ rw empty h
  | inr full ↦ rw full (verify-keeps (lookup m.id s) j m.id m.key k m.saves s refl h)
]

register-keeps :
    (m : Meeting) (j : Bytes) (s : Store)
    → bytes_eq m.id j ≡ false
    → lookup j (register m.id m.key m.saves s).1 ≡ lookup j s
unfolding register
register-keeps m j s other = elim (Bool-cases (is_empty m.id || is_empty m.key)) [
  | inl empty ↦ rw empty refl
  | inr full ↦ rw (full, lookup-insert m.id j m.key s, other) refl
]

call_store-keeps :
    (c : StoreCall) (j k : Bytes) (s : Store)
    → Spares j c
    → lookup j s ≡ some k
    → lookup j (call_store c s) ≡ some k
call_store-keeps (meet m) j k s spares h = meet-keeps m j k s h
call_store-keeps (put m) j k s spares h = register-keeps m j s spares ∙ h

call_all-keeps :
    (cs : List StoreCall) (j k : Bytes) (s : Store)
    → All (Spares j) cs
    → lookup j s ≡ some k
    → lookup j (call_all cs s) ≡ some k
unfolding call_all
call_all-keeps [] j k s spares h = h
call_all-keeps (c ∷ cs) j k s (spare, spares) h =
    call_all-keeps cs j k _ spares (call_store-keeps c j k s spare h)

verify-pins :
    (o : Option Bytes) (id key : Bytes) (saves : Bool) (s : Store) (new : Bool)
    → lookup id s ≡ o
    → (verify o id key saves s).0 ≡ ok new
    → lookup id (verify o id key saves s).1 ≡ some key
unfolding verify
verify-pins (some existing) id key saves s new found h =
    let same : bytes_eq existing key ≡ true = ground arith in
    found ∙ ap some (bytes_eq→eq existing key same)
verify-pins none id key true s new found h = rw (lookup-insert id id key s, bytes_eq_refl id) refl
verify-pins none id key false s new found h = cc

pub accepted-pins :
    (id key : Bytes) (saves new : Bool) (s : Store)
    → (register_or_verify id key saves s).0 ≡ ok new
    → lookup id (register_or_verify id key saves s).1 ≡ some key
unfolding register_or_verify
accepted-pins id key saves new s h = elim (Bool-cases (is_empty id || is_empty key)) [
  | inl empty ↦ let e = rw empty at h in cc
  | inr full ↦ rw full (verify-pins (lookup id s) id key saves s new refl (rw full at h))
]

known :
    (id key key' : Bytes) (saves' : Bool) (s : Store)
    → is_empty id ≡ false
    → is_empty key' ≡ false
    → lookup id s ≡ some key
    → (register_or_verify id key' saves' s).0
      ≡ (if bytes_eq key key' then ok false else err key_mismatch)
unfolding register_or_verify verify
known id key key' saves' s named full found = rw (named, full, found) refl

-- Trust on first use: once a key was accepted for an id, a later call of RegisterOrVerify for that id
-- accepts exactly this key again, as one that is known, and reports every other key that is not empty
-- as a mismatch, whatever calls of RegisterOrVerify for any id and of Register for other ids came in
-- between, and whether or not their saves failed.
pub register_or_verify-pinned :
    (id key key' : Bytes) (saves saves' new : Bool) (cs : List StoreCall) (s : Store)
    → is_empty id ≡ false
    → is_empty key' ≡ false
    → All (Spares id) cs
    → (register_or_verify id key saves s).0 ≡ ok new
    → (register_or_verify id key' saves' (call_all cs (register_or_verify id key saves s).1)).0
      ≡ (if bytes_eq key key' then ok false else err key_mismatch)
register_or_verify-pinned id key key' saves saves' new cs s named full spares h =
    known id key key' saves' _ named full
      (call_all-keeps cs id key _ spares (accepted-pins id key saves new s h))

unsaved-lookup :
    (o : Option Bytes) (id key j : Bytes) (s : Store)
    → lookup id s ≡ o
    → (verify o id key false s).0 ≡ err save_failed
    → lookup j (verify o id key false s).1 ≡ lookup j s
unfolding verify
unsaved-lookup (some existing) id key j s found h = refl
unsaved-lookup none id key j s found h = elim (Bool-cases (bytes_eq id j)) [
  | inl same ↦
      rw (lookup-remove id j (insert id key s), same) (sym (rw (bytes_eq→eq id j same) at found))
  | inr other ↦
      rw (lookup-remove id j (insert id key s), other, lookup-insert id j key s, other) refl
]

-- A first key that could not be saved is not kept: after the failed call the id is as unknown as
-- before, and all other ids have the key they had.
pub register_or_verify-unsaved :
    (id key j : Bytes) (s : Store)
    → (register_or_verify id key false s).0 ≡ err save_failed
    → lookup j (register_or_verify id key false s).1 ≡ lookup j s
unfolding register_or_verify
register_or_verify-unsaved id key j s h = elim (Bool-cases (is_empty id || is_empty key)) [
  | inl empty ↦ rw empty refl
  | inr full ↦ rw full (unsaved-lookup (lookup id s) id key j s refl (rw full at h))
]
