-- ===== src/Net/HostPort.antt =====
-- net.SplitHostPort and net.JoinHostPort.
use chameleon_protocol.Base.{
  ℕ, suc, ◌+◌, Bool, false, not, ◌||◌, ◌==◌, if◌then◌else◌, Option, none, some, [], ◌∷◌, ◌++◌,
  length, take, drop, Result, ok, ◌>>=◌, ◌>>◌, fail_if, from_option, get_or,
}
use chameleon_protocol.Base.Bytes.{Bytes}

pub data AddrError : Type 0 where
  missing_port too_many_colons missing_bracket unexpected_left unexpected_right : AddrError

-- The first index of a byte.
unfoldable pub index_of : ℕ → Bytes → Option ℕ
index_of c [] = none
index_of c (x ∷ s) =
    let rest = index_of c s in
    if x == c then some 0 else elim rest [ none ↦ none | some i ↦ some (suc i) ]

-- The last index of a byte.
unfoldable pub last_index_of : ℕ → Bytes → Option ℕ
last_index_of c [] = none
last_index_of c (x ∷ s) =
    let rest = last_index_of c s in
    elim rest [ some i ↦ some (suc i) | none ↦ if x == c then some 0 else none ]

unfoldable pub contains : ℕ → Bytes → Bool
contains c [] = false
contains c (x ∷ s) = x == c || contains c s

abbrev pub starts_with_bracket : Bytes → Bool
starts_with_bracket [] = false
starts_with_bracket (c ∷ s) = c == b'['

-- `host` is within brackets, whose right one stands at `end`; the last colon stands at `i`.
split_bracketed : Bytes → ℕ → ℕ → Result AddrError (Bytes × Bytes)
unfolding contains
split_bracketed s i end = do
  fail_if (end + 1 == length s) missing_port
  fail_if (not (end + 1 == i))
      (if get_or s (end + 1) 0 == b':' then too_many_colons else missing_port)
  fail_if (contains b'[' (drop 1 s)) unexpected_left
  fail_if (contains b']' (drop (end + 1) s)) unexpected_right
  ok (drop 1 (take end s), drop (i + 1) s)

split_plain : Bytes → ℕ → Result AddrError (Bytes × Bytes)
unfolding contains
split_plain s i = do
  fail_if (contains b':' (take i s)) too_many_colons
  fail_if (contains b'[' s) unexpected_left
  fail_if (contains b']' s) unexpected_right
  ok (take i s, drop (i + 1) s)

unfoldable pub split_host_port : Bytes → Result AddrError (Bytes × Bytes)
unfolding index_of last_index_of split_bracketed split_plain
split_host_port s = do
  i ← from_option (last_index_of b':' s) missing_port
  if starts_with_bracket s
      then (do end ← from_option (index_of b']' s) missing_bracket; split_bracketed s i end)
      else split_plain s i

unfoldable pub join_host_port : Bytes → Bytes → Bytes
unfolding contains
join_host_port host port =
    if contains b':' host then b'[' ∷ (host ++ (b']' ∷ b':' ∷ port)) else host ++ (b':' ∷ port)
