-- ===== src/Dpi/First.antt =====
-- pkg/dpi/conn.go: a connection whose first Write goes through a strategy.
use mathlib.Core.List.{append-nil, append_assoc}
use chameleon_protocol.Base.{
  ℕ, ◌≡◌, refl, sym, ap, ◌∙◌, arith, ◌==◌, ◌≤◌, ◌||◌, ◌&&◌, Bool, true, false, Bool-cases, inl, inr,
  if◌then◌else◌, List, [], ◌∷◌, ◌++◌, length, take, take_all, Option, none, some,
}
use chameleon_protocol.Base.Bytes.{Bytes, codes, bytes_eq, is_empty}
use chameleon_protocol.Io.{Answer, wrote, failed, write_failed, Writer}
use chameleon_protocol.Dpi.{Strategy, DpiError, write_error, apply_writer}
use chameleon_protocol.Dpi.Writing.{apply_writer-done}

-- FirstWriteConn: the connection below, the strategy, whether the once has run, and the error kept.
pub record FirstWriteConn : Type 0 where
  pub conn : Writer
  pub strategy : Strategy
  pub applied : Bool
  pub kept_error : Option DpiError

-- What NewFirstWriteConn returns: the connection as it was, or a wrapper around it.
pub data Conn : Type 0 where
  plain : Writer → Conn
  wrapped : FirstWriteConn → Conn

-- NewFirstWriteConn, of a connection that is there.
unfoldable pub new_first_write_conn : Writer → Strategy → Conn
new_first_write_conn conn s =
    if is_empty s.name || bytes_eq s.name (codes "direct")
    then plain conn
    else wrapped (record { conn = conn; strategy = s; applied = false; kept_error = none })

-- The two values of Write.
abbrev pub Count : Type 0
Count = ℕ × Option DpiError

-- One call of Write on the connection below.
abbrev pub write_plain_with : List Answer → Bytes → Bytes → Count × Writer
write_plain_with [] sent p = ((length p, none), record { sent = sent ++ p; answers = [] })
write_plain_with (wrote n ∷ answers) sent p =
    ((n, none), record { sent = sent ++ take n p; answers = answers })
write_plain_with (failed n ∷ answers) sent p =
    ((n, some (write_error write_failed)), record { sent = sent ++ take n p; answers = answers })

abbrev pub write_plain : Writer → Bytes → Count × Writer
write_plain w p = write_plain_with w.answers w.sent p

abbrev pub count_of : Option DpiError → Bytes → Count
count_of none p = (length p, none)
count_of (some e) p = (0, some e)

-- Write of FirstWriteConn.
unfoldable pub first_write : FirstWriteConn → Bytes → Count × FirstWriteConn
first_write c p =
    if c.applied
    then ((write_plain c.conn p).0, record c { conn = (write_plain c.conn p).1 })
    else (
      count_of (apply_writer c.conn p c.strategy).0 p,
      record c {
        conn = (apply_writer c.conn p c.strategy).1;
        applied = true;
        kept_error = (apply_writer c.conn p c.strategy).0;
      },
    )

unfoldable pub write_conn : Conn → Bytes → Count × Conn
write_conn (plain w) p = ((write_plain w p).0, plain (write_plain w p).1)
write_conn (wrapped c) p = ((first_write c p).0, wrapped (first_write c p).1)

abbrev pub sent_of : Conn → Bytes
sent_of (plain w) = w.sent
sent_of (wrapped c) = c.conn.sent

-- The caller saw no error and the full count.
abbrev pub is_full : Bytes → Count → Bool
is_full p (n, none) = n == length p
is_full p (n, some e) = false

-- A caller that writes one payload after the other, and whether every Write was full.
unfoldable pub write_all : Conn → List Bytes → Bool × Conn
write_all c [] = (true, c)
write_all c (p ∷ ps) =
    let (full, last) = write_all (write_conn c p).1 ps in
    (is_full p (write_conn c p).0 && full, last)

abbrev pub joined : List Bytes → Bytes
joined [] = []
joined (p ∷ ps) = p ++ joined ps

both_true : (a b : Bool) → (a && b) ≡ true → (a ≡ true) × (b ≡ true)
both_true true b h = (refl, h)
both_true false b h = cc

counted-length : (n : ℕ) (p : Bytes) → (n == length p) ≡ true → length p ≤ n
counted-length n p h = ground arith

write_plain-full :
    (answers : List Answer) (sent p : Bytes)
    → is_full p (write_plain_with answers sent p).0 ≡ true
    → (write_plain_with answers sent p).1.sent ≡ sent ++ p
write_plain-full [] sent p h = refl
write_plain-full (wrote n ∷ answers) sent p h =
    ap (λ t. sent ++ t) (take_all n p (counted-length n p h))
write_plain-full (failed n ∷ answers) sent p h = cc

apply-full :
    (c : FirstWriteConn) (p : Bytes) (e : Option DpiError)
    → (apply_writer c.conn p c.strategy).0 ≡ e
    → is_full p (count_of e p) ≡ true
    → (apply_writer c.conn p c.strategy).1.sent ≡ c.conn.sent ++ p
apply-full c p none same h = apply_writer-done c.conn p c.strategy same
apply-full c p (some e) same h = cc

first_write-full :
    (c : FirstWriteConn) (p : Bytes)
    → is_full p (first_write c p).0 ≡ true
    → (first_write c p).1.conn.sent ≡ c.conn.sent ++ p
unfolding first_write
first_write-full c p h = elim (Bool-cases c.applied) [
  | inl later ↦ rw later (write_plain-full c.conn.answers c.conn.sent p (rw later at h))
  | inr first ↦ rw first (apply-full c p _ refl (rw first at h))
]

write_conn-full :
    (c : Conn) (p : Bytes)
    → is_full p (write_conn c p).0 ≡ true
    → sent_of (write_conn c p).1 ≡ sent_of c ++ p
unfolding write_conn
write_conn-full (plain w) p h = write_plain-full w.answers w.sent p h
write_conn-full (wrapped c) p h = first_write-full c p h

-- The wrapper is transparent: when every Write of a caller reports the full count and no error, the
-- other end receives the payloads whole and in order, behind what was there, whether or not the
-- first of them went out in fragments.
pub write_all-sent :
    (c : Conn) (ps : List Bytes)
    → (write_all c ps).0 ≡ true
    → sent_of (write_all c ps).1 ≡ sent_of c ++ joined ps
unfolding write_all
write_all-sent c [] h = sym (append-nil (sent_of c))
write_all-sent c (p ∷ ps) h =
    let (full, others) = both_true (is_full p (write_conn c p).0) _ h in
    write_all-sent (write_conn c p).1 ps others
    ∙ ap (λ t. t ++ joined ps) (write_conn-full c p full)
    ∙ append_assoc (sent_of c) p (joined ps)
