-- ===== src/Session/Rekey.antt =====
-- pkg/state/rekey.go: when a session needs new keys. The clock is an argument of each call.
use chameleon_protocol.Base.{
  ℕ, ◌+◌, ◌^◌, ◌≡◌, ◌↔◌, ◌⊎◌, ◌≤◌, ◌<◌, refl, ap, ◌∙◌, Bool, true, ◌&&◌, ◌||◌, if◌then◌else◌, List,
  [], ◌∷◌, arith,
}
use chameleon_protocol.Base.Int.{
  ℤ, pos, ◌+ℤ◌, ◌≤ℤ◌, leb_ℤ, ltb_ℤ, wrap64, wrap64_exact, int_laws, eq_of_parts,
}
use chameleon_protocol.Tunnel.Replay.{sub_time}

-- FailCount and MaxBytes of 0 or below switch their tests off.
pub record RekeyPolicy : Type 0 where
  pub period : ℤ
  pub max_bytes : ℤ
  pub fail_count : ℤ

pub record RekeyState : Type 0 where
  pub policy : RekeyPolicy
  pub last_rekey : ℤ
  pub bytes_sent : ℤ
  pub consecutive_err : ℤ

unfoldable pub new_rekey_state : RekeyPolicy → ℤ → RekeyState
new_rekey_state policy now = record {
  policy =
      if leb_ℤ policy.period (pos 0) then record policy { period = pos 60000000000 } else policy;
  last_rekey = now;
  bytes_sent = pos 0;
  consecutive_err = pos 0;
}

unfoldable pub record_send : ℤ → ℤ → RekeyState → Bool × RekeyState
record_send bytes now r =
    let sent = wrap64 (r.bytes_sent +ℤ bytes) in
    (
      (ltb_ℤ (pos 0) r.policy.max_bytes && leb_ℤ r.policy.max_bytes sent)
          || leb_ℤ r.policy.period (sub_time now r.last_rekey),
      record r { bytes_sent = sent },
    )

unfoldable pub record_failure : RekeyState → Bool × RekeyState
record_failure r =
    let errors = wrap64 (r.consecutive_err +ℤ pos 1) in
    (
      ltb_ℤ (pos 0) r.policy.fail_count && leb_ℤ r.policy.fail_count errors,
      record r { consecutive_err = errors },
    )

unfoldable pub reset : ℤ → RekeyState → RekeyState
reset now r = record r { last_rekey = now; bytes_sent = pos 0; consecutive_err = pos 0 }

-- NextRekeyTime
unfoldable pub next_rekey_time : RekeyState → ℤ
next_rekey_time r = r.last_rekey +ℤ r.policy.period

-- Several sends, each with its size and its time.
unfoldable pub record_sends : List (ℕ × ℤ) → RekeyState → RekeyState
record_sends [] r = r
record_sends ((n, now) ∷ xs) r = record_sends xs (record_send (pos n) now r).1

unfoldable pub total : List (ℕ × ℤ) → ℕ
total [] = 0
total ((n, now) ∷ xs) = n + total xs

pos_sum : (k n : ℕ) → k + n < 2 ^ 63 → wrap64 (pos k +ℤ pos n) ≡ pos (k + n)
pos_sum k n h =
    wrap64_exact (pos k +ℤ pos n) (omega int_laws)
    ∙ eq_of_parts (pos k +ℤ pos n) (pos (k + n)) (omega int_laws)

record_sends-counts :
    (xs : List (ℕ × ℤ)) (k : ℕ) (r : RekeyState)
    → r.bytes_sent ≡ pos k
    → k + total xs < 2 ^ 63
    → ((record_sends xs r).bytes_sent ≡ pos (k + total xs))
      × ((record_sends xs r).policy ≡ r.policy)
      × ((record_sends xs r).last_rekey ≡ r.last_rekey)
unfolding record_sends total record_send
record_sends-counts [] k r h fits = (rw h (ap pos (omega arith)), refl, refl)
record_sends-counts ((n, now) ∷ xs) k r h fits =
    let exact : wrap64 (r.bytes_sent +ℤ pos n) ≡ pos (k + n) = rw h (pos_sum k n (omega arith)) in
    let (sent, policy, last) =
      record_sends-counts xs (k + n) (record r { bytes_sent = wrap64 (r.bytes_sent +ℤ pos n) })
        exact (omega arith) in
    (sent ∙ ap pos (omega arith), policy, last)

due_iff :
    (limit sent : ℕ) (period elapsed : ℤ)
    → 0 < limit
    → (((ltb_ℤ (pos 0) (pos limit) && leb_ℤ (pos limit) (pos sent)) || leb_ℤ period elapsed) ≡ true)
      ↔ ((limit ≤ sent) ⊎ (period ≤ℤ elapsed))
due_iff limit sent period elapsed on = (λ h. ground arith, λ h. ground arith)

-- After a rekey the bytes of all sends count: with a byte limit the next send asks for new keys
-- exactly when the bytes since the rekey, its own included, reach the limit, or when the period
-- is over. The bytes stay below 2^63.
pub record_send-due :
    (xs : List (ℕ × ℤ)) (n limit : ℕ) (now at : ℤ) (r : RekeyState)
    → r.policy.max_bytes ≡ pos limit
    → 0 < limit
    → total xs + n < 2 ^ 63
    → ((record_send (pos n) now (record_sends xs (reset at r))).0 ≡ true)
      ↔ ((limit ≤ total xs + n) ⊎ (r.policy.period ≤ℤ sub_time now at))
unfolding record_send reset
record_send-due xs n limit now at r lim on fits =
    let (sent, policy, last) = record_sends-counts xs 0 (reset at r) refl (omega arith) in
    let count : (record_sends xs (reset at r)).bytes_sent ≡ pos (total xs) =
      sent ∙ ap pos (omega arith) in
    rw (count, policy, last, lim, pos_sum (total xs) n fits)
      (due_iff limit (total xs + n) r.policy.period (sub_time now at) on)
