-- ===== src/Carrier/Memory.antt =====
-- What Observe of pkg/carrier/engine.go changes, and what it leaves.
use chameleon_protocol.Base.{
  ap, ℕ, suc, ◌+◌, ◌%◌, ◌^◌, ◌<◌, ◌≡◌, refl, ◌∙◌, arith, Bool, true, false, not, ◌&&◌,
  if◌then◌else◌, List, [], ◌∷◌, Option, some, Bool-cases, inl, inr, length,
}
use chameleon_protocol.Base.Int.{ℤ}
use chameleon_protocol.Base.Bytes.{Bytes, bytes_eq, is_empty, bytes_eq→eq}
use chameleon_protocol.Base.Dict.{Dict, lookup, insert, lookup-insert}
use chameleon_protocol.Net.Text.{trim_space}
use chameleon_protocol.Carrier.{
  Floats, Context, Observation, Stats, Entries, counted, averaged, or_zero, or_now, or_empty,
  stats_of, context_key, observe,
}

module _ (F : Floats) (lower : Bytes → Bytes) where
  -- the context has the key of the observation's
  abbrev same_context : Observation F → Context → Bool
  same_context o c = bytes_eq (context_key F lower o.context) (context_key F lower c)

  or_empty-lookup :
      (k j : Bytes) (m : Dict (Stats F)) (entries : Entries F)
      → or_empty F (lookup j (insert k m entries))
        ≡ (if bytes_eq k j then m else or_empty F (lookup j entries))
  or_empty-lookup k j m entries =
      rw (lookup-insert k j m entries)
        (elim (Bool-cases (bytes_eq k j)) [ inl same ↦ rw same refl | inr other ↦ rw other refl ])

  lookup_updated :
      (k j : Bytes) (f : Option (Stats F) → Stats F) (m : Dict (Stats F))
      → lookup j (insert k (f (lookup k m)) m)
        ≡ (if bytes_eq k j then some (f (lookup j m)) else lookup j m)
  lookup_updated k j f m =
      rw (lookup-insert k j (f (lookup k m)) m) (elim (Bool-cases (bytes_eq k j)) [
        | inl same ↦ rw (same, bytes_eq→eq k j same) refl
        | inr other ↦ rw other refl
      ])

  -- the entry of the carrier in the context of the observation, and any other entry
  observe-stats_of :
      (o : Observation F) (now : ℤ) (saves : Bool) (entries : Entries F) (c : Context)
      (carrier : Bytes)
      → is_empty (trim_space o.carrier) ≡ false
      → stats_of F lower c carrier (observe F lower o now saves entries).1 ≡ (
          if same_context o c && bytes_eq o.carrier carrier
          then some (
              averaged F o.latency o.throughput (
                counted F o.success
                  (or_now F now o.at)
                  (or_zero F (stats_of F lower c carrier entries))))
          else stats_of F lower c carrier entries)
  unfolding observe
  observe-stats_of o now saves entries c carrier named = elim (Bool-cases (same_context o c)) [
    | inr other ↦
        rw
          (
            named,
            or_empty-lookup (context_key F lower o.context) (context_key F lower c) _ entries,
            other,
          )
          refl
    | inl same ↦
        let key = bytes_eq→eq (context_key F lower o.context) (context_key F lower c) same in
        rw
          (
            named,
            or_empty-lookup (context_key F lower o.context) (context_key F lower c) _ entries,
            same,
            key,
          )
          (lookup_updated o.carrier carrier
            (λ before.
              averaged F o.latency o.throughput
                (counted F o.success (or_now F now o.at) (or_zero F before)))
            (or_empty F (lookup (context_key F lower c) entries)))
  ]

  -- One observation with the time of its arrival and whether the store could be written.
  abbrev pub Step : Type 0
  Step = Observation F × ℤ × Bool

  unfoldable pub observe_all : List Step → Entries F → Entries F
  observe_all [] entries = entries
  observe_all ((o, now, saves) ∷ steps) entries =
      observe_all steps (observe F lower o now saves entries).1

  -- Whether an observation is one of a carrier in a context, with the wanted success.
  abbrev pub is_of : Context → Bytes → Observation F → Bool
  is_of c carrier o =
      not (is_empty (trim_space o.carrier)) && (same_context o c && bytes_eq o.carrier carrier)

  -- How many observations of a carrier in a context there are, and how many of these succeeded.
  unfoldable pub tries : Context → Bytes → List Step → ℕ
  tries c carrier [] = 0
  tries c carrier ((o, now, saves) ∷ steps) =
      (if is_of c carrier o then 1 else 0) + tries c carrier steps

  unfoldable pub wins : Context → Bytes → List Step → ℕ
  wins c carrier [] = 0
  wins c carrier ((o, now, saves) ∷ steps) =
      (if is_of c carrier o && o.success then 1 else 0) + wins c carrier steps

  -- The entry of a carrier in a context, zero where there is none.
  abbrev pub entry : Context → Bytes → Entries F → Stats F
  entry c carrier entries = or_zero F (stats_of F lower c carrier entries)

  averaged-counts :
      (latency : ℤ) (throughput : F.float) (s : Stats F)
      → ((averaged F latency throughput s).attempts ≡ s.attempts)
        × ((averaged F latency throughput s).successes ≡ s.successes)
  unfolding averaged
  averaged-counts latency throughput s = ground arith

  counted-counts :
      (success : Bool) (at : Option ℤ) (s : Stats F)
      → ((counted F success at s).attempts ≡ (s.attempts + 1) % 2 ^ 64)
        × ((counted F success at s).successes
            ≡ (if success then (s.successes + 1) % 2 ^ 64 else s.successes))
  unfolding counted
  counted-counts true at s = (refl, refl)
  counted-counts false at s = (refl, refl)

  observe-counts :
      (o : Observation F) (now : ℤ) (saves : Bool) (entries : Entries F) (c : Context)
      (carrier : Bytes)
      → let before = entry c carrier entries in
        let after = entry c carrier (observe F lower o now saves entries).1 in
        (after.attempts
          ≡ (if is_of c carrier o then (before.attempts + 1) % 2 ^ 64 else before.attempts))
        × (after.successes ≡ (
            if is_of c carrier o && o.success
            then (before.successes + 1) % 2 ^ 64
            else before.successes))
  unfolding observe
  observe-counts o now saves entries c carrier =
      elim (Bool-cases (is_empty (trim_space o.carrier))) [
        | inl unnamed ↦ rw unnamed (refl, refl)
        | inr named ↦
            rw (observe-stats_of o now saves entries c carrier named, named)
              (elim (Bool-cases (same_context o c && bytes_eq o.carrier carrier)) [
                | inr other ↦ rw other (refl, refl)
                | inl this ↦
                    let s = counted F o.success (or_now F now o.at) (entry c carrier entries) in
                    let (tried, won) = averaged-counts o.latency o.throughput s in
                    let (tried', won') =
                      counted-counts o.success (or_now F now o.at) (entry c carrier entries) in
                    rw this (tried ∙ tried', won ∙ won')
              ])
      ]

  averaged-failures :
      (latency : ℤ) (throughput : F.float) (s : Stats F)
      → (averaged F latency throughput s).failures ≡ s.failures
  unfolding averaged
  averaged-failures latency throughput s = ground arith

  -- An observation of a success leaves every count of failures.
  pub observe-failures :
      (o : Observation F) (now : ℤ) (saves : Bool) (entries : Entries F) (c : Context)
      (carrier : Bytes)
      → o.success ≡ true
      → (entry c carrier (observe F lower o now saves entries).1).failures
        ≡ (entry c carrier entries).failures
  unfolding observe counted
  observe-failures o now saves entries c carrier won =
      elim (Bool-cases (is_empty (trim_space o.carrier))) [
        | inl unnamed ↦ rw unnamed refl
        | inr named ↦
            rw (observe-stats_of o now saves entries c carrier named)
              (elim (Bool-cases (same_context o c && bytes_eq o.carrier carrier)) [
                | inr other ↦ rw other refl
                | inl this ↦ rw this (
                    averaged-failures o.latency o.throughput
                      (counted F o.success (or_now F now o.at) (entry c carrier entries))
                    ∙ ap (λ b. (counted F b (or_now F now o.at) (entry c carrier entries)).failures)
                        won)
              ])
      ]

  bump :
      (b : Bool) (n : ℕ)
      → n + 1 < 2 ^ 64
      → (if b then (n + 1) % 2 ^ 64 else n) ≡ n + (if b then 1 else 0)
  bump b n h = ground arith

  small : (b : Bool) (n k : ℕ) → n + suc k < 2 ^ 64 → n + (if b then 1 else 0) + k < 2 ^ 64
  small b n k h = ground arith

  observe_all-from :
      (steps : List Step) (entries : Entries F) (c : Context) (carrier : Bytes)
      → (entry c carrier entries).attempts + length steps < 2 ^ 64
      → (entry c carrier entries).successes + length steps < 2 ^ 64
      → ((entry c carrier (observe_all steps entries)).attempts
          ≡ (entry c carrier entries).attempts + tries c carrier steps)
        × ((entry c carrier (observe_all steps entries)).successes
            ≡ (entry c carrier entries).successes + wins c carrier steps)
  unfolding observe_all tries wins
  observe_all-from [] entries c carrier short short' = (omega arith, omega arith)
  observe_all-from ((o, now, saves) ∷ steps) entries c carrier short short' =
      let next = (observe F lower o now saves entries).1 in
      let (tried, won) = observe-counts o now saves entries c carrier in
      let tried1 : (entry c carrier next).attempts
          ≡ (entry c carrier entries).attempts + (if is_of c carrier o then 1 else 0) =
        tried ∙ bump (is_of c carrier o) (entry c carrier entries).attempts (omega arith) in
      let won1 : (entry c carrier next).successes
          ≡ (entry c carrier entries).successes
            + (if is_of c carrier o && o.success then 1 else 0) =
        won
        ∙ bump (is_of c carrier o && o.success) (entry c carrier entries).successes (omega arith) in
      let (later, later') =
        observe_all-from steps next c carrier
          (rw tried1
            (small (is_of c carrier o) (entry c carrier entries).attempts (length steps) short))
          (rw won1 (
            small (is_of c carrier o && o.success) (entry c carrier entries).successes
              (length steps) short')) in
      (rw (later, tried1) (omega arith), rw (later', won1) (omega arith))

  -- The memory counts: after any sequence of observations from an empty memory, the entry of every
  -- carrier in every context has as many attempts as there were observations of that carrier in a
  -- context of the same key, and as many successes as succeeded among them. The sequence is shorter
  -- than 2^64.
  pub observe_all-counts :
      (steps : List Step) (c : Context) (carrier : Bytes)
      → length steps < 2 ^ 64
      → ((entry c carrier (observe_all steps [])).attempts ≡ tries c carrier steps)
        × ((entry c carrier (observe_all steps [])).successes ≡ wins c carrier steps)
  unfolding lookup
  observe_all-counts steps c carrier short =
      let (tried, won) = observe_all-from steps [] c carrier (omega arith) (omega arith) in
      (tried ∙ omega arith, won ∙ omega arith)
