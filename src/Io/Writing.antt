-- ===== src/Io/Writing.antt =====
-- The loop that writes a whole slice.
use mathlib.Core.List.{append-nil, append_assoc}
use mathlib.Core.Path.{subst}
use chameleon_protocol.Base.{
  ◌≡◌, refl, sym, ap, ◌∙◌, none, List, [], ◌∷◌, ◌++◌, length, take, drop, ltb, ◌==◌, ◌||◌,
  Bool-cases, inl, inr, take-append-drop,
}
use chameleon_protocol.Base.Bytes.{Bytes}
use chameleon_protocol.Io.{Answer, wrote, failed, Writer, write_loop, write_full}

write_loop-done :
    (answers : List Answer) (sent p : Bytes)
    → (write_loop answers sent p).0 ≡ none
    → (write_loop answers sent p).1.sent ≡ sent ++ p
unfolding write_loop
write_loop-done answers sent [] h = sym (append-nil sent)
write_loop-done [] sent (b ∷ p) h = refl
write_loop-done (failed n ∷ answers) sent (b ∷ p) h = cc
write_loop-done (wrote n ∷ answers) sent (b ∷ p) h =
    elim (Bool-cases (n == 0 || ltb (length (b ∷ p)) n)) [
      | inl bad ↦ let stopped = rw bad at h in cc
      | inr good ↦ rw good (
          write_loop-done answers (sent ++ take n (b ∷ p)) (drop n (b ∷ p)) (rw good at h)
          ∙ append_assoc sent (take n (b ∷ p)) (drop n (b ∷ p))
          ∙ ap (λ t. sent ++ t) (take-append-drop n (b ∷ p)))
    ]

-- When the loop reports no error, the whole slice went out, in order, behind what was there.
pub write_full-done :
    (w : Writer) (p : Bytes) → (write_full w p).0 ≡ none → (write_full w p).1.sent ≡ w.sent ++ p
unfolding write_full
write_full-done w p h = write_loop-done w.answers w.sent p h

write_loop-willing :
    (sent p : Bytes) → ((write_loop [] sent p).0 ≡ none) × ((write_loop [] sent p).1.answers ≡ [])
unfolding write_loop
write_loop-willing sent [] = (refl, refl)
write_loop-willing sent (b ∷ p) = (refl, refl)

-- A writer that takes every slice whole takes this one too, and stays such a writer.
pub write_full-willing :
    (w : Writer) (p : Bytes)
    → w.answers ≡ []
    → ((write_full w p).0 ≡ none) × ((write_full w p).1.answers ≡ [])
unfolding write_full
write_full-willing w p e =
    subst
      (λ answers.
        ((write_loop answers w.sent p).0 ≡ none) × ((write_loop answers w.sent p).1.answers ≡ []))
      (sym e) (write_loop-willing w.sent p)
