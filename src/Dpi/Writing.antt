-- ===== src/Dpi/Writing.antt =====
-- What a payload looks like on the wire when it is written under a strategy.
use mathlib.Core.List.{append_assoc}
use chameleon_protocol.Base.{
  ℕ, ◌-◌, ◌<◌, ◌≡◌, ◌==◌, ◌||◌, refl, ap, ◌∙◌, arith, false, leb, Bool-cases, inl, inr, List, [],
  ◌∷◌, ◌++◌, Option, none, some, Result, ok, err, length, take, drop, take-append-drop, drop-drop,
  take_all, length-drop,
}
use chameleon_protocol.Base.Int.{ℤ, pos, negsuc, ◌≤ℤ◌, leb_ℤ}
use chameleon_protocol.Base.Bytes.{Bytes}
use chameleon_protocol.Io.{IoError, Writer, write_full}
use chameleon_protocol.Io.Writing.{write_full-done, write_full-willing}
use chameleon_protocol.Dpi.{
  DpiError, Strategy, place, sort_ints, kept_points, normalized_split_points, same_int, has_no,
  only_direct, write_next, write_fragments, whole, write_shaped, apply_guarded, apply_writer,
  validate,
}

-- Ascending, from `lo` on.
Sorted : ℤ → List ℤ → Type 0
Sorted lo [] = Unit
Sorted lo (p ∷ ps) = (lo ≤ℤ p) × Sorted p ps

-- Strictly ascending, above `lo` and below `size`.
unfoldable pub Rising : ℕ → ℕ → List ℕ → Type 0
Rising lo size [] = Unit
Rising lo size (n ∷ ns) = (lo < n) × (n < size) × Rising n size ns

Sorted-weaken : (lo lo' : ℤ) (ps : List ℤ) → lo ≤ℤ lo' → Sorted lo' ps → Sorted lo ps
unfolding Sorted
Sorted-weaken lo lo' [] h s = tt
Sorted-weaken lo lo' (p ∷ ps) h (l, s) = (omega arith, s)

place-Sorted : (lo p : ℤ) (qs : List ℤ) → lo ≤ℤ p → Sorted lo qs → Sorted lo (place p qs)
unfolding place Sorted
place-Sorted lo p [] h s = (h, tt)
place-Sorted lo p (q ∷ qs) h (l, s) = elim (Bool-cases (leb_ℤ p q)) [
  | inl le ↦ rw le (h, (ground arith, s))
  | inr gt ↦ rw gt (l, place-Sorted q p qs (ground arith) s)
]

kept_points-Rising :
    (size lo : ℕ) (ps : List ℤ) → Sorted (pos lo) ps → Rising lo size (kept_points size (pos lo) ps)
unfolding Sorted Rising kept_points
kept_points-Rising size lo [] s = tt
kept_points-Rising size lo (negsuc n ∷ ps) (l, s) = absurd (omega arith)
kept_points-Rising size lo (pos n ∷ ps) (l, s) =
    elim (Bool-cases (n == 0 || leb size n || same_int (pos n) (pos lo))) [
      | inl skip ↦ rw skip (kept_points-Rising size lo ps (Sorted-weaken (pos lo) (pos n) ps l s))
      | inr keep ↦ rw keep (ground arith, ground arith, kept_points-Rising size n ps s)
    ]

-- before the first point that is kept, `last` is -1
kept_points-first :
    (size : ℕ) (lo : ℤ) (ps : List ℤ)
    → Sorted lo ps
    → Rising 0 size (kept_points size (negsuc 0) ps)
unfolding Sorted Rising kept_points
kept_points-first size lo [] s = tt
kept_points-first size lo (negsuc n ∷ ps) (l, s) = kept_points-first size (negsuc n) ps s
kept_points-first size lo (pos n ∷ ps) (l, s) =
    elim (Bool-cases (n == 0 || leb size n || same_int (pos n) (negsuc 0))) [
      | inl skip ↦ rw skip (kept_points-first size (pos n) ps s)
      | inr keep ↦ rw keep (ground arith, ground arith, kept_points-Rising size n ps s)
    ]

sort_ints-Sorted : (ps : List ℤ) → (lo : ℤ) × Sorted lo (sort_ints ps)
unfolding sort_ints Sorted
sort_ints-Sorted [] = (pos 0, tt)
sort_ints-Sorted (p ∷ ps) =
    let (lo, s) = sort_ints-Sorted ps in
    elim (Bool-cases (leb_ℤ p lo)) [
      | inl le ↦ (p, place-Sorted p p _ (omega arith) (Sorted-weaken p lo _ (ground arith) s))
      | inr gt ↦ (lo, place-Sorted lo p _ (ground arith) s)
    ]

-- The points at which a payload is cut are strictly ascending and strictly inside it, whatever
-- points the strategy names.
pub normalized_split_points-Rising :
    (points : List ℤ) (size : ℕ) → Rising 0 size (normalized_split_points points size)
unfolding normalized_split_points
normalized_split_points-Rising points size =
    let (lo, s) = sort_ints-Sorted points in kept_points-first size lo (sort_ints points) s

write_next-done :
    (r : Option IoError × Writer) (rest : Writer → Option DpiError × Writer)
    → (write_next r rest).0 ≡ none
    → (r.0 ≡ none) × (write_next r rest ≡ rest r.1)
unfolding write_next
write_next-done (some e, w) rest h = cc
write_next-done (none, w) rest h = (refl, refl)

whole-done : (r : Option IoError × Writer) → (whole r).0 ≡ none → (r.0 ≡ none) × ((whole r).1 ≡ r.1)
whole-done (some e, w) h = cc
whole-done (none, w) h = (refl, refl)

split_rest :
    (payload : Bytes) (start end : ℕ)
    → start < end
    → take (end - start) (drop start payload) ++ drop end payload ≡ drop start payload
split_rest payload start end h =
    let there : drop end payload ≡ drop (end - start) (drop start payload) =
      ap (λ n. drop n payload) (omega arith) ∙ drop-drop start (end - start) payload in
    rw there (take-append-drop (end - start) (drop start payload))

fragments_end :
    (payload : Bytes) (start : ℕ) (w : Writer) → (write_fragments payload start [] w) ≡ (none, w)
unfolding write_fragments
fragments_end payload start w = refl

-- the loop at an end that is ahead
fragment_step :
    (payload : Bytes) (start end : ℕ) (ends : List ℕ) (w : Writer)
    → start < end
    → write_fragments payload start (end ∷ ends) w
      ≡ write_next
          (write_full w (take (end - start) (drop start payload)))
          (λ w'. write_fragments payload end ends w')
unfolding write_fragments
fragment_step payload start end ends w up =
    let ahead : leb end start ≡ false = ground arith in rw ahead refl

write_fragments-done :
    (payload : Bytes) (start : ℕ) (ends : List ℕ) (w : Writer)
    → Rising start (length payload) ends
    → start < length payload
    → (write_fragments payload start (ends ++ (length payload ∷ [])) w).0 ≡ none
    → (write_fragments payload start (ends ++ (length payload ∷ [])) w).1.sent
      ≡ w.sent ++ drop start payload
unfolding Rising
write_fragments-done payload start [] w r inside h =
    let step = fragment_step payload start (length payload) [] w inside in
    let rest = take (length payload - start) (drop start payload) in
    let (done, same) =
      write_next-done (write_full w rest) (λ w'. write_fragments payload (length payload) [] w')
        (rw step at h) in
    rw (step, same, fragments_end payload (length payload) (write_full w rest).1)
      (write_full-done w rest done
        ∙ ap (λ t. w.sent ++ t)
            (take_all (length payload - start) (drop start payload)
              (omega (arith, length-drop start payload))))
write_fragments-done payload start (end ∷ ends) w (up, below, r) inside h =
    let later = ends ++ (length payload ∷ []) in
    let step = fragment_step payload start end later w up in
    let part = take (end - start) (drop start payload) in
    let (done, same) =
      write_next-done (write_full w part) (λ w'. write_fragments payload end later w')
        (rw step at h) in
    let w1 = (write_full w part).1 in
    let finished = rw (step, same) at h in
    rw (step, same)
      (write_fragments-done payload end ends w1 r below finished
        ∙ ap (λ t. t ++ drop end payload) (write_full-done w part done)
        ∙ append_assoc w.sent part (drop end payload)
        ∙ ap (λ t. w.sent ++ t) (split_rest payload start end up))

write_shaped-done :
    (w : Writer) (payload : Bytes) (s : Strategy)
    → 0 < length payload
    → (write_shaped w payload s).0 ≡ none
    → (write_shaped w payload s).1.sent ≡ w.sent ++ payload
unfolding write_shaped
write_shaped-done w payload s ne h =
    let points = normalized_split_points s.split_points (length payload) in
    elim (Bool-cases (has_no points || only_direct s.techniques)) [
      | inl once ↦
          let (done, same) = whole-done (write_full w payload) (rw once at h) in
          rw (once, same) (write_full-done w payload done)
      | inr cut ↦ rw cut (
          write_fragments-done payload 0 points w
            (normalized_split_points-Rising s.split_points (length payload)) ne (rw cut at h))
    ]

apply_guarded-done :
    (g : Result DpiError (Unit {0})) (w : Writer) (payload : Bytes) (s : Strategy)
    → 0 < length payload
    → (apply_guarded g w payload s).0 ≡ none
    → (apply_guarded g w payload s).1.sent ≡ w.sent ++ payload
unfolding apply_guarded
apply_guarded-done (err e) w payload s ne h = cc
apply_guarded-done (ok u) w payload s ne h = write_shaped-done w payload s ne h

-- When ApplyWriter reports no error, exactly the payload went out, whole and in order, behind what
-- was there, whatever the strategy and however the writer cuts its calls.
pub apply_writer-done :
    (w : Writer) (payload : Bytes) (s : Strategy)
    → (apply_writer w payload s).0 ≡ none
    → (apply_writer w payload s).1.sent ≡ w.sent ++ payload
unfolding apply_writer apply_guarded
apply_writer-done w [] s h = cc
apply_writer-done w (b ∷ p) s h = apply_guarded-done _ w (b ∷ p) s (omega arith) h

write_next-willing :
    (r : Option IoError × Writer) (rest : Writer → Option DpiError × Writer)
    → r.0 ≡ none
    → write_next r rest ≡ rest r.1
unfolding write_next
write_next-willing (some e, w) rest h = cc
write_next-willing (none, w) rest h = refl

write_fragments-willing :
    (payload : Bytes) (start : ℕ) (ends : List ℕ) (w : Writer)
    → w.answers ≡ []
    → (write_fragments payload start ends w).0 ≡ none
unfolding write_fragments
write_fragments-willing payload start [] w h = refl
write_fragments-willing payload start (end ∷ ends) w h = elim (Bool-cases (leb end start)) [
  | inl behind ↦ rw behind (write_fragments-willing payload start ends w h)
  | inr ahead ↦
      let part = take (end - start) (drop start payload) in
      let (fine, still) = write_full-willing w part h in
      rw
        (
          ahead,
          write_next-willing (write_full w part) (λ w'. write_fragments payload end ends w') fine,
        )
        (write_fragments-willing payload end ends _ still)
]

whole-willing : (r : Option IoError × Writer) → r.0 ≡ none → (whole r).0 ≡ none
whole-willing (some e, w) h = cc
whole-willing (none, w) h = refl

write_shaped-willing :
    (w : Writer) (payload : Bytes) (s : Strategy)
    → w.answers ≡ []
    → (write_shaped w payload s).0 ≡ none
unfolding write_shaped
write_shaped-willing w payload s h =
    let points = normalized_split_points s.split_points (length payload) in
    elim (Bool-cases (has_no points || only_direct s.techniques)) [
      | inl once ↦ rw once (whole-willing _ (write_full-willing w payload h).0)
      | inr cut ↦ rw cut (write_fragments-willing payload 0 _ w h)
    ]

-- On a writer that takes what it is given, ApplyWriter writes a payload that is not empty without
-- an error, under every valid strategy that needs no packet control.
pub apply_writer-willing :
    (w : Writer) (b : ℕ) (p : Bytes) (s : Strategy)
    → validate s ≡ ok tt
    → s.requires_packet_control ≡ false
    → w.answers ≡ []
    → ((apply_writer w (b ∷ p) s).0 ≡ none)
      × ((apply_writer w (b ∷ p) s).1.sent ≡ w.sent ++ (b ∷ p))
unfolding apply_writer apply_guarded write_shaped
apply_writer-willing w b p s valid user h =
    let fine : (apply_writer w (b ∷ p) s).0 ≡ none =
      rw (valid, user) (write_shaped-willing w (b ∷ p) s h) in
    (fine, apply_writer-done w (b ∷ p) s fine)
