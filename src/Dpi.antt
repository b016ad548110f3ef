-- ===== src/Dpi.antt =====
-- pkg/dpi: the strategies that shape the first bytes of a connection, and how a payload is written
-- under one. A cost is an integer number of hundredths.
pub mod Writing
pub mod Engine
pub mod First
use mathlib.Core.List.{map}
use chameleon_protocol.Base.{
  ℕ, zero, suc, ◌-◌, ◌^◌, ◌==◌, ◌&&◌, ◌||◌, not, leb, ltb, Bool, true, false, if◌then◌else◌, List,
  [], ◌∷◌, ◌++◌, length, take, drop, Option, none, some, Result, ok, err, ◌>>=◌, ◌>>◌, fail_if,
}
use chameleon_protocol.Base.Int.{ℤ, pos, negsuc, ltb_ℤ, leb_ℤ}
use chameleon_protocol.Base.Bytes.{Bytes, codes, is_empty}
use chameleon_protocol.Net.Text.{trim_space}
use chameleon_protocol.Io.{IoError, Writer, write_full}

pub data Technique : Type 0 where
  direct split paced_split fake disorder : Technique

pub record Strategy : Type 0 where
  pub name : Bytes
  pub techniques : List Technique
  pub split_points : List ℤ
  pub delay : ℤ
  pub cost : ℤ
  pub requires_packet_control : Bool

pub data DpiError : Type 0 where
  empty_name no_techniques negative_cost negative_delay bad_split_point : DpiError
  empty_payload packet_control : DpiError
  write_error : IoError → DpiError

abbrev pub any_not_positive : List ℤ → Bool
any_not_positive [] = false
any_not_positive (p ∷ ps) = leb_ℤ p (pos 0) || any_not_positive ps

abbrev pub has_no {ℓ} : {A : Type ℓ} → List A → Bool
has_no [] = true
has_no (x ∷ xs) = false

-- Strategy.Validate
unfoldable pub validate : Strategy → Result DpiError (Unit {0})
validate s = do
  fail_if (is_empty (trim_space s.name)) empty_name
  fail_if (has_no s.techniques) no_techniques
  fail_if (ltb_ℤ s.cost (pos 0)) negative_cost
  fail_if (ltb_ℤ s.delay (pos 0)) negative_delay
  fail_if (any_not_positive s.split_points) bad_split_point

abbrev pub only_direct : List Technique → Bool
only_direct (direct ∷ []) = true
only_direct _ = false

-- sort.Ints
unfoldable pub place : ℤ → List ℤ → List ℤ
place p [] = p ∷ []
place p (q ∷ qs) = let rest = place p qs in if leb_ℤ p q then p ∷ q ∷ qs else q ∷ rest

unfoldable pub sort_ints : List ℤ → List ℤ
sort_ints [] = []
sort_ints (p ∷ ps) = place p (sort_ints ps)

abbrev pub same_int : ℤ → ℤ → Bool
same_int a b = leb_ℤ a b && leb_ℤ b a

-- The loop of normalizedSplitPoints. What it keeps is positive, so a ℕ.
unfoldable pub kept_points : ℕ → ℤ → List ℤ → List ℕ
kept_points size last [] = []
kept_points size last (negsuc n ∷ ps) = kept_points size last ps
kept_points size last (pos n ∷ ps) =
    let skipped = kept_points size last ps in
    let taken = n ∷ kept_points size (pos n) ps in
    if n == 0 || leb size n || same_int (pos n) last then skipped else taken

unfoldable pub normalized_split_points : List ℤ → ℕ → List ℕ
normalized_split_points points size = kept_points size (negsuc 0) (sort_ints points)

-- The loop of ApplyWriter over the fragments' ends. The pauses between them are not modelled.
write_next :
    Option IoError × Writer → (Writer → Option DpiError × Writer) → Option DpiError × Writer
write_next (some e, w) rest = (some (write_error e), w)
write_next (none, w) rest = rest w

unfoldable pub write_fragments : Bytes → ℕ → List ℕ → Writer → Option DpiError × Writer
unfolding write_next
write_fragments payload start [] w = (none, w)
write_fragments payload start (end ∷ ends) w =
    if leb end start
    then write_fragments payload start ends w
    else write_next (write_full w (take (end - start) (drop start payload)))
        (λ w'. write_fragments payload end ends w')

abbrev pub whole : Option IoError × Writer → Option DpiError × Writer
whole (some e, w) = (some (write_error e), w)
whole (none, w) = (none, w)

-- What ApplyWriter does behind its guards.
unfoldable pub write_shaped : Writer → Bytes → Strategy → Option DpiError × Writer
write_shaped w payload s =
    let points = normalized_split_points s.split_points (length payload) in
    if has_no points || only_direct s.techniques
    then whole (write_full w payload)
    else write_fragments payload 0 (points ++ (length payload ∷ [])) w

apply_guarded : Result DpiError (Unit {0}) → Writer → Bytes → Strategy → Option DpiError × Writer
apply_guarded (err e) w payload s = (some e, w)
apply_guarded (ok u) w payload s = write_shaped w payload s

-- ApplyWriter
unfoldable pub apply_writer : Writer → Bytes → Strategy → Option DpiError × Writer
unfolding apply_guarded
apply_writer w payload s =
    apply_guarded
      (do
        fail_if (is_empty payload) empty_payload
        validate s
        fail_if s.requires_packet_control packet_control)
      w payload s

abbrev pub strategy : Bytes → List Technique → List ℤ → ℤ → ℤ → Bool → Strategy
strategy name techniques points delay cost packet = record {
  name = name;
  techniques = techniques;
  split_points = points;
  delay = delay;
  cost = cost;
  requires_packet_control = packet;
}

unfoldable pub default_strategies : List Strategy
default_strategies =
    strategy (codes "direct") (direct ∷ []) [] (pos 0) (pos 0) false
    ∷ strategy (codes "split-early") (split ∷ []) (pos 1 ∷ []) (pos 25000000) (pos 35) false
    ∷ strategy (codes "paced-split") (paced_split ∷ []) (pos 1 ∷ []) (pos 2000000) (pos 65) false
    ∷ []

unfoldable pub packet_control_strategies : List Strategy
packet_control_strategies =
    strategy (codes "fake-then-split") (fake ∷ split ∷ []) (pos 1 ∷ []) (pos 0) (pos 125) true
    ∷ strategy (codes "disorder-split") (disorder ∷ split ∷ []) (pos 1 ∷ []) (pos 0) (pos 150) true
    ∷ []
