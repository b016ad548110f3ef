-- ===== src/Carrier/Choice/Order.antt =====
-- The order by which Choose of pkg/carrier/engine.go ranks, and the stable sort under it.
use chameleon_protocol.Base.{
  ◌≡◌, refl, sym, ◌∙◌, arith, ◌&&◌, Bool, true, false, if◌then◌else◌, List, [], ◌∷◌, Bool-cases,
  inl, inr, All,
}
use chameleon_protocol.Base.Int.{ℤ, ltb_ℤ, leb_ℤ}
use chameleon_protocol.Base.Bytes.{Bytes}
use chameleon_protocol.Carrier.{Floats}
use chameleon_protocol.Carrier.Choice.{Ranked, before, place, sort_stable}

-- The comparisons of IEEE 754 on the values that are not NaN: those of a key of each value.
pub record FloatLaws (F : Floats) : Type 0 where
  pub is_number : F.float → Bool
  pub key : F.float → ℤ
  pub less_key :
      (a b : F.float) → is_number a ≡ true → is_number b ≡ true → F.less a b ≡ ltb_ℤ (key a) (key b)
  pub same_key :
      (a b : F.float)
      → is_number a ≡ true
      → is_number b ≡ true
      → F.same a b ≡ (leb_ℤ (key a) (key b) && leb_ℤ (key b) (key a))

module _ (F : Floats) (lower : Bytes → Bytes) (laws : FloatLaws F) where
  -- The numbers that the order compares are not NaN.
  abbrev pub Numbers : Ranked F lower → Type 0
  Numbers r = (laws.is_number r.score ≡ true) × (laws.is_number r.candidate.cost ≡ true)

  abbrev key_before : (c d s t : ℤ) → Bool
  key_before c d s t = if leb_ℤ s t && leb_ℤ t s then ltb_ℤ c d else ltb_ℤ t s

  pub before-key :
      (a b : Ranked F lower)
      → Numbers a
      → Numbers b
      → before F lower a b
        ≡ key_before
            (laws.key a.candidate.cost)
            (laws.key b.candidate.cost)
            (laws.key a.score)
            (laws.key b.score)
  before-key a b (sa, ca) (sb, cb) =
      rw
        (
          laws.same_key a.score b.score sa sb,
          laws.less_key a.candidate.cost b.candidate.cost ca cb,
          laws.less_key b.score a.score sb sa,
        )
        refl

  key_before-negative :
      (a b c s t u : ℤ)
      → key_before b a t s ≡ false
      → key_before c b u t ≡ false
      → key_before c a u s ≡ false
  key_before-negative a b c s t u h k = ground arith

  -- `c` is not before `a` if it is not before some `b` that is not before `a`
  before-negative :
      (a b c : Ranked F lower)
      → Numbers a
      → Numbers b
      → Numbers c
      → before F lower b a ≡ false
      → before F lower c b ≡ false
      → before F lower c a ≡ false
  before-negative a b c na nb nc h k =
      before-key c a nc na
      ∙ key_before-negative (laws.key a.candidate.cost) (laws.key b.candidate.cost)
          (laws.key c.candidate.cost) (laws.key a.score) (laws.key b.score) (laws.key c.score)
          (sym (before-key b a nb na) ∙ h) (sym (before-key c b nc nb) ∙ k)

  before-asymmetric :
      (a b : Ranked F lower)
      → Numbers a
      → Numbers b
      → before F lower a b ≡ true
      → before F lower b a ≡ false
  before-asymmetric a b na nb h =
      before-key b a nb na
      ∙ key_before-asymmetric (laws.key a.candidate.cost) (laws.key b.candidate.cost)
          (laws.key a.score) (laws.key b.score) (sym (before-key a b na nb) ∙ h)
    where
      key_before-asymmetric : (a b s t : ℤ) → key_before a b s t ≡ true → key_before b a t s ≡ false
      key_before-asymmetric a b s t h = ground arith

  -- No element is before the first.
  unfoldable pub HeadFirst : List (Ranked F lower) → Type 0
  HeadFirst [] = Unit
  HeadFirst (y ∷ ys) = All (λ r. before F lower r y ≡ false) ys

  place-All :
      (P : Ranked F lower → Type 0) (x : Ranked F lower) (ys : List (Ranked F lower))
      → P x
      → All P ys
      → All P (place F lower x ys)
  unfolding place
  place-All P x [] h hs = (h, tt)
  place-All P x (y ∷ ys) h (k, ks) = elim (Bool-cases (before F lower y x)) [
    | inl later ↦ rw later (k, place-All P x ys h ks)
    | inr first ↦ rw first (h, (k, ks))
  ]

  place-All⁻ :
      (P : Ranked F lower → Type 0) (x : Ranked F lower) (ys : List (Ranked F lower))
      → All P (place F lower x ys)
      → P x × All P ys
  unfolding place
  place-All⁻ P x [] hs = hs
  place-All⁻ P x (y ∷ ys) hs = elim (Bool-cases (before F lower y x)) [
    | inl later ↦
        let (k, rest) = rw later at hs in let (h, ks) = place-All⁻ P x ys rest in (h, (k, ks))
    | inr first ↦ rw first at hs
  ]

  All-negative :
      (x y : Ranked F lower) (ys : List (Ranked F lower))
      → Numbers x
      → Numbers y
      → All Numbers ys
      → before F lower y x ≡ false
      → All (λ r. before F lower r y ≡ false) ys
      → All (λ r. before F lower r x ≡ false) ys
  All-negative x y [] nx ny ns h hs = tt
  All-negative x y (z ∷ ys) nx ny (nz, ns) h (k, ks) =
      (before-negative x y z nx ny nz h k, All-negative x y ys nx ny ns h ks)

  place-HeadFirst :
      (x : Ranked F lower) (ys : List (Ranked F lower))
      → Numbers x
      → All Numbers ys
      → HeadFirst ys
      → HeadFirst (place F lower x ys)
  unfolding place HeadFirst
  place-HeadFirst x [] nx ns h = tt
  place-HeadFirst x (y ∷ ys) nx (ny, ns) h = elim (Bool-cases (before F lower y x)) [
    | inl later ↦
        rw later
          (place-All (λ r. before F lower r y ≡ false) x ys (before-asymmetric y x ny nx later) h)
    | inr first ↦ rw first (first, All-negative x y ys nx ny ns first h)
  ]

  pub sort_stable-All :
      (P : Ranked F lower → Type 0) (xs : List (Ranked F lower))
      → All P xs
      → All P (sort_stable F lower xs)
  unfolding sort_stable
  sort_stable-All P [] hs = tt
  sort_stable-All P (x ∷ xs) (h, hs) = place-All P x _ h (sort_stable-All P xs hs)

  pub sort_stable-HeadFirst :
      (xs : List (Ranked F lower)) → All Numbers xs → HeadFirst (sort_stable F lower xs)
  unfolding sort_stable HeadFirst
  sort_stable-HeadFirst [] ns = tt
  sort_stable-HeadFirst (x ∷ xs) (nx, ns) =
      place-HeadFirst x _ nx (sort_stable-All Numbers xs ns) (sort_stable-HeadFirst xs ns)

  pub sort_stable-All⁻ :
      (P : Ranked F lower → Type 0) (xs : List (Ranked F lower))
      → All P (sort_stable F lower xs)
      → All P xs
  unfolding sort_stable
  sort_stable-All⁻ P [] hs = tt
  sort_stable-All⁻ P (x ∷ xs) hs =
      let (h, ks) = place-All⁻ P x _ hs in (h, sort_stable-All⁻ P xs ks)

  -- What it says of the scores and the costs that `a` is not before `b`.
  pub before-parts :
      (a b : Ranked F lower)
      → Numbers a
      → Numbers b
      → before F lower a b ≡ false
      → (F.less b.score a.score ≡ false)
        × ((F.same a.score b.score && F.less a.candidate.cost b.candidate.cost) ≡ false)
  before-parts a b na nb h =
      rw
        (
          laws.less_key b.score a.score nb.0 na.0,
          laws.same_key a.score b.score na.0 nb.0,
          laws.less_key a.candidate.cost b.candidate.cost na.1 nb.1,
        )
        (parts (laws.key a.candidate.cost) (laws.key b.candidate.cost) (laws.key a.score)
          (laws.key b.score) (sym (before-key a b na nb) ∙ h))
    where
      parts :
          (c d s t : ℤ)
          → key_before c d s t ≡ false
          → (ltb_ℤ t s ≡ false) × (((leb_ℤ s t && leb_ℤ t s) && ltb_ℤ c d) ≡ false)
      parts c d s t h = (ground arith, ground arith)

  pub before-irreflexive : (a : Ranked F lower) → Numbers a → before F lower a a ≡ false
  before-irreflexive a n =
      before-key a a n n ∙ not_before (laws.key a.candidate.cost) (laws.key a.score)
    where
      not_before : (c s : ℤ) → key_before c c s s ≡ false
      not_before c s = ground arith
