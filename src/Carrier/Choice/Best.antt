-- ===== src/Carrier/Choice/Best.antt =====
-- What Choose of pkg/carrier/engine.go returns, described without its filter and its sort.
use mathlib.Core.Path.{subst}
use mathlib.Core.List.{append_assoc, map}
use chameleon_protocol.Base.{
  ℕ, suc, ◌+◌, ◌≡◌, refl, sym, ap, ◌∙◌, arith, ◌&&◌, ◌||◌, not, Bool, true, false, if◌then◌else◌,
  List, [], ◌∷◌, ◌++◌, ok, Bool-cases, inl, inr, All,
}
use chameleon_protocol.Base.Int.{ℤ}
use chameleon_protocol.Base.Bytes.{Bytes, codes, bytes_eq, bytes_eq→eq, is_empty}
use chameleon_protocol.Net.Text.{trim_space}
use chameleon_protocol.Carrier.{
  Floats, Context, Candidate, Entries, is_compatible, compatible_of, filter_compatible, proto_of,
}
use chameleon_protocol.Carrier.Choice.{
  Ranked, before, sort_stable, ranked, rank_all, Decision, decided, choose,
}
use chameleon_protocol.Carrier.Choice.Order.{
  FloatLaws, Numbers, HeadFirst, sort_stable-All, sort_stable-All⁻, sort_stable-HeadFirst,
  before-parts, before-irreflexive,
}

module _ (F : Floats) (lower : Bytes → Bytes) where
  -- A candidate that can carry the protocol: it has a name and a cost that is not negative, and
  -- supports UDP or TCP if the protocol is that; any other protocol is carried by all.
  abbrev pub carries : Bytes → Candidate F → Bool
  carries proto c =
      if is_empty (trim_space c.name)
      then false
      else if F.less c.cost (F.lit 0)
      then false
      else if bytes_eq proto (codes "udp")
      then c.supports_udp
      else if bytes_eq proto (codes "tcp")
      then c.supports_tcp
      else true

  unfoldable pub carriers_in : Bytes → List (Candidate F) → ℕ
  carriers_in proto [] = 0
  carriers_in proto (c ∷ cs) =
      let rest = carriers_in proto cs in if carries proto c then suc rest else rest

  -- One of the candidates `cs` that can carry the protocol, with its place in the list.
  pub record Offer (proto : Bytes) (cs : List (Candidate F)) : Type 0 where
    pub front : List (Candidate F)
    pub candidate : Candidate F
    pub back : List (Candidate F)
    pub place : cs ≡ front ++ (candidate ∷ back)
    pub fits : carries proto candidate ≡ true

  -- What the ranking gives an offer: at its turn, behind the offers in front of it.
  abbrev pub rank_of :
      (ctx : Context) (cs : List (Candidate F))
      → Entries F
      → (ℕ → ℤ)
      → Offer (proto_of F lower ctx.protocol) cs
      → Ranked F lower
  rank_of ctx cs entries clock o =
      ranked F lower ctx entries (clock (carriers_in (proto_of F lower ctx.protocol) o.front))
        o.candidate

  udp_not_tcp :
      (proto : Bytes) → bytes_eq proto (codes "udp") ≡ true → bytes_eq proto (codes "tcp") ≡ false
  udp_not_tcp proto h = rw (bytes_eq→eq proto (codes "udp") h) refl

  is_compatible-carries :
      (proto : Bytes) (c : Candidate F) → is_compatible F lower proto c ≡ carries proto c
  is_compatible-carries proto c =
      tests (is_empty (trim_space c.name)) (F.less c.cost (F.lit 0)) (bytes_eq proto (codes "udp"))
        (bytes_eq proto (codes "tcp")) c.supports_udp c.supports_tcp (udp_not_tcp proto)
    where
      tests :
          (e l u t su st : Bool)
          → (u ≡ true → t ≡ false)
          → (not (e || l) && not (u && not su) && not (t && not st))
            ≡ (if e then false else if l then false else if u then su else if t then st else true)
      tests true l u t su st one = refl
      tests false true u t su st one = refl
      tests false false false true su true one = refl
      tests false false false true su false one = refl
      tests false false false false su st one = refl
      tests false false true false true st one = refl
      tests false false true false false st one = refl
      tests false false true true su st one = let absurd_one = one refl in cc

  -- Every rank of the loop is that of an offer.
  abbrev Placed :
      (ctx : Context) (cs : List (Candidate F)) → Entries F → (ℕ → ℤ) → Ranked F lower → Type 0
  Placed ctx cs entries clock r =
      (o : Offer (proto_of F lower ctx.protocol) cs) × (rank_of ctx cs entries clock o ≡ r)

  carriers_in-snoc :
      (proto : Bytes) (c : Candidate F) (cs : List (Candidate F))
      → carriers_in proto (cs ++ (c ∷ []))
        ≡ (if carries proto c then suc (carriers_in proto cs) else carriers_in proto cs)
  unfolding carriers_in
  carriers_in-snoc proto c [] = refl
  carriers_in-snoc proto c (x ∷ cs) = ground (arith, carriers_in-snoc proto c cs)

  rank_all-Placed :
      (ctx : Context) (all front cs : List (Candidate F)) (entries : Entries F) (clock : ℕ → ℤ)
      → all ≡ front ++ cs
      → All (Placed ctx all entries clock) (
          rank_all F lower ctx entries clock
            (carriers_in (proto_of F lower ctx.protocol) front)
            (compatible_of F lower (proto_of F lower ctx.protocol) cs))
  unfolding rank_all compatible_of
  rank_all-Placed ctx all front [] entries clock split = tt
  rank_all-Placed ctx all front (c ∷ cs) entries clock split =
      let proto = proto_of F lower ctx.protocol in
      let rest =
        rank_all-Placed ctx all (front ++ (c ∷ [])) cs entries clock
          (split ∙ sym (append_assoc front (c ∷ []) cs)) in
      elim (Bool-cases (carries proto c)) [
        | inl fits ↦
            rw (is_compatible-carries proto c, fits)
              (
                (
                  record { front = front; candidate = c; back = cs; place = split; fits = fits },
                  refl,
                ),
                (rw (carriers_in-snoc proto c front, fits) at rest),
              )
        | inr unfit ↦
            rw (is_compatible-carries proto c, unfit)
              (rw (carriers_in-snoc proto c front, unfit) at rest)
      ]

  rank_all-at :
      (P : Ranked F lower → Type 0) (ctx : Context) (entries : Entries F) (clock : ℕ → ℤ) (turn : ℕ)
      (front : List (Candidate F)) (c : Candidate F) (back : List (Candidate F))
      → carries (proto_of F lower ctx.protocol) c ≡ true
      → All P (
          rank_all F lower ctx entries clock turn
            (compatible_of F lower (proto_of F lower ctx.protocol) (front ++ (c ∷ back))))
      → P (
          ranked F lower ctx entries
            (clock (turn + carriers_in (proto_of F lower ctx.protocol) front))
            c)
  unfolding rank_all compatible_of carriers_in
  rank_all-at P ctx entries clock turn [] c back fits all =
      let proto = proto_of F lower ctx.protocol in
      let here = rw (is_compatible-carries proto c, fits) at all in
      let same : turn ≡ turn + 0 = omega arith in
      subst (λ t. P (ranked F lower ctx entries (clock t) c)) same here.0
  rank_all-at P ctx entries clock turn (x ∷ front) c back fits all =
      let proto = proto_of F lower ctx.protocol in
      elim (Bool-cases (carries proto x)) [
        | inl first ↦
            let here = rw (is_compatible-carries proto x, first) at all in
            let same : suc turn + carriers_in proto front ≡ turn + suc (carriers_in proto front) =
              omega arith in
            rw first (
              subst (λ t. P (ranked F lower ctx entries (clock t) c)) same
                (rank_all-at P ctx entries clock (suc turn) front c back fits here.1))
        | inr other ↦ rw other (
            rank_all-at P ctx entries clock turn front c back fits
              (rw (is_compatible-carries proto x, other) at all))
      ]

All-weaken {ℓ κ μ} :
    {A : Type ℓ} (P : A → Type κ) (Q : A → Type μ) (xs : List A)
    → ((x : A) → P x → Q x)
    → All P xs
    → All Q xs
All-weaken P Q [] f hs = tt
All-weaken P Q (x ∷ xs) f (h, hs) = (f x h, All-weaken P Q xs f hs)

module _ (F : Floats) (lower : Bytes → Bytes) (laws : FloatLaws F) where
  module _ (ctx : Context) (cs : List (Candidate F)) (entries : Entries F) (clock : ℕ → ℤ) where
    abbrev pub Offered : Type 0
    Offered = Offer F lower (proto_of F lower ctx.protocol) cs

    abbrev rank : Offered → Ranked F lower
    rank o = rank_of F lower ctx cs entries clock o

    ranking : List (Ranked F lower)
    ranking =
        rank_all F lower ctx entries clock 0
          (compatible_of F lower (proto_of F lower ctx.protocol) cs)

    ranking-Placed : All (Placed F lower ctx cs entries clock) ranking
    unfolding ranking carriers_in
    ranking-Placed = rank_all-Placed F lower ctx cs [] cs entries clock refl

    ranking-at : (P : Ranked F lower → Type 0) (o : Offered) → All P ranking → P (rank o)
    unfolding ranking
    ranking-at P o all =
        let proto = proto_of F lower ctx.protocol in
        let here = rank_all-at F lower P ctx entries clock 0 o.front o.candidate o.back o.fits (
          subst (λ l. All P (rank_all F lower ctx entries clock 0 (compatible_of F lower proto l)))
            o.place all) in
        let same : 0 + carriers_in F lower proto o.front ≡ carriers_in F lower proto o.front =
          omega arith in
        subst (λ t. P (ranked F lower ctx entries (clock t) o.candidate)) same here

    -- What is claimed of a decision, against one offer.
    abbrev pub Beats : Decision F lower → Offered → Offered → Type 0
    Beats d best o =
        (best.candidate ≡ d.carrier)
        × ((rank best).score ≡ d.score)
        × (F.less d.score (rank o).score ≡ false)
        × ((F.same (rank o).score d.score && F.less o.candidate.cost d.carrier.cost) ≡ false)

    first-Beats :
        (o : Offered) (rs : List (Ranked F lower))
        → ((x : Offered) → Numbers F lower laws (rank x))
        → sort_stable F lower ranking ≡ rs
        → HeadFirst F lower laws rs
        → (d : Decision F lower) × (best : Offered) × (decided F lower rs ≡ ok d) × Beats d best o
    unfolding decided HeadFirst ranked
    first-Beats o [] numbers sorted head =
        let P : Ranked F lower → Type 0 = λ r. true ≡ false in
        let none_there : All P [] = tt in
        let bad =
          ranking-at P o
            (sort_stable-All⁻ F lower laws P ranking (subst (All P) (sym sorted) none_there)) in
        absurd (let h : true ≡ false = bad in cc)
    first-Beats o (b ∷ others) numbers sorted head =
        let (here, _) = subst (All (Placed F lower ctx cs entries clock)) sorted (
          sort_stable-All F lower laws (Placed F lower ctx cs entries clock) ranking
            ranking-Placed) in
        let (best, same) = here in
        let number = subst (Numbers F lower laws) same (numbers best) in
        let P : Ranked F lower → Type 0 = λ r. before F lower r b ≡ false in
        let behind : All P (b ∷ others) = (before-irreflexive F lower laws b number, head) in
        let last =
          ranking-at P o
            (sort_stable-All⁻ F lower laws P ranking (subst (All P) (sym sorted) behind)) in
        let (above, cheaper) = before-parts F lower laws (rank o) b (numbers o) number last in
        (
          record {
            carrier = b.candidate;
            score = b.score;
            known = b.known;
            alternates = map (λ (r : Ranked F lower). r.candidate.name) others;
          },
          best,
          refl,
          (
            ap (λ (r : Ranked F lower). r.candidate) same,
            ap (λ (r : Ranked F lower). r.score) same,
            above,
            cheaper,
          ),
        )

    -- Choose finds a carrier whenever a candidate can carry the protocol, and it is the best: it can
    -- carry the protocol itself, and whichever candidate can, its score is not higher than that of the
    -- carrier, and if the scores are the same it costs no less. Every score is taken at the candidate's
    -- own reading of the clock. The scores and the costs of the candidates that can carry the protocol
    -- are not NaN.
    pub choose-best :
        (o : Offered)
        → ((x : Offered) → Numbers F lower laws (rank x))
        → (d : Decision F lower) × (best : Offered) × (choose F lower ctx cs clock entries ≡ ok d)
          × Beats d best o
    unfolding choose filter_compatible ranking
    choose-best o numbers = first-Beats o (sort_stable F lower ranking) numbers refl (
        sort_stable-HeadFirst F lower laws ranking (
          All-weaken (Placed F lower ctx cs entries clock) (Numbers F lower laws) ranking
            (λ r p. subst (Numbers F lower laws) p.1 (numbers p.0)) ranking-Placed))
