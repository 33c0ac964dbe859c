-- ===== src/Conflict/Greedy.antt =====
-- The last loop of `Resolve` against a greedy choice that keeps the accepted candidates
-- themselves in place of the map of owners.
use mathlib.Core.List.{filter_map}
use mathlib.Core.Path.{fun_ext}
use zoneroute.Base.{
  Bool, true, false, ◌||◌, List, [], ◌∷◌, ◌≡◌, refl, ◌∙◌, ap, sym, Option, none, some, inl, inr,
  arith, if◌then◌else◌, Bool-cases,
}
use zoneroute.Base.Lists.{any, nonempty}
use zoneroute.Text.{Text}
use zoneroute.Dict.{Dict, lookup, insert, contains, lookup-insert}
use zoneroute.Conflict.{
  Candidate, Decision, ZoneConflict, undecided, conflict_at, conflicts_with, claim, assign,
}

-- The latest of the accepted candidates that claims the zone.
unfoldable pub holder : Text → List Candidate → Option Text
holder z [] = none
holder z (c ∷ taken) = if contains c.zones z then some c.name else holder z taken

-- Two candidates claim a zone in common.
unfoldable pub clashes : Candidate → Candidate → Bool
clashes c a = any (contains a.zones) c.zones

unfoldable pub blocked : List Candidate → Candidate → Bool
unfolding any clashes
blocked taken c = any (clashes c) taken

-- The candidates that a greedy choice accepts, in their order.
unfoldable pub winners : List Candidate → List Candidate → List Candidate
winners taken [] = []
winners taken (c ∷ cs) = elim (blocked taken c) [
  | true ↦ winners taken cs
  | false ↦ c ∷ winners (c ∷ taken) cs
]

-- The zones of a candidate that are held, with their holders.
unfoldable pub losses : List Candidate → List Text → List ZoneConflict
losses taken zones = filter_map (λ z. conflict_at z (holder z taken)) zones

-- The decisions of the greedy choice.
unfoldable pub outcomes : List Candidate → List Candidate → List Decision
outcomes taken [] = []
outcomes taken (c ∷ cs) = elim (blocked taken c) [
  | true ↦ record (undecided c.name) { conflicts = losses taken c.zones } ∷ outcomes taken cs
  | false ↦ record (undecided c.name) { accepted = true } ∷ outcomes (c ∷ taken) cs
]

-- The map of owners knows of each zone who holds it.
abbrev pub Tracks : Dict Text → List Candidate → Type 0
Tracks owner taken = (z : Text) → lookup z owner ≡ holder z taken

lookup-claim :
    (zs : List Text) (name z : Text) (owner : Dict Text)
    → lookup z (claim name zs owner) ≡ (if contains zs z then some name else lookup z owner)
unfolding claim contains
lookup-claim [] name z owner = refl
lookup-claim (w ∷ zs) name z owner =
    ground (arith, lookup-claim zs name z (insert w name owner), lookup-insert w z name owner)

pub claim-Tracks :
    (c : Candidate) (owner : Dict Text) (taken : List Candidate)
    → Tracks owner taken
    → Tracks (claim c.name c.zones owner) (c ∷ taken)
unfolding holder
claim-Tracks c owner taken h z = rw (lookup-claim c.zones c.name z owner, h z)

pub Tracks-nil : Tracks [] []
unfolding lookup holder
Tracks-nil z = refl

-- Some accepted candidate claims the zone.
claimed : List Candidate → Text → Bool
unfolding any
claimed taken z = any (λ (a : Candidate). contains a.zones z) taken

holder-claimed :
    (taken : List Candidate) (z : Text) → claimed taken z ≡ false → holder z taken ≡ none
unfolding holder claimed
holder-claimed [] z h = refl
holder-claimed (a ∷ taken) z h = ground (arith, holder-claimed taken z)

claimed-holder :
    (taken : List Candidate) (z : Text)
    → claimed taken z ≡ true
    → (w : Text) × (holder z taken ≡ some w)
unfolding holder claimed
claimed-holder [] z h = cc
claimed-holder (a ∷ taken) z h = elim (Bool-cases (contains a.zones z)) [
  | inl e ↦ (a.name, rw e)
  | inr e ↦ rw e (claimed-holder taken z (rw e at h))
]

any-cons_or {ℓ κ} :
    {A : Type ℓ} {B : Type κ} (p : A → B → Bool) (x : A) (xs : List A) (ys : List B)
    → any (λ y. p x y || any (λ a. p a y) xs) ys
      ≡ (any (p x) ys || any (λ y. any (λ a. p a y) xs) ys)
unfolding any
any-cons_or p x xs [] = refl
any-cons_or p x xs (y ∷ ys) = ground (arith, any-cons_or p x xs ys)

any-none {ℓ} : {B : Type ℓ} (ys : List B) → any (λ y. false) ys ≡ false
unfolding any
any-none [] = refl
any-none (y ∷ ys) = any-none ys

blocked-claimed :
    (taken : List Candidate) (c : Candidate) → blocked taken c ≡ any (claimed taken) c.zones
unfolding blocked claimed
blocked-claimed [] c = sym (any-none c.zones)
blocked-claimed (a ∷ taken) c =
    ap (◌||◌ (clashes c a)) (blocked-claimed taken c)
    ∙ sym (any-cons_or (λ (b : Candidate). contains b.zones) a taken c.zones)

losses-nil :
    (taken : List Candidate) (zones : List Text)
    → any (claimed taken) zones ≡ false
    → losses taken zones ≡ []
unfolding losses any filter_map
losses-nil taken [] h = refl
losses-nil taken (z ∷ zs) h =
    rw (holder-claimed taken z (ground arith)) (losses-nil taken zs (ground arith))

losses-cons :
    (taken : List Candidate) (zones : List Text)
    → any (claimed taken) zones ≡ true
    → (x : ZoneConflict) × (xs : List ZoneConflict) × (losses taken zones ≡ x ∷ xs)
unfolding losses any filter_map
losses-cons taken [] h = cc
losses-cons taken (z ∷ zs) h = elim (Bool-cases (claimed taken z)) [
  | inl e ↦
      let (w, held) = claimed-holder taken z e in
      (record { zone = z; winner = w }, losses taken zs, rw held)
  | inr e ↦ rw (holder-claimed taken z e) (losses-cons taken zs (rw e at h))
]

conflicts_with-losses :
    (owner : Dict Text) (taken : List Candidate) (zones : List Text)
    → Tracks owner taken
    → conflicts_with owner zones ≡ losses taken zones
unfolding conflicts_with losses
conflicts_with-losses owner taken zones h =
    ap (λ (f : Text → Option Text). filter_map (λ z. conflict_at z (f z)) zones) (fun_ext h)

-- Suppose that the map of owners tells of each zone which of the accepted candidates holds it.
-- Then the last loop of `Resolve` decides on the other candidates as the greedy choice does.
pub assign-outcomes :
    (cs : List Candidate) (owner : Dict Text) (taken : List Candidate)
    → Tracks owner taken
    → assign owner cs ≡ outcomes taken cs
unfolding assign outcomes
assign-outcomes [] owner taken h = refl
assign-outcomes (c ∷ cs) owner taken h = elim (Bool-cases (blocked taken c)) [
  | inl e ↦
      let (x, xs, lost) = losses-cons taken c.zones (sym (blocked-claimed taken c) ∙ e) in
      let found = conflicts_with-losses owner taken c.zones h in
      cc (e, lost, found, assign-outcomes cs owner taken h)
  | inr e ↦
      let empty = losses-nil taken c.zones (sym (blocked-claimed taken c) ∙ e) in
      let found = conflicts_with-losses owner taken c.zones h in
      let rest =
        assign-outcomes cs (claim c.name c.zones owner) (c ∷ taken)
          (claim-Tracks c owner taken h) in
      ground (arith, e, empty, found, rest)
]

pub blocked-losses :
    (taken : List Candidate) (c : Candidate)
    → blocked taken c ≡ true
    → nonempty (losses taken c.zones) ≡ true
unfolding nonempty
blocked-losses taken c e =
    let (x, xs, lost) = losses-cons taken c.zones (sym (blocked-claimed taken c) ∙ e) in rw lost
