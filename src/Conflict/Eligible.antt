-- ===== src/Conflict/Eligible.antt =====
-- The first loop of `Resolve`: which routes become candidates.
use mathlib.Core.List.{filter_map}
use zoneroute.Base.{
  Bool, true, false, not, ◌&&◌, List, [], ◌∷◌, map, ◌≡◌, ◌⊎◌, refl, ap, Option, none, some, inl,
  inr, arith, if◌then◌else◌, Bool-cases, Option-cases,
}
use zoneroute.Base.Lists.{any, nonempty, filter}
use zoneroute.Text.{Text}
use zoneroute.Dict.{Dict, lookup}
use zoneroute.Conflict.{
  Route, Candidate, Decision, OwnedByCoreDns, rejected, admitted, undecided, canonical_zones,
  is_reserved, triage, decided_of, candidates_of, early_decisions, candidates,
}

abbrev pub is_some {ℓ} : {A : Type ℓ} → Option A → Bool
is_some none = false
is_some (some a) = true

-- Some zone of the route lies in the cluster domain.
unfoldable pub is_inside : Text → Route → Bool
unfolding any
is_inside domain r = any (is_reserved domain) (canonical_zones r.zones)

-- CoreDNS serves some zone of the route.
unfoldable pub is_served : Dict OwnedByCoreDns → Route → Bool
unfolding any
is_served served r = any (λ z. is_some (lookup z served)) (canonical_zones r.zones)

unfoldable pub eligible : Text → Dict OwnedByCoreDns → Route → Bool
eligible domain served r = not (is_inside domain r) && not (is_served served r)

abbrev pub candidate_of : Route → Candidate
candidate_of r = record { name = r.name; created = r.created; zones = canonical_zones r.zones }

module _ {ℓ} {A : Type ℓ} where
  filter-any-false : (p : A → Bool) (l : List A) → any p l ≡ false → filter p l ≡ []
  unfolding any filter
  filter-any-false p [] h = refl
  filter-any-false p (x ∷ xs) h = ground (arith, filter-any-false p xs)

  filter-any-true :
      (p : A → Bool) (l : List A) → any p l ≡ true → (y : A) × (ys : List A) × (filter p l ≡ y ∷ ys)
  unfolding any filter
  filter-any-true p [] h = cc
  filter-any-true p (x ∷ xs) h = elim (Bool-cases (p x)) [
    | inl e ↦ (x, filter p xs, rw e)
    | inr e ↦ rw e (filter-any-true p xs (rw e at h))
  ]

  filter_map-any-false {κ} :
      {B : Type κ} (f : A → Option B) (l : List A)
      → any (λ x. is_some (f x)) l ≡ false
      → filter_map f l ≡ []
  unfolding any filter_map
  filter_map-any-false f [] h = refl
  filter_map-any-false f (x ∷ xs) h = ground (arith, filter_map-any-false f xs)

  filter_map-any-true {κ} :
      {B : Type κ} (f : A → Option B) (l : List A)
      → any (λ x. is_some (f x)) l ≡ true
      → (y : B) × (ys : List B) × (filter_map f l ≡ y ∷ ys)
  unfolding any filter_map
  filter_map-any-true f [] h = cc
  filter_map-any-true f (x ∷ xs) h = elim (Option-cases (f x)) [
    | inl e ↦ rw e (filter_map-any-true f xs (rw e at h))
    | inr (b, e) ↦ (b, filter_map f xs, rw e)
  ]

-- An eligible route becomes the candidate with its canonical zones.
pub triage-eligible :
    (domain : Text) (served : Dict OwnedByCoreDns) (r : Route)
    → eligible domain served r ≡ true
    → triage domain served r ≡ admitted (candidate_of r)
unfolding eligible triage is_inside is_served
triage-eligible domain served r h =
    let zones = canonical_zones r.zones in
    let outside = filter-any-false (is_reserved domain) zones in
    let free = filter_map-any-false (λ z. lookup z served) zones in ground (arith, outside, free)

abbrev pub reserved_decision : Text → Route → Decision
reserved_decision domain r = record (undecided r.name) {
  reserved = filter (is_reserved domain) (canonical_zones r.zones);
}

abbrev pub owned_decision : Dict OwnedByCoreDns → Route → Decision
owned_decision served r = record (undecided r.name) {
  owned = filter_map (λ z. lookup z served) (canonical_zones r.zones);
}

-- A route inside the cluster domain is rejected with all its zones there.
pub triage-inside :
    (domain : Text) (served : Dict OwnedByCoreDns) (r : Route)
    → is_inside domain r ≡ true
    → triage domain served r ≡ rejected (reserved_decision domain r)
unfolding triage is_inside
triage-inside domain served r h =
    let (z, zs, e) = filter-any-true (is_reserved domain) (canonical_zones r.zones) h in cc e

-- A route outside it is rejected with all its zones that CoreDNS serves.
pub triage-served :
    (domain : Text) (served : Dict OwnedByCoreDns) (r : Route)
    → is_inside domain r ≡ false
    → is_served served r ≡ true
    → triage domain served r ≡ rejected (owned_decision served r)
unfolding triage is_inside is_served
triage-served domain served r out h =
    let zones = canonical_zones r.zones in
    let (o, os, e) = filter_map-any-true (λ z. lookup z served) zones h in
    cc (e, filter-any-false (is_reserved domain) zones out)

-- The decision of a route that is not eligible.
unfoldable pub early_decision : Text → Dict OwnedByCoreDns → Route → Decision
early_decision domain served r =
    if is_inside domain r then reserved_decision domain r else owned_decision served r

pub triage-ineligible :
    (domain : Text) (served : Dict OwnedByCoreDns) (r : Route)
    → eligible domain served r ≡ false
    → triage domain served r ≡ rejected (early_decision domain served r)
unfolding eligible early_decision
triage-ineligible domain served r h = elim (Bool-cases (is_inside domain r)) [
  | inl e ↦ rw e (triage-inside domain served r e)
  | inr e ↦ rw e (triage-served domain served r e (ground (arith, e)))
]

-- The candidates are the eligible routes, in the order of the input.
pub candidates-eligible :
    (domain : Text) (served : Dict OwnedByCoreDns) (rs : List Route)
    → candidates domain served rs ≡ map candidate_of (filter (eligible domain served) rs)
unfolding candidates candidates_of filter filter_map
candidates-eligible domain served [] = refl
candidates-eligible domain served (r ∷ rs) = elim (Bool-cases (eligible domain served r)) [
  | inl e ↦
      rw (e, triage-eligible domain served r e)
        (ap (◌∷◌ (candidate_of r)) (candidates-eligible domain served rs))
  | inr e ↦ rw (e, triage-ineligible domain served r e) (candidates-eligible domain served rs)
]

-- The other routes are decided by the first loop.
pub early_decisions-ineligible :
    (domain : Text) (served : Dict OwnedByCoreDns) (rs : List Route)
    → early_decisions domain served rs
      ≡ map (early_decision domain served) (filter (λ r. not (eligible domain served r)) rs)
unfolding early_decisions decided_of filter filter_map
early_decisions-ineligible domain served [] = refl
early_decisions-ineligible domain served (r ∷ rs) = elim (Bool-cases (eligible domain served r)) [
  | inl e ↦ rw (e, triage-eligible domain served r e) (early_decisions-ineligible domain served rs)
  | inr e ↦
      rw (e, triage-ineligible domain served r e)
        (ap (◌∷◌ (early_decision domain served r)) (early_decisions-ineligible domain served rs))
]

-- Such a decision shows a reserved zone or, if the route has none, a zone that is served.
pub early_cases :
    (domain : Text) (served : Dict OwnedByCoreDns) (r : Route)
    → eligible domain served r ≡ false
    → ((early_decision domain served r ≡ reserved_decision domain r)
        × (nonempty (reserved_decision domain r).reserved ≡ true))
      ⊎ ((early_decision domain served r ≡ owned_decision served r)
          × (nonempty (owned_decision served r).owned ≡ true))
unfolding eligible early_decision is_inside is_served nonempty
early_cases domain served r h = elim (Bool-cases (is_inside domain r)) [
  | inl e ↦
      let (z, zs, q) = filter-any-true (is_reserved domain) (canonical_zones r.zones) e in
      inl (rw e, rw q)
  | inr e ↦
      let zones = canonical_zones r.zones in
      let (o, os, q) = filter_map-any-true (λ z. lookup z served) zones (ground (arith, e)) in
      inr (rw e, rw q)
]
