-- ===== src/Controller/Status/Truth.antt =====
-- When the two conditions are true.
use mathlib.Core.List.{Mem}
use zoneroute.Base.{ℕ, Bool, true, List, [], ◌∷◌, some, ◌≡◌, refl, ◌∙◌, arith}
use zoneroute.Base.Lists.{nonempty}
use zoneroute.Text.{Text}
use zoneroute.Base.{◌≢◌, Option, some, false, true}
use zoneroute.Api.{Reason, condition_accepted, condition_published}
use zoneroute.Controller.Status.{
  PublishState, published_condition, published_reason, published_wired,
}
use zoneroute.Conflict.{Route, Existing, Decision, OwnedByCoreDns, ZoneConflict, resolve}
use zoneroute.Conflict.Decisions.{states, resolve-states}
use zoneroute.Corefile.{Import}
use zoneroute.Controller.Status.{
  accepted_condition, accepted_reserved, accepted_owned, accepted_conflicts, accepted_imports,
}

imports-status : (is : List Import) (g : ℕ) → (accepted_imports is g).status ≡ true
unfolding accepted_imports
imports-status [] g = refl
imports-status (i ∷ is) g = refl

states-status :
    (d : Decision) (is : List Import) (domain : Text) (g : ℕ)
    → states d ≡ 1
    → (accepted_condition d is domain g).status ≡ d.accepted
unfolding accepted_condition accepted_reserved accepted_owned accepted_conflicts states nonempty
states-status d is domain g h = go d.reserved d.owned d.conflicts d.accepted h
  where
    decision : List Text → List OwnedByCoreDns → List ZoneConflict → Bool → Decision
    decision zs os xs b = record {
      name = d.name;
      accepted = b;
      reserved = zs;
      owned = os;
      conflicts = xs;
    }

    go :
        (zs : List Text) (os : List OwnedByCoreDns) (xs : List ZoneConflict) (b : Bool)
        → states (decision zs os xs b) ≡ 1
        → (accepted_condition (decision zs os xs b) is domain g).status ≡ b
    go [] [] [] b k = imports-status is g ∙ ground (arith, k)
    go [] [] (x ∷ xs) b k = ground (arith, k)
    go [] (o ∷ os) xs b k = ground (arith, k)
    go (z ∷ zs) os xs b k = ground (arith, k)

-- The Accepted condition of a decision that `Resolve` returns is true exactly if the decision
-- accepts the route, whatever imports could not be inspected.
pub accepted_condition-accepted :
    (rs : List Route) (es : List Existing) (d : Text) (ds : List Decision)
    → resolve rs es d ≡ some ds
    → (x : Decision) → Mem x ds
    → (is : List Import) (domain : Text) (g : ℕ)
    → (accepted_condition x is domain g).status ≡ x.accepted
accepted_condition-accepted rs es d ds ran x m is domain g =
    states-status x is domain g (resolve-states rs es d ds ran x m)

pub accepted_condition-type :
    (d : Decision) (is : List Import) (domain : Text) (g : ℕ)
    → (accepted_condition d is domain g).type ≡ condition_accepted
unfolding accepted_condition accepted_reserved accepted_owned accepted_conflicts accepted_imports
accepted_condition-type d is domain g = go d.reserved d.owned d.conflicts is
  where
    go :
        (zs : List Text) (os : List OwnedByCoreDns) (xs : List ZoneConflict) (is : List Import)
        → (accepted_reserved
            (record {
              name = d.name;
              accepted = d.accepted;
              reserved = zs;
              owned = os;
              conflicts = xs;
            })
            zs
            is
            domain
            g).type
          ≡ condition_accepted
    go [] [] [] [] = refl
    go [] [] [] (i ∷ is) = refl
    go [] [] (x ∷ xs) is = refl
    go [] (o ∷ os) xs is = refl
    go (z ∷ zs) os xs is = refl

pub types_apart : condition_accepted ≢ condition_published
types_apart e = ground (arith, e)

pub published_condition-type :
    (accepted : Bool) (state : PublishState) (wired : Bool) (g : ℕ)
    → (published_condition accepted state wired g).type ≡ condition_published
unfolding published_condition published_wired
published_condition-type false state wired g = refl
published_condition-type true state wired g = reason-type state.reason
  where
    reason-type :
        (o : Option Reason) → (published_reason o state.detail wired g).type ≡ condition_published
    reason-type o = ground arith
