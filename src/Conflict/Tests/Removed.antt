-- ===== src/Conflict/Tests/Removed.antt =====
-- A rejected route is removed.
use mathlib.Core.List.{Mem, Perm, mem-cons, not-mem-nil}
use mathlib.Core.Bool.{Bool-set}
use mathlib.Core.Logic.Or
use zoneroute.Base.{ℕ, Bool, true, false, List, [], ◌∷◌, some, ◌≡◌, refl, ap, sym, ◌∙◌}
use zoneroute.Base.{◌≢◌}
use zoneroute.Base.Members.{ne_true}
use zoneroute.Text.{Text, codes, same}
use zoneroute.Text.Order.{same_iff}
use zoneroute.Conflict.{Route, Decision, undecided, resolve}
use zoneroute.Conflict.Dropped.{IsRejected, resolve-Dropped}

abbrev domain : Text
domain = codes "cluster.local."

abbrev route_of : Text → ℕ → Text → Route
route_of name created zone = record { name = name; created = created; zones = zone ∷ [] }

-- The second route loses its zone to the first, and the third loses nothing by it.
abbrev others : List Route
others = route_of (codes "a") 1 (codes "corp") ∷ route_of (codes "c") 3 (codes "lab") ∷ []

abbrev loser : Route
loser = route_of (codes "b") 2 (codes "CORP.")

abbrev accepted_as : Text → Decision
accepted_as name = record (undecided name) { accepted = true }

abbrev lost : Decision
lost = record (undecided (codes "b")) {
  conflicts = record { zone = codes "corp."; winner = codes "a" } ∷ [];
}

abbrev with_loser : List Decision
with_loser = accepted_as (codes "a") ∷ lost ∷ accepted_as (codes "c") ∷ []

abbrev without_loser : List Decision
without_loser = accepted_as (codes "a") ∷ accepted_as (codes "c") ∷ []

with_run : resolve (loser ∷ others) [] domain ≡ some with_loser
unfolding resolve zoneroute.Text.same zoneroute.Text.trim_space zoneroute.Sort.sort
    zoneroute.Conflict.decide zoneroute.Conflict.early_decisions zoneroute.Conflict.triage
    zoneroute.Base.Lists.filter zoneroute.Conflict.canonical_zones zoneroute.Conflict.dedupe
    zoneroute.Dict.contains zoneroute.Sort.insert zoneroute.Conflict.is_reserved
    zoneroute.Dnsname.canonical zoneroute.Text.to_lower zoneroute.Text.trim_suffix
    zoneroute.Text.has_suffix mathlib.Core.List.filter_map mathlib.Core.Option.Option-elim
    zoneroute.Conflict.assign zoneroute.Conflict.by_name zoneroute.Conflict.candidates
    zoneroute.Conflict.candidates_of zoneroute.Conflict.claim zoneroute.Conflict.conflicts_with
    zoneroute.Conflict.decided_of zoneroute.Conflict.is_own_listener zoneroute.Conflict.older
    zoneroute.Conflict.replaces zoneroute.Conflict.serve zoneroute.Conflict.serve_all
    zoneroute.Conflict.triage_owned zoneroute.Conflict.triage_reserved zoneroute.Dict.insert
    zoneroute.Dict.lookup zoneroute.Text.Order.lt
with_run = refl

without_run : resolve others [] domain ≡ some without_loser
unfolding resolve zoneroute.Text.same zoneroute.Text.trim_space zoneroute.Sort.sort
    zoneroute.Conflict.decide zoneroute.Conflict.early_decisions zoneroute.Conflict.triage
    zoneroute.Base.Lists.filter zoneroute.Conflict.canonical_zones zoneroute.Conflict.dedupe
    zoneroute.Dict.contains zoneroute.Sort.insert zoneroute.Conflict.is_reserved
    zoneroute.Dnsname.canonical zoneroute.Text.to_lower zoneroute.Text.trim_suffix
    zoneroute.Text.has_suffix mathlib.Core.List.filter_map mathlib.Core.Option.Option-elim
    zoneroute.Conflict.assign zoneroute.Conflict.by_name zoneroute.Conflict.candidates
    zoneroute.Conflict.candidates_of zoneroute.Conflict.claim zoneroute.Conflict.conflicts_with
    zoneroute.Conflict.decided_of zoneroute.Conflict.is_own_listener zoneroute.Conflict.older
    zoneroute.Conflict.replaces zoneroute.Conflict.serve zoneroute.Conflict.serve_all
    zoneroute.Conflict.triage_owned zoneroute.Conflict.triage_reserved zoneroute.Dict.insert
    zoneroute.Dict.lookup zoneroute.Text.Order.lt
without_run = refl

other_name :
    (name : Text) (x : Decision)
    → x ≡ accepted_as name
    → same name (codes "b") ≡ false
    → x.name ≢ codes "b"
other_name name x p apart e =
    ne_true apart ((same_iff name (codes "b")).1 (sym (ap (λ (d : Decision). d.name) p) ∙ e))

lost-IsRejected : IsRejected (codes "b") with_loser
unfolding same
lost-IsRejected x m e =
    Or.elim (Bool-set _ _) (mem-cons.0 m) (λ p. absurd (other_name (codes "a") x p refl e))
      λ r.
        Or.elim (Bool-set _ _) (mem-cons.0 r) (λ p. ap (λ (d : Decision). d.accepted) p)
          λ t.
            Or.elim (Bool-set _ _) (mem-cons.0 t) (λ p. absurd (other_name (codes "c") x p refl e))
              (λ q. absurd (not-mem-nil q))

resolve-Dropped_example :
    (x : Decision) × (x.name ≡ codes "b") × Perm with_loser (x ∷ without_loser)
resolve-Dropped_example =
    resolve-Dropped loser others [] domain with_loser without_loser with_run without_run
      lost-IsRejected
