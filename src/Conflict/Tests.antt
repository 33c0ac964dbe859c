-- ===== src/Conflict/Tests.antt =====
-- Runs of `Resolve` on a small cluster, and the theorems at concrete routes.
pub mod Removed
use mathlib.Core.List.{
  Mem, Mem-prop, Nodup, Perm, not-mem-nil, filter_map, mem-cons, mem-cons_self, mem-cons_of_mem,
}
use mathlib.Core.List.Perm
use mathlib.Core.Bool.{Bool-set}
use mathlib.Core.Logic.Or
use zoneroute.Base.{
  List, [], ◌∷◌, ◌++◌, true, false, ◌≡◌, ◌↔◌, refl, ap, sym, subst, arith, none, some,
}
use zoneroute.Base.Lists.{filter}
use zoneroute.Text.{Text, codes, same, has_suffix, trim_suffix, trim_space, to_lower}
use zoneroute.Text.Order.{lt}
use zoneroute.Sort.{sort, insert, IsSorted}
use zoneroute.Dict.{lookup, contains}
use zoneroute.Dict
use zoneroute.Dict.Distinct.{distinct, distinct-Nodup}
use zoneroute.Dnsname.{canonical}
use zoneroute.Conflict.{
  Route, Existing, Decision, ZoneConflict, undecided, canonical_zones, dedupe, serve_all, serve,
  triage, early_decisions, candidates, older, conflicts_with, claim, assign, by_name, decide,
  resolve, is_reserved, candidates_of, decided_of,
}
use zoneroute.Conflict.Zones.{canonical_zones_unique}
use zoneroute.Conflict.Eligible.{
  is_inside, is_served, reserved_decision, owned_decision, candidate_of,
}
use zoneroute.Conflict.Greedy.{outcomes, assign-outcomes, Tracks-nil}
use zoneroute.Conflict.Winners.{accepted_names}
use zoneroute.Conflict.Served.{IsLeast, served-IsLeast}
use zoneroute.Conflict.Spec.{IsFree}
use zoneroute.Conflict.Queue.{route_names}
use zoneroute.Conflict.Accepted.{IsOlder, older-IsOlder, Disjoint, accepted_iff, accepted-Disjoint}
use zoneroute.Conflict.Decisions.{
  decision_names, states, resolve-names, resolve-states, resolve-none_iff,
}
use zoneroute.Conflict.Newer.{resolve_newest}
use zoneroute.Conflict.Permute.{resolve_perm}
use zoneroute.Conflict.Reports.{LostTo, resolve-LostTo}
use zoneroute.Conflict.Forbidden.{Told}
use zoneroute.Conflict.Told.{resolve-Told}

abbrev old_route : Route
old_route = record {
  name = codes "b";
  created = 1;
  zones = codes "Example.COM" ∷ codes "x.org" ∷ [];
}

abbrev new_route : Route
new_route = record { name = codes "a"; created = 2; zones = codes "example.com." ∷ [] }

abbrev inside_route : Route
inside_route = record {
  name = codes "c";
  created = 0;
  zones = codes "svc.Cluster.local" ∷ codes "z" ∷ [];
}

abbrev served_route : Route
served_route = record { name = codes "d"; created = 0; zones = codes "corp" ∷ [] }

abbrev other_route : Route
other_route = record { name = codes "e"; created = 3; zones = codes "other.net" ∷ [] }

abbrev routes : List Route
routes = new_route ∷ served_route ∷ old_route ∷ inside_route ∷ other_route ∷ []

abbrev listeners : List Existing
listeners =
    record { transport = codes "dns"; zone = codes "Corp"; port = 53; source = codes "b.server" }
    ∷ record { transport = codes "dns"; zone = codes "corp."; port = 53; source = codes "a.server" }
    ∷ record { transport = codes "tls"; zone = codes "x.org"; port = 53; source = codes "c.server" }
    ∷ []

abbrev cluster : Text
cluster = codes "cluster.local"

zones_run : canonical_zones (codes "B." ∷ codes "a" ∷ codes "b" ∷ []) ≡ codes "a." ∷ codes "b." ∷ []
unfolding canonical_zones dedupe contains canonical trim_suffix to_lower same sort insert lt
zones_run = refl

abbrev loss : ZoneConflict
loss = record { zone = codes "example.com."; winner = codes "b" }

abbrev decisions : List Decision
decisions =
    record (undecided (codes "a")) { conflicts = loss ∷ [] }
    ∷ record (undecided (codes "b")) { accepted = true }
    ∷ record (undecided (codes "c")) { reserved = codes "svc.cluster.local." ∷ [] }
    ∷ record (undecided (codes "d")) {
      owned = record { zone = codes "corp."; port = 53; source = codes "a.server" } ∷ [];
    }
    ∷ record (undecided (codes "e")) { accepted = true }
    ∷ []

resolve_run : resolve routes listeners cluster ≡ some decisions
unfolding resolve trim_space same decide serve_all serve lookup Dict.insert early_decisions
    candidates triage canonical_zones dedupe contains canonical trim_suffix to_lower sort insert lt
    is_reserved has_suffix candidates_of decided_of older conflicts_with claim assign by_name filter
    filter_map
resolve_run = refl

routes-Nodup : Nodup (route_names routes)
unfolding distinct contains same
routes-Nodup = distinct-Nodup (route_names routes) refl

accepted_iff_example : Mem (codes "b") (accepted_names decisions) ↔ (
    IsFree (canonical cluster) listeners old_route
    × ((s : Route)
        → Mem s routes
        → Mem s.name (accepted_names decisions)
        → IsOlder s old_route
        → Disjoint old_route s))
accepted_iff_example =
    accepted_iff routes listeners cluster decisions routes-Nodup resolve_run old_route
      (mem-cons_of_mem _ (mem-cons_of_mem _ mem-cons_self))

accepted-Disjoint_example : Disjoint old_route other_route
unfolding accepted_names filter filter_map
accepted-Disjoint_example =
    accepted-Disjoint routes listeners cluster decisions routes-Nodup resolve_run old_route
      other_route (mem-cons_of_mem _ (mem-cons_of_mem _ mem-cons_self))
      (mem-cons_of_mem _ (mem-cons_of_mem _ (mem-cons_of_mem _ (mem-cons_of_mem _ mem-cons_self))))
      mem-cons_self (mem-cons_of_mem _ mem-cons_self)
      (λ e. omega (arith, ap (λ (r : Route). r.created) e))

resolve_perm_example :
    resolve routes listeners cluster
    ≡ resolve
        (served_route ∷ new_route ∷ old_route ∷ inside_route ∷ other_route ∷ [])
        listeners
        cluster
resolve_perm_example =
    resolve_perm cluster
      (Perm.swap served_route new_route (old_route ∷ inside_route ∷ other_route ∷ []))
      (Perm.refl listeners) routes-Nodup

resolve-LostTo_example :
    LostTo routes decisions (record (undecided (codes "a")) { conflicts = loss ∷ [] }) loss
resolve-LostTo_example =
    resolve-LostTo routes listeners cluster decisions routes-Nodup resolve_run
      (record (undecided (codes "a")) { conflicts = loss ∷ [] }) loss mem-cons_self mem-cons_self

resolve-names_example :
    Perm (decision_names decisions) (route_names routes) × IsSorted by_name decisions
resolve-names_example = resolve-names routes listeners cluster decisions resolve_run

resolve-states_example : states (record (undecided (codes "b")) { accepted = true }) ≡ 1
resolve-states_example =
    resolve-states routes listeners cluster decisions resolve_run
      (record (undecided (codes "b")) { accepted = true }) (mem-cons_of_mem _ mem-cons_self)

-- The route with a zone in the cluster domain.
abbrev inside_decision : Decision
inside_decision = record (undecided (codes "c")) { reserved = codes "svc.cluster.local." ∷ [] }

resolve-Told_example : Told (canonical cluster) listeners inside_route inside_decision
resolve-Told_example =
    resolve-Told routes listeners cluster decisions routes-Nodup resolve_run inside_route
      (mem-cons_of_mem _ (mem-cons_of_mem _ (mem-cons_of_mem _ mem-cons_self))) inside_decision
      (mem-cons_of_mem _ (mem-cons_of_mem _ mem-cons_self)) refl

abbrev two_routes : List Route
two_routes = new_route ∷ old_route ∷ []

abbrev two_decisions : List Decision
two_decisions =
    record (undecided (codes "a")) { conflicts = loss ∷ [] }
    ∷ record (undecided (codes "b")) { accepted = true }
    ∷ []

two_run : resolve two_routes listeners cluster ≡ some two_decisions
unfolding resolve trim_space same decide serve_all serve lookup Dict.insert early_decisions
    candidates triage canonical_zones dedupe contains canonical trim_suffix to_lower sort insert lt
    is_reserved has_suffix candidates_of decided_of older conflicts_with claim assign by_name filter
    filter_map
two_run = refl

three_run :
    resolve (other_route ∷ two_routes) listeners cluster
    ≡ some (two_decisions ++ (record (undecided (codes "e")) { accepted = true } ∷ []))
unfolding resolve trim_space same decide serve_all serve lookup Dict.insert early_decisions
    candidates triage canonical_zones dedupe contains canonical trim_suffix to_lower sort insert lt
    is_reserved has_suffix candidates_of decided_of older conflicts_with claim assign by_name filter
    filter_map
three_run = refl

two_older :
    (r : Route) → Mem r two_routes → older (candidate_of r) (candidate_of other_route) ≡ true
unfolding older
two_older r m =
    Or.elim (Bool-set _ _) (mem-cons.0 m) (λ e. rw (e, older) refl)
      λ n.
        Or.elim (Bool-set _ _) (mem-cons.0 n) (λ e. rw (e, older) refl) λ o. absurd (not-mem-nil o)

two_IsOlder : (r : Route) → Mem r two_routes → IsOlder r other_route
two_IsOlder r m = (older-IsOlder r other_route).0 (two_older r m)

resolve_newest_example :
    (x : Decision) × (x.name ≡ codes "e")
    × Perm
        (two_decisions ++ (record (undecided (codes "e")) { accepted = true } ∷ []))
        (x ∷ two_decisions)
resolve_newest_example =
    resolve_newest other_route two_routes listeners cluster two_decisions
      (two_decisions ++ (record (undecided (codes "e")) { accepted = true } ∷ [])) two_IsOlder
      two_run three_run
