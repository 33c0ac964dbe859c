-- ===== src/Conflict/Permute.antt =====
-- The result of `Resolve` does not depend on the order of its inputs.
use mathlib.Core.List.{Perm, Nodup, mem-map, filter_map}
use mathlib.Core.List.Perm
use mathlib.Core.Logic.{∥∥₁_elim}
use mathlib.Core.Path.{fun_ext}
use native.Mathlib.Decide.{ℕ_discrete}
use zoneroute.Base.{not, ◌&&◌, List, [], map, Option, none, some, ◌≡◌, ◌∙◌, ap, sym, if◌then◌else◌}
use zoneroute.Base.Lists.{any, filter, filter-perm, mem-filter}
use zoneroute.Base.Members.{unique_by}
use zoneroute.Text.{Text, same, trim_space}
use zoneroute.Text.Order.{lt_connected}
use zoneroute.Sort.{sort, Separates}
use zoneroute.Sort.Unique.{sort_unique}
use zoneroute.Dict.{Dict, lookup}
use zoneroute.Dnsname.{canonical}
use zoneroute.Conflict.{
  Route, Existing, Candidate, Decision, OwnedByCoreDns, decide, resolve, serve_all, by_name, older,
  undecided, canonical_zones,
}
use zoneroute.Conflict.Age.{older-StrictOrder, older-name, by_name-StrictOrder}
use zoneroute.Conflict.Eligible.{
  is_some, is_inside, is_served, reserved_decision, eligible, candidate_of, candidates-eligible,
  early_decision,
}
use zoneroute.Conflict.Served.{lookup-served_perm}
use zoneroute.Conflict.Queue.{route_names, Route-set, queue}
use zoneroute.Conflict.Decisions.{decide-names, decide-outcomes}

Decision-set : IsSet Decision
Decision-set = hlevel ℕ_discrete

Candidate-set : IsSet Candidate
Candidate-set = hlevel ℕ_discrete

-- The loops read the map `served` by its lookups alone.
module _ (domain : Text) (m n : Dict OwnedByCoreDns)
    (h : (z : Text) → lookup z m ≡ lookup z n) where
  eligible-lookup : eligible domain m ≡ eligible domain n
  unfolding eligible is_served
  eligible-lookup = fun_ext λ r.
      ap
        (λ (f : Text → Option OwnedByCoreDns).
          not (is_inside domain r) && not (any (λ z. is_some (f z)) (canonical_zones r.zones)))
        (fun_ext h)

  early-lookup : early_decision domain m ≡ early_decision domain n
  unfolding early_decision
  early-lookup = fun_ext λ r.
      ap
        (λ (f : Text → Option OwnedByCoreDns).
          if is_inside domain r
          then reserved_decision domain r
          else record (undecided r.name) { owned = filter_map f (canonical_zones r.zones) })
        (fun_ext h)

  queue-lookup : (rs : List Route) → queue domain m rs ≡ queue domain n rs
  unfolding queue
  queue-lookup rs = rw (candidates-eligible, candidates-eligible, eligible-lookup)

  decide-lookup : (rs : List Route) → decide domain m rs ≡ decide domain n rs
  decide-lookup rs =
      rw (decide-outcomes, decide-outcomes, eligible-lookup, early-lookup, queue-lookup)

module _ (domain : Text) (served : Dict OwnedByCoreDns) {rs ss : List Route} (p : Perm rs ss)
    (distinct : Nodup (route_names rs)) where
  candidates-Separates : Separates older (map candidate_of (filter (eligible domain served) rs))
  candidates-Separates a b ma mb h k = ∥∥₁_elim (mem-map.0 ma) (Candidate-set a b) λ (r, mr, e).
      ∥∥₁_elim (mem-map.0 mb) (Candidate-set a b) λ (s, ms, f).
        let same_name : r.name ≡ s.name =
          ap (λ (c : Candidate). c.name) e
          ∙ older-name a b h k
          ∙ sym (ap (λ (c : Candidate). c.name) f) in
        let kept = λ (x : Route). mem-filter (eligible domain served) rs {x = x} in
        sym e
        ∙ ap candidate_of (
            unique_by (λ (x : Route). x.name) rs Route-set distinct ((kept r).0 mr).0
              ((kept s).0 ms).0 same_name)
        ∙ f

  queue_perm : queue domain served rs ≡ queue domain served ss
  unfolding queue
  queue_perm =
      rw (candidates-eligible, candidates-eligible)
        (sort_unique older older-StrictOrder Candidate-set
          (Perm.map candidate_of (filter-perm (eligible domain served) p)) candidates-Separates)

  decide_perm : Perm (decide domain served rs) (decide domain served ss)
  decide_perm =
      rw (decide-outcomes, decide-outcomes, queue_perm)
        (Perm.append_right _ (
          Perm.map (early_decision domain served)
            (filter-perm (λ r. not (eligible domain served r)) p)))

  decide-Separates : Separates by_name (decide domain served rs)
  unfolding by_name
  decide-Separates a b ma mb h k =
      unique_by (λ (x : Decision). x.name) (decide domain served rs) Decision-set
        (Perm.nodup (Perm.symm (decide-names domain served rs)) distinct) ma mb
        (lt_connected a.name b.name h k)

-- The decisions are the same for every order of the routes and of the listeners, if the names of
-- the routes are distinct.
pub resolve_perm :
    {rs ss : List Route} {es fs : List Existing} (d : Text)
    → Perm rs ss
    → Perm es fs
    → Nodup (route_names rs)
    → resolve rs es d ≡ resolve ss fs d
unfolding resolve
resolve_perm {rs} {ss} {es} {fs} d p q distinct =
    let domain = canonical d in
    let sorted : sort by_name (decide domain (serve_all [] es) rs)
        ≡ sort by_name (decide domain (serve_all [] fs) ss) =
      ap (sort by_name)
        (decide-lookup domain (serve_all [] es) (serve_all [] fs) (λ z. lookup-served_perm z q) rs)
      ∙ sort_unique by_name by_name-StrictOrder Decision-set
          (decide_perm domain (serve_all [] fs) p distinct)
          (decide-Separates domain (serve_all [] fs) p distinct) in
    ap (λ (ds : List Decision). if same (trim_space d) [] then none else some ds) sorted
