-- ===== src/Conflict/Queue.antt =====
-- The sorted candidates of a run, and what the run accepts among them.
use mathlib.Core.HLevel.{¬_prop}
use mathlib.Core.List.{
  Mem, Nodup, Pairwise, Perm, map-append, mem-map, filter_map, filter_map-append,
}
use mathlib.Core.List.Pairwise
use mathlib.Core.List.Perm
use mathlib.Core.Logic.{∥∥₁_map}
use native.Mathlib.Decide.{ℕ_discrete}
use zoneroute.Base.{
  true, false, List, [], ◌∷◌, ◌++◌, map, some, ◌≡◌, ◌≢◌, ◌↔◌, refl, ◌∙◌, sym, inl, inr, arith,
  Bool-cases,
}
use zoneroute.Base.Lists.{filter, mem-filter, filter-perm}
use zoneroute.Base.Members.{Pairwise-filter}
use zoneroute.Text.{Text}
use zoneroute.Sort.{sort}
use zoneroute.Sort.Unique.{sort-perm, sort-IsSorted, IsSorted-Pairwise}
use zoneroute.Dict.{Dict}
use zoneroute.Dnsname.{canonical}
use zoneroute.Conflict.{
  Route, Existing, Candidate, Decision, OwnedByCoreDns, candidates, early_decisions, older, by_name,
  decide, resolve, serve_all, assign,
}
use zoneroute.Conflict.Age.{older-StrictOrder, older-name}
use zoneroute.Conflict.Eligible.{
  eligible, candidate_of, candidates-eligible, early_decision, early_decisions-ineligible,
}
use zoneroute.Conflict.Greedy.{winners, assign-outcomes, Tracks-nil}
use zoneroute.Conflict.Winners.{
  accepted_names, candidate_names, accepted_names-outcomes, StrictlySorted,
}

abbrev pub route_names : List Route → List Text
route_names rs = map (λ (r : Route). r.name) rs

pub Route-set : IsSet Route
Route-set = hlevel ℕ_discrete

pub resolve-some :
    (rs : List Route) (es : List Existing) (d : Text) (ds : List Decision)
    → resolve rs es d ≡ some ds
    → ds ≡ sort by_name (decide (canonical d) (serve_all [] es) rs)
unfolding resolve
resolve-some rs es d ds h = ground arith

accepted_names-append :
    (ds es : List Decision) → accepted_names (ds ++ es) ≡ accepted_names ds ++ accepted_names es
unfolding accepted_names
accepted_names-append ds es = rw (filter_map-append, map-append)

accepted_names-perm :
    {ds es : List Decision} → Perm ds es → Perm (accepted_names ds) (accepted_names es)
unfolding accepted_names
accepted_names-perm p = Perm.map _ (filter-perm (λ (d : Decision). d.accepted) p)

early-not-accepted :
    (domain : Text) (served : Dict OwnedByCoreDns) (r : Route)
    → (early_decision domain served r).accepted ≡ false
unfolding early_decision
early-not-accepted domain served r = ground arith

accepted_names-early :
    (domain : Text) (served : Dict OwnedByCoreDns) (rs : List Route)
    → accepted_names (map (early_decision domain served) rs) ≡ []
unfolding accepted_names filter filter_map
accepted_names-early domain served [] = refl
accepted_names-early domain served (r ∷ rs) =
    ground (arith, early-not-accepted domain served r, accepted_names-early domain served rs)

module _ (domain : Text) (served : Dict OwnedByCoreDns) (rs : List Route) where
  -- The order in which the candidates are processed.
  unfoldable pub queue : List Candidate
  queue = sort older (candidates domain served rs)

  unfoldable pub accepted_candidates : List Candidate
  accepted_candidates = winners [] queue

  pub decide-accepted :
      accepted_names (decide domain served rs) ≡ candidate_names accepted_candidates
  unfolding decide accepted_candidates queue
  decide-accepted =
      accepted_names-append (early_decisions domain served rs) (assign [] queue)
      ∙ rw (early_decisions-ineligible, accepted_names-early)
          (rw (assign-outcomes queue [] [] Tracks-nil) (accepted_names-outcomes queue []))

  pub queue-perm : Perm queue (map candidate_of (filter (eligible domain served) rs))
  unfolding queue
  queue-perm = rw (← candidates-eligible) (sort-perm older (candidates domain served rs))

  -- The queue holds the candidates of the eligible routes.
  pub mem-queue :
      (c : Candidate)
      → Mem c queue
        ↔ ∥ ((r : Route) × Mem r rs × (eligible domain served r ≡ true) × (candidate_of r ≡ c)) ∥₁
  mem-queue c = (
    λ m.
        ∥∥₁_map (mem-map.0 ((Perm.mem_iff queue-perm).0 m)) (λ (r, n, e).
          let (mr, t) = (mem-filter (eligible domain served) rs).0 n in (r, mr, t, e)),
    λ t. (Perm.mem_iff queue-perm).1 (
        mem-map.1 (
          ∥∥₁_map t (λ (r, mr, t, e). (r, (mem-filter (eligible domain served) rs).1 (mr, t), e)))),
  )

  queue_names : Nodup (route_names rs) → Pairwise (λ (a b : Candidate). a.name ≢ b.name) queue
  queue_names distinct =
      Perm.pairwise (λ a b. ¬_prop) (λ a b h e. h (sym e)) (Perm.symm queue-perm)
        (Pairwise.map (λ a b. ¬_prop) candidate_of (λ a b h. h)
          (Pairwise-filter (eligible domain served)
            (Pairwise.of_map' (λ (r : Route). r.name) distinct)))

  -- Of two candidates in the queue the first is older, if the names are distinct.
  pub queue-StrictlySorted : Nodup (route_names rs) → StrictlySorted queue
  queue-StrictlySorted distinct =
      Pairwise.imp₂ strictly
        (IsSorted-Pairwise older older-StrictOrder queue
          (unfold queue in sort-IsSorted older older-StrictOrder (candidates domain served rs)))
        (queue_names distinct)
    where
      strictly : (a b : Candidate) → older b a ≡ false → a.name ≢ b.name → older a b ≡ true
      strictly a b h ne = elim (Bool-cases (older a b)) [
        | inl e ↦ e
        | inr e ↦ absurd (ne (older-name a b e h))
      ]

pub resolve-accepted :
    (rs : List Route) (es : List Existing) (d : Text) (ds : List Decision)
    → resolve rs es d ≡ some ds
    → Perm
        (accepted_names ds)
        (candidate_names (accepted_candidates (canonical d) (serve_all [] es) rs))
resolve-accepted rs es d ds h =
    rw (resolve-some rs es d ds h, ← decide-accepted)
      (accepted_names-perm (sort-perm by_name (decide (canonical d) (serve_all [] es) rs)))
