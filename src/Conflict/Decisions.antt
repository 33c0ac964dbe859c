-- ===== src/Conflict/Decisions.antt =====
-- The list of decisions as a whole: when there is one, whose it is, and its order.
use mathlib.Core.List.{
  Mem, Perm, perm_middle, map-append, filter_map, mem-cons, mem-append, mem-map, not-mem-nil,
}
use mathlib.Core.List.Perm
use mathlib.Core.Logic.Or
use mathlib.Core.Logic.{∥∥₁_elim}
use native.Mathlib.Nat.{ℕ_set}
use zoneroute.Base.{
  ℕ, ◌+◌, Bool, true, false, not, List, [], ◌∷◌, ◌++◌, map, none, some, ◌≡◌, ◌↔◌, ◌⊎◌, refl, ap,
  subst, inl, inr, arith, Bool-cases,
}
use zoneroute.Base.Lists.{filter, nonempty, mem-filter}
use zoneroute.Text.{Text, trim_space}
use zoneroute.Text.Order.{same_iff}
use zoneroute.Sort.{IsSorted}
use zoneroute.Sort.Unique.{sort-perm, sort-IsSorted}
use zoneroute.Dict.{Dict}
use zoneroute.Dnsname.{canonical}
use zoneroute.Conflict.{
  Route, Existing, Candidate, Decision, OwnedByCoreDns, decide, resolve, serve_all, by_name,
}
use zoneroute.Conflict.Age.{by_name-StrictOrder}
use zoneroute.Conflict.Eligible.{
  eligible, candidate_of, early_decision, early_decisions-ineligible, reserved_decision,
  owned_decision, early_cases,
}
use zoneroute.Conflict.Greedy.{outcomes, assign-outcomes, Tracks-nil, blocked, blocked-losses}
use zoneroute.Conflict.Winners.{candidate_names, names-outcomes}
use zoneroute.Conflict.Queue.{queue, queue-perm, route_names, resolve-some}

abbrev pub decision_names : List Decision → List Text
decision_names ds = map (λ (d : Decision). d.name) ds

-- `Resolve` fails exactly when the cluster domain is empty or blank.
pub resolve-none_iff :
    (rs : List Route) (es : List Existing) (d : Text)
    → (resolve rs es d ≡ none) ↔ (trim_space d ≡ [])
unfolding resolve
resolve-none_iff rs es d = ground (arith, same_iff (trim_space d) [])

-- The names of the items that pass the test and of those that do not are all the names.
names_split {ℓ κ} :
    {A : Type ℓ} {K : Type κ} (p : A → Bool) (key : A → K) (l : List A)
    → Perm (map key (filter (λ x. not (p x)) l) ++ map key (filter p l)) (map key l)
unfolding filter filter_map
names_split p key [] = Perm.refl []
names_split p key (x ∷ l) = elim (Bool-cases (p x)) [
  | inl e ↦ rw e (Perm.trans (perm_middle _ _) (Perm.cons (key x) (names_split p key l)))
  | inr e ↦ rw e (Perm.cons (key x) (names_split p key l))
]

early_names :
    (domain : Text) (served : Dict OwnedByCoreDns) (rs : List Route)
    → decision_names (map (early_decision domain served) rs) ≡ route_names rs
unfolding early_decision
early_names domain served [] = refl
early_names domain served (r ∷ rs) = ground (arith, early_names domain served rs)

candidate_of_names : (rs : List Route) → candidate_names (map candidate_of rs) ≡ route_names rs
candidate_of_names [] = refl
candidate_of_names (r ∷ rs) = ap (◌∷◌ r.name) (candidate_of_names rs)

module _ (domain : Text) (served : Dict OwnedByCoreDns) (rs : List Route) where
  -- The decisions before the last sort, without the loops.
  pub decide-outcomes :
      decide domain served rs
      ≡ map (early_decision domain served) (filter (λ r. not (eligible domain served r)) rs)
        ++ outcomes [] (queue domain served rs)
  unfolding decide queue
  decide-outcomes = rw (
    early_decisions-ineligible,
    reserved_decision,
    owned_decision,
    assign-outcomes (queue domain served rs) [] [] Tracks-nil,
  )

  pub decide-names : Perm (decision_names (decide domain served rs)) (route_names rs)
  decide-names =
      rw (decide-outcomes, map-append, early_names, names-outcomes)
        (Perm.trans (Perm.append_left _ (Perm.map _ (queue-perm domain served rs)))
          (rw candidate_of_names (names_split (eligible domain served) (λ (r : Route). r.name) rs)))

-- Suppose that `Resolve` returns decisions. Their names are those of the routes, each as often,
-- and they come sorted by name.
pub resolve-names :
    (rs : List Route) (es : List Existing) (d : Text) (ds : List Decision)
    → resolve rs es d ≡ some ds
    → Perm (decision_names ds) (route_names rs) × IsSorted by_name ds
resolve-names rs es d ds ran =
    let all = decide (canonical d) (serve_all [] es) rs in
    rw (resolve-some rs es d ds ran) (
      Perm.trans (Perm.map _ (sort-perm by_name all))
          (decide-names (canonical d) (serve_all [] es) rs),
      sort-IsSorted by_name by_name-StrictOrder all,
    )

abbrev bit : Bool → ℕ
bit true = 1
bit false = 0

-- The number of the states Reserved, Owned, Conflicts and Accepted that a decision shows.
unfoldable pub states : Decision → ℕ
unfolding nonempty
states d =
    bit d.accepted + bit (nonempty d.reserved) + bit (nonempty d.owned) + bit (nonempty d.conflicts)

outcomes-states :
    (cs taken : List Candidate) (d : Decision) → Mem d (outcomes taken cs) → states d ≡ 1
unfolding outcomes
outcomes-states [] taken d m = absurd (not-mem-nil m)
outcomes-states (c ∷ cs) taken d m = elim (Bool-cases (blocked taken c)) [
  | inl e ↦
      Or.elim (ℕ_set _ _) (mem-cons.0 (rw (e, outcomes) at m))
        (λ p. let k = blocked-losses taken c e in unfold states in rw (p, k))
        (outcomes-states cs taken d)
  | inr e ↦
      Or.elim (ℕ_set _ _) (mem-cons.0 (rw (e, outcomes) at m)) (λ p. unfold states in rw p)
        (outcomes-states cs (c ∷ taken) d)
]

early-states :
    (domain : Text) (served : Dict OwnedByCoreDns) (rs : List Route) (d : Decision)
    → Mem d (map (early_decision domain served) (filter (λ r. not (eligible domain served r)) rs))
    → states d ≡ 1
early-states domain served rs d m = ∥∥₁_elim (mem-map.0 m) (ℕ_set _ _) λ (r, n, e).
    let (_, t) = (mem-filter (λ r. not (eligible domain served r)) rs).0 n in
    let rejected = early_cases domain served r (ground (arith, t)) in
    subst (λ x. states x ≡ 1) e (one_state r rejected)
  where
    one_state :
        (r : Route)
        → ((early_decision domain served r ≡ reserved_decision domain r)
            × (nonempty (reserved_decision domain r).reserved ≡ true))
          ⊎ ((early_decision domain served r ≡ owned_decision served r)
              × (nonempty (owned_decision served r).owned ≡ true))
        → states (early_decision domain served r) ≡ 1
    one_state r (inl (e, k)) = unfold states in rw (e, k)
    one_state r (inr (e, k)) = unfold states in rw (e, k)

-- Suppose that `Resolve` returns decisions. Exactly one state holds of each: it shows reserved
-- zones, or zones that CoreDNS owns, or conflicts, or that the route is accepted.
pub resolve-states :
    (rs : List Route) (es : List Existing) (d : Text) (ds : List Decision)
    → resolve rs es d ≡ some ds
    → (x : Decision) → Mem x ds
    → states x ≡ 1
resolve-states rs es d ds ran x m =
    let domain = canonical d in
    let served = serve_all [] es in
    let unsorted = Perm.mem_iff (sort-perm by_name (decide domain served rs)) in
    let m' = unsorted.0 (subst (Mem x) (resolve-some rs es d ds ran) m) in
    Or.elim (ℕ_set _ _) (mem-append.0 (subst (Mem x) (decide-outcomes domain served rs) m'))
      (early-states domain served rs x) (outcomes-states (queue domain served rs) [] x)
