-- ===== src/Conflict/Told.antt =====
-- internal/conflict/conflict.go: what a decision tells the owner of a route about zones that nobody
-- may have.
use mathlib.Core.List.{
  Mem, Nodup, mem-append, mem-cons, mem-cons_of_mem, mem-cons_self, mem-map, not-mem-nil,
}
use mathlib.Core.List.Perm
use mathlib.Core.Logic.Or
use mathlib.Core.Logic.{∥∥₁_elim, ∥∥₁_map}
use native.Mathlib.Decide.{ℕ_discrete}
use zoneroute.Base.{
  true, false, not, List, [], ◌∷◌, map, some, ◌≡◌, refl, ◌∙◌, ap, sym, subst, inl, inr, arith,
  Bool-cases,
}
use zoneroute.Base.Lists.{filter, mem-filter}
use zoneroute.Base.Members.{unique_by, ne_true}
use zoneroute.Text.{Text}
use zoneroute.Dict.{Dict}
use zoneroute.Dnsname.{canonical}
use zoneroute.Conflict.{
  Route, Existing, Candidate, Decision, OwnedByCoreDns, resolve, serve_all, decide, by_name,
}
use zoneroute.Conflict.Eligible.{eligible, early_decision}
use zoneroute.Conflict.Greedy.{outcomes, blocked}
use zoneroute.Conflict.Newer.{early_name}
use zoneroute.Conflict.Queue.{route_names, queue, mem-queue, resolve-some, Route-set}
use zoneroute.Conflict.Decisions.{decide-outcomes}
use zoneroute.Sort.Unique.{sort-perm}
use zoneroute.Conflict.Forbidden.{Told, early-Told, free-Told}

-- A decision of the last loop is on a candidate, and names no zone that nobody may have.
abbrev Silent : List Candidate → Decision → Type 0
Silent cs x =
    ∥ ((c : Candidate) × Mem c cs × (c.name ≡ x.name) × (x.reserved ≡ []) × (x.owned ≡ [])) ∥₁

Silent-cons : (c : Candidate) (cs : List Candidate) (x : Decision) → Silent cs x → Silent (c ∷ cs) x
Silent-cons c cs x s = ∥∥₁_map s λ (a, m, e, f, g). (a, mem-cons_of_mem c m, e, f, g)

outcomes-Silent :
    (cs taken : List Candidate) (x : Decision) → Mem x (outcomes taken cs) → Silent cs x
unfolding outcomes
outcomes-Silent [] taken x m = absurd (not-mem-nil m)
outcomes-Silent (c ∷ cs) taken x m = elim (Bool-cases (blocked taken c)) [
  | inl e ↦
      Or.elim squash₁ (mem-cons.0 (rw (e, outcomes) at m))
        (λ p. subst (Silent (c ∷ cs)) (sym p) ∣ (c, mem-cons_self, refl, refl, refl) ∣₁)
        (λ n. Silent-cons c cs x (outcomes-Silent cs taken x n))
  | inr e ↦
      Or.elim squash₁ (mem-cons.0 (rw (e, outcomes) at m))
        (λ p. subst (Silent (c ∷ cs)) (sym p) ∣ (c, mem-cons_self, refl, refl, refl) ∣₁)
        (λ n. Silent-cons c cs x (outcomes-Silent cs (c ∷ taken) x n))
]

module _ (domain : Text) (es : List Existing) (rs : List Route) (distinct : Nodup (route_names rs))
    (r : Route) (listed : Mem r rs) (x : Decision) (named : x.name ≡ r.name) where
  abbrev served : Dict OwnedByCoreDns
  served = serve_all [] es

  -- A decision of the first loop under the route's name is the route's.
  early_own :
      Mem x (map (early_decision domain served) (filter (λ s. not (eligible domain served s)) rs))
      → (eligible domain served r ≡ false) × (x ≡ early_decision domain served r)
  early_own m = ∥∥₁_elim (mem-map.0 m) (hlevel ℕ_discrete) λ (s, n, e).
      let (ms, t) = (mem-filter (λ s. not (eligible domain served s)) rs).0 n in
      let own : s ≡ r =
        unique_by (λ (y : Route). y.name) rs Route-set distinct ms listed
          (sym (early_name domain served s) ∙ ap (λ (y : Decision). y.name) e ∙ named) in
      (
        subst (λ y. eligible domain served y ≡ false) own (ground (arith, t)),
        subst (λ y. x ≡ early_decision domain served y) own (sym e),
      )

  -- A decision of the last loop under the route's name is the route's.
  late_own :
      Mem x (outcomes [] (queue domain served rs))
      → (eligible domain served r ≡ true) × (x.reserved ≡ []) × (x.owned ≡ [])
  late_own m =
      ∥∥₁_elim (outcomes-Silent (queue domain served rs) [] x m) (hlevel ℕ_discrete)
        λ (c, n, e, no_reserved, no_owned).
          ∥∥₁_elim ((mem-queue domain served rs c).0 n) (hlevel ℕ_discrete) λ (s, ms, t, q). (
            subst (λ y. eligible domain served y ≡ true)
                (unique_by (λ (y : Route). y.name) rs Route-set distinct ms listed
                  (ap (λ (y : Candidate). y.name) q ∙ e ∙ named))
                t,
            no_reserved,
            no_owned,
          )

  decide-Told : Mem x (decide domain served rs) → Told domain es r x
  decide-Told m =
      let parts = mem-append.0 (subst (Mem x) (decide-outcomes domain served rs) m) in
      elim (Bool-cases (eligible domain served r)) [
        | inl t ↦
            let (no_reserved, no_owned) : (x.reserved ≡ []) × (x.owned ≡ []) =
              Or.elim (hlevel ℕ_discrete) parts (λ n. absurd (ne_true (early_own n).0 t))
                (λ n. ((late_own n).1, (late_own n).2)) in
            free-Told domain es r x t no_reserved no_owned
        | inr t ↦
            let own : x ≡ early_decision domain served r =
              Or.elim (hlevel ℕ_discrete) parts (λ n. (early_own n).1)
                (λ n. absurd (ne_true t (late_own n).0)) in
            subst (Told domain es r) (sym own) (early-Told domain es r t)
      ]

-- Suppose that the routes have distinct names and that `Resolve` returns decisions. The decision on
-- a route names as reserved exactly the zones of the route that lie in the cluster domain. If the
-- route has none there, it names as owned exactly its zones that a listener serves as plain DNS on
-- port 53, each with that port and the bytewise smallest source; else it names none as owned.
pub resolve-Told :
    (rs : List Route) (es : List Existing) (d : Text) (ds : List Decision)
    → Nodup (route_names rs)
    → resolve rs es d ≡ some ds
    → (r : Route) → Mem r rs
    → (x : Decision) → Mem x ds
    → x.name ≡ r.name
    → Told (canonical d) es r x
resolve-Told rs es d ds distinct ran r mr x mx named =
    let domain = canonical d in
    decide-Told domain es rs distinct r mr x named (
      (Perm.mem_iff (sort-perm by_name (decide domain (serve_all [] es) rs))).0
        (subst (Mem x) (resolve-some rs es d ds ran) mx))
