-- ===== src/Conflict/Accepted.antt =====
-- Which routes `Resolve` accepts.
use mathlib.Core.HLevel.{×_prop}
use mathlib.Core.Bool.{Bool-set}
use mathlib.Core.List.{Mem, Mem-prop, Nodup, mem-map, mem-map_of_mem}
use mathlib.Core.List.Perm
use mathlib.Core.Logic.{∥∥₁_elim}
use zoneroute.Base.{
  ◌<◌, true, false, List, [], ◌≡◌, ◌≢◌, ◌↔◌, ◌⊎◌, inl, inr, refl, ◌∙◌, ap, sym, subst, some, arith,
  Bool-cases,
}
use zoneroute.Base.Members.{unique_by, any-false, false-any, eq_false, ne_true}
use zoneroute.Text.{Text}
use zoneroute.Text.Order.{lt}
use zoneroute.Dict.{Dict, contains, contains→mem, mem→contains}
use zoneroute.Dnsname.{canonical}
use zoneroute.Conflict.{
  Route, Existing, Candidate, Decision, OwnedByCoreDns, canonical_zones, older, resolve, serve_all,
}
use zoneroute.Conflict.Age.{older-name}
use zoneroute.Conflict.Zones.{mem-canonical_zones}
use zoneroute.Conflict.Eligible.{eligible, candidate_of}
use zoneroute.Conflict.Greedy.{clashes, blocked}
use zoneroute.Conflict.Winners.{
  accepted_names, candidate_names, winners-mem, winners_iff, Undisputed,
}
use zoneroute.Conflict.Spec.{IsFree, Claims, eligible-IsFree}
use zoneroute.Conflict.Queue.{
  route_names, Route-set, queue, accepted_candidates, mem-queue, queue-StrictlySorted,
  resolve-accepted,
}

-- `a` was created before `b`, or with it and under a smaller name.
abbrev pub IsOlder : Route → Route → Type 0
IsOlder a b = (a.created < b.created) ⊎ ((a.created ≡ b.created) × (lt a.name b.name ≡ true))

pub older-IsOlder : (a b : Route) → (older (candidate_of a) (candidate_of b) ≡ true) ↔ IsOlder a b
unfolding older
older-IsOlder a b = (λ h. to h, from)
  where
    to : older (candidate_of a) (candidate_of b) ≡ true → IsOlder a b
    to h = ground arith

    from : IsOlder a b → older (candidate_of a) (candidate_of b) ≡ true
    from (inl h) = ground arith
    from (inr h) = ground arith

-- The routes list no zone in common.
abbrev pub Disjoint : Route → Route → Type 0
Disjoint a b = (z : Text) → Claims a z → ¬ Claims b z

clashes-Disjoint :
    (a b : Route) → (clashes (candidate_of a) (candidate_of b) ≡ false) ↔ Disjoint a b
unfolding clashes
clashes-Disjoint a b = (
  λ h z ca cb.
      ne_true
        (any-false (contains (canonical_zones b.zones)) (canonical_zones a.zones) h z
          ((mem-canonical_zones a.zones z).1 ca))
        (mem→contains _ z ((mem-canonical_zones b.zones z).1 cb)),
  λ h. false-any (contains (canonical_zones b.zones)) (canonical_zones a.zones) λ z m.
      eq_false _ λ t.
        h z ((mem-canonical_zones a.zones z).0 m)
          ((mem-canonical_zones b.zones z).0 (contains→mem _ z t)),
)

pub accepted_origin :
    (domain : Text) (served : Dict OwnedByCoreDns) (rs : List Route) (c : Candidate)
    → Mem c (accepted_candidates domain served rs)
    → ∥ ((r : Route) × Mem r rs × (eligible domain served r ≡ true) × (candidate_of r ≡ c)) ∥₁
unfolding accepted_candidates
accepted_origin domain served rs c m =
    (mem-queue domain served rs c).0 (winners-mem (queue domain served rs) [] m)

module _ (domain : Text) (served : Dict OwnedByCoreDns) (rs : List Route)
    (distinct : Nodup (route_names rs)) where
  -- The name of a route is among the accepted exactly if the route's own candidate is.
  accepted-candidate :
      (r : Route)
      → Mem r rs
      → Mem r.name (candidate_names (accepted_candidates domain served rs)) ↔ (
          (eligible domain served r ≡ true)
          × Mem (candidate_of r) (accepted_candidates domain served rs))
  accepted-candidate r mr = (to, λ (t, m). mem-map_of_mem (λ (c : Candidate). c.name) m)
    where
      Own : Route → Type 0
      Own s =
          (eligible domain served s ≡ true)
          × Mem (candidate_of s) (accepted_candidates domain served rs)

      own-prop : IsProp (Own r)
      own-prop = ×_prop (Bool-set _ _) Mem-prop

      to : Mem r.name (candidate_names (accepted_candidates domain served rs)) → Own r
      to m = ∥∥₁_elim (mem-map.0 m) own-prop λ (c, mc, e).
          ∥∥₁_elim (accepted_origin domain served rs c mc) own-prop λ (s, ms, t, q).
            let same_name : s.name ≡ r.name = ap (λ (x : Candidate). x.name) q ∙ e in
            subst Own (unique_by (λ (x : Route). x.name) rs Route-set distinct ms mr same_name)
              (t, subst (λ x. Mem x (accepted_candidates domain served rs)) (sym q) mc)

  Undisputed-routes :
      (r : Route)
      → Undisputed (accepted_candidates domain served rs) (candidate_of r) ↔ (
          (s : Route)
          → Mem s rs
          → Mem s.name (candidate_names (accepted_candidates domain served rs))
          → IsOlder s r
          → Disjoint r s)
  Undisputed-routes r = (to, from)
    where
      Cleared : Type 0
      Cleared =
          (s : Route)
          → Mem s rs
          → Mem s.name (candidate_names (accepted_candidates domain served rs))
          → IsOlder s r
          → Disjoint r s

      to : Undisputed (accepted_candidates domain served rs) (candidate_of r) → Cleared
      to u s ms ma o =
          (clashes-Disjoint r s).0
            (u (candidate_of s) ((accepted-candidate s ms).0 ma).1 ((older-IsOlder s r).1 o))

      from : Cleared → Undisputed (accepted_candidates domain served rs) (candidate_of r)
      from h a ma o =
          ∥∥₁_elim (accepted_origin domain served rs a ma) (Bool-set _ _) λ (s, ms, t, q).
            let won = subst (λ x. Mem x (accepted_candidates domain served rs)) (sym q) ma in
            let first =
              (older-IsOlder s r).0 (subst (λ x. older x (candidate_of r) ≡ true) (sym q) o) in
            subst (λ x. clashes (candidate_of r) x ≡ false) q
              ((clashes-Disjoint r s).1 (h s ms ((accepted-candidate s ms).1 (t, won)) first))

  accepted-Undisputed :
      (r : Route)
      → Mem r rs
      → eligible domain served r ≡ true
      → Mem (candidate_of r) (accepted_candidates domain served rs)
        ↔ Undisputed (accepted_candidates domain served rs) (candidate_of r)
  unfolding accepted_candidates
  accepted-Undisputed r mr t =
      let queued = (mem-queue domain served rs (candidate_of r)).1 ∣ (r, mr, t, refl) ∣₁ in
      let wins =
        winners_iff (queue domain served rs) [] (candidate_of r)
          (queue-StrictlySorted domain served rs distinct) queued in
      (λ m. (wins.0 m).1, λ u. wins.1 (unfold blocked in refl, u))

  -- The greedy choice in terms of routes: free of the outside, and of all older accepted routes.
  accepted_names_iff :
      (r : Route)
      → Mem r rs
      → Mem r.name (candidate_names (accepted_candidates domain served rs)) ↔ (
          (eligible domain served r ≡ true)
          × ((s : Route)
              → Mem s rs
              → Mem s.name (candidate_names (accepted_candidates domain served rs))
              → IsOlder s r
              → Disjoint r s))
  accepted_names_iff r mr = (
    λ m.
        let (t, own) = (accepted-candidate r mr).0 m in
        (t, (Undisputed-routes r).0 ((accepted-Undisputed r mr t).0 own)),
    λ (t, h).
        (accepted-candidate r mr).1 (t, (accepted-Undisputed r mr t).1 ((Undisputed-routes r).1 h)),
  )

-- Suppose that the routes have distinct names and that `Resolve` returns decisions. Then a route
-- is accepted exactly when none of its zones lies in the cluster domain or is served by CoreDNS
-- as plain DNS on port 53, and it has no zone in common with an accepted route that is older
-- (created before, or at the same time and with a smaller name).
pub accepted_iff :
    (rs : List Route) (es : List Existing) (d : Text) (ds : List Decision)
    → Nodup (route_names rs)
    → resolve rs es d ≡ some ds
    → (r : Route) → Mem r rs
    → Mem r.name (accepted_names ds) ↔ (
        IsFree (canonical d) es r
        × ((s : Route) → Mem s rs → Mem s.name (accepted_names ds) → IsOlder s r → Disjoint r s))
accepted_iff rs es d ds distinct ran r mr =
    let domain = canonical d in
    let served = serve_all [] es in
    let same_names = λ (s : Route). Perm.mem_iff {a = s.name} (resolve-accepted rs es d ds ran) in
    let inner = accepted_names_iff domain served rs distinct r mr in
    let free = eligible-IsFree domain es r in
    (
      λ m.
          let (t, h) = inner.0 ((same_names r).0 m) in
          (free.0 t, λ s ms acc. h s ms ((same_names s).0 acc)),
      λ (f, h). (same_names r).1 (inner.1 (free.1 f, λ s ms acc. h s ms ((same_names s).1 acc))),
    )

IsOlder-total :
    (rs : List Route)
    → Nodup (route_names rs)
    → (a b : Route) → Mem a rs
    → Mem b rs
    → a ≢ b
    → IsOlder a b ⊎ IsOlder b a
IsOlder-total rs distinct a b ma mb ne =
    elim (Bool-cases (older (candidate_of a) (candidate_of b))) [
      | inl e ↦ inl ((older-IsOlder a b).0 e)
      | inr e ↦ elim (Bool-cases (older (candidate_of b) (candidate_of a))) [
        | inl f ↦ inr ((older-IsOlder b a).0 f)
        | inr f ↦
            let same_name : a.name ≡ b.name = older-name (candidate_of a) (candidate_of b) e f in
            absurd (ne (unique_by (λ (x : Route). x.name) rs Route-set distinct ma mb same_name))
      ]
    ]

-- Suppose that the routes have distinct names and that `Resolve` returns decisions. Then two
-- different accepted routes have no zone in common.
pub accepted-Disjoint :
    (rs : List Route) (es : List Existing) (d : Text) (ds : List Decision)
    → Nodup (route_names rs)
    → resolve rs es d ≡ some ds
    → (a b : Route) → Mem a rs
    → Mem b rs
    → Mem a.name (accepted_names ds)
    → Mem b.name (accepted_names ds)
    → a ≢ b
    → Disjoint a b
accepted-Disjoint rs es d ds distinct ran a b ma mb aa ab ne z ca cb =
    elim (IsOlder-total rs distinct a b ma mb ne) [
      | inl o ↦ ((accepted_iff rs es d ds distinct ran b mb).0 ab).1 a ma aa o z cb ca
      | inr o ↦ ((accepted_iff rs es d ds distinct ran a ma).0 aa).1 b mb ab o z ca cb
    ]
