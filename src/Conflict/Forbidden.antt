-- ===== src/Conflict/Forbidden.antt =====
-- internal/conflict/conflict.go: the zones of a route that nobody may have, and what the first loop says
-- of them.
use mathlib.Core.HLevel.{⊥_prop}
use mathlib.Core.List.{Mem, Mem-prop, filter_map, mem-filter_map, not-mem-nil}
use mathlib.Core.Logic.{∥∥₁_elim, ∥∥₁_map}
use native.Mathlib.Decide.{ℕ_discrete}
use zoneroute.Base.{
  true, false, List, [], some, ◌≡◌, ◌↔◌, refl, ◌∙◌, ap, sym, subst, inl, inr, Bool-cases,
  Option-cases,
}
use zoneroute.Base.Lists.{filter, mem-filter}
use zoneroute.Base.Members.{any-false, ne_true}
use zoneroute.Text.{Text}
use zoneroute.Text.Order.{lt, lt_connected}
use zoneroute.Dict.{Text-set, lookup}
use zoneroute.Conflict.{
  Route, Existing, Decision, OwnedByCoreDns, serve_all, canonical_zones, is_reserved,
}
use zoneroute.Conflict.Zones.{mem-canonical_zones}
use zoneroute.Conflict.Eligible.{
  is_some, is_inside, eligible, early_decision, reserved_decision, owned_decision,
}
use zoneroute.Conflict.Served.{covers, is_some-served, served-IsLeast}
use zoneroute.Conflict.Spec.{
  IsWithin, Serves, Claims, is_reserved-IsWithin, covers-Serves, is_inside-IsWithin,
  eligible-IsFree,
}

-- No zone of the route lies in the cluster domain.
abbrev pub Outside : Text → Route → Type 0
Outside domain r = (z : Text) → Claims r z → ¬ IsWithin domain z

-- Some listener serves the zone of the entry from its source, as plain DNS on port 53, and none does
-- from a smaller one.
abbrev pub IsSource : List Existing → OwnedByCoreDns → Type 0
IsSource es o =
    (o.port ≡ 53)
    × ((e : Existing) → Mem e es → Serves o.zone e → lt e.source o.source ≡ false)
    × ∥ ((e : Existing) × Mem e es × Serves o.zone e × (e.source ≡ o.source)) ∥₁

-- The decision names exactly the zones of the route that lie in the cluster domain and, if there is
-- none, exactly its zones that CoreDNS serves.
abbrev pub Told : Text → List Existing → Route → Decision → Type 0
Told domain es r x =
    ((z : Text) → Mem z x.reserved ↔ (Claims r z × IsWithin domain z))
    × ((o : OwnedByCoreDns) → Mem o x.owned ↔ (Outside domain r × Claims r o.zone × IsSource es o))

module _ (es : List Existing) where
  served-IsSource :
      (z : Text) (o : OwnedByCoreDns)
      → lookup z (serve_all [] es) ≡ some o
      → (o.zone ≡ z) × IsSource es o
  served-IsSource z o h =
      let (q, port, least, found) = served-IsLeast z es o h in
      (
        q,
        (
          port,
          λ e m s. least e m ((covers-Serves z e).1 (subst (λ y. Serves y e) q s)),
          ∥∥₁_map found (λ (e, m, c, t).
              (e, m, subst (λ y. Serves y e) (sym q) ((covers-Serves z e).0 c), t)),
        ),
      )

  -- The source of a served zone is the only one.
  IsSource-unique : (o p : OwnedByCoreDns) → o.zone ≡ p.zone → IsSource es o → IsSource es p → o ≡ p
  IsSource-unique o p q (port, least, found) (port', least', found') =
      let same_source : o.source ≡ p.source = ∥∥₁_elim found (Text-set _ _) λ (e, m, s, t).
        ∥∥₁_elim found' (Text-set _ _) λ (f, n, u, v).
          lt_connected o.source p.source
            (subst (λ y. lt y p.source ≡ false) t (least' e m (subst (λ y. Serves y e) q s)))
            (subst (λ y. lt y o.source ≡ false) v
              (least f n (subst (λ y. Serves y f) (sym q) u))) in
      λ i. record { zone = q i; port = (port ∙ sym port') i; source = same_source i }

  lookup-IsSource : (o : OwnedByCoreDns) → IsSource es o → lookup o.zone (serve_all [] es) ≡ some o
  lookup-IsSource o s = elim (Option-cases (lookup o.zone (serve_all [] es))) [
    | inl e ↦ absurd (
        ∥∥₁_elim (s.2) ⊥_prop λ (f, m, u, v).
          ne_true (any-false (covers o.zone) es (sym (is_some-served o.zone es) ∙ ap is_some e) f m)
            ((covers-Serves o.zone f).1 u))
    | inr (p, e) ↦
        let (q, t) = served-IsSource o.zone p e in e ∙ ap some (IsSource-unique p o q t s)
  ]

module _ (domain : Text) (es : List Existing) (r : Route) where
  mem-reserved :
      (z : Text)
      → Mem z (filter (is_reserved domain) (canonical_zones r.zones))
        ↔ (Claims r z × IsWithin domain z)
  mem-reserved z = (
    λ m.
        let (c, t) = (mem-filter (is_reserved domain) (canonical_zones r.zones)).0 m in
        ((mem-canonical_zones r.zones z).0 c, (is_reserved-IsWithin domain z).0 t),
    λ (c, w).
        (mem-filter (is_reserved domain) (canonical_zones r.zones)).1
          ((mem-canonical_zones r.zones z).1 c, (is_reserved-IsWithin domain z).1 w),
  )

  IsSource-prop : (o : OwnedByCoreDns) → IsProp (IsSource es o)
  IsSource-prop o = hlevel ℕ_discrete

  mem-owned :
      (o : OwnedByCoreDns)
      → Mem o (filter_map (λ z. lookup z (serve_all [] es)) (canonical_zones r.zones))
        ↔ (Claims r o.zone × IsSource es o)
  mem-owned o = (
    λ m.
        ∥∥₁_elim ((mem-filter_map _ _).0 m) (hlevel (Mem-prop {a = o.zone}, IsSource-prop o))
          λ (z, c, t).
            let (q, s) = served-IsSource es z o t in
            (subst (Claims r) (sym q) ((mem-canonical_zones r.zones z).0 c), s),
    λ (c, s).
        (mem-filter_map _ _).1
          (∣ (o.zone, (mem-canonical_zones r.zones o.zone).1 c, lookup-IsSource es o s) ∣₁),
  )

  pub early-Told :
      eligible domain (serve_all [] es) r ≡ false
      → Told domain es r (early_decision domain (serve_all [] es) r)
  unfolding early_decision
  early-Told t = elim (Bool-cases (is_inside domain r)) [
    | inl e ↦
        let q : early_decision domain (serve_all [] es) r ≡ reserved_decision domain r =
          rw e refl in
        subst (Told domain es r) (sym q) (
          mem-reserved,
          λ o. (
            λ m. absurd (not-mem-nil m),
            λ (out, c, s). absurd (ne_true ((is_inside-IsWithin domain es r).1 out) e),
          ),
        )
    | inr e ↦
        let q : early_decision domain (serve_all [] es) r ≡ owned_decision (serve_all [] es) r =
          rw e refl in
        let out = (is_inside-IsWithin domain es r).0 e in
        subst (Told domain es r) (sym q) (
          λ z. (λ m. absurd (not-mem-nil m), λ (c, w). absurd (out z c w)),
          λ o. (
            λ m. let (c, t) = (mem-owned o).0 m in (out, c, t),
            λ (v, c, s). (mem-owned o).1 (c, s),
          ),
        )
  ]

  pub free-Told :
      (x : Decision)
      → eligible domain (serve_all [] es) r ≡ true
      → x.reserved ≡ []
      → x.owned ≡ []
      → Told domain es r x
  free-Told x t no_reserved no_owned =
      let free = (eligible-IsFree domain es r).0 t in
      (
        λ z. (
          λ m. absurd (not-mem-nil (subst (Mem z) no_reserved m)),
          λ (c, w). absurd ((free z c).0 w),
        ),
        λ o. (
          λ m. absurd (not-mem-nil (subst (Mem o) no_owned m)),
          λ (out, c, s). absurd (∥∥₁_elim (s.2) ⊥_prop λ (e, m, u, v). (free o.zone c).1 e m u),
        ),
      )
