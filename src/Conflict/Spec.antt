-- ===== src/Conflict/Spec.antt =====
-- What `Resolve` promises, said without its loops: when a zone is reserved or served, and when
-- two routes claim the same zone.
use mathlib.Core.List.{Mem}
use zoneroute.Dict.{lookup}
use zoneroute.Base.{
  true, false, ◌||◌, List, [], ◌++◌, map, ◌≡◌, ◌↔◌, ◌⊎◌, ◌∙◌, sym, inl, inr, arith, Bool-cases,
}
use zoneroute.Base.Lists.{any}
use zoneroute.Base.Members.{any-false, false-any, eq_false, ne_true}
use zoneroute.Text.{Text, codes, same, has_suffix}
use zoneroute.Text.Order.{same_iff}
use zoneroute.Text.Suffix.{has_suffix_iff}
use zoneroute.Dnsname.{dot, canonical}
use zoneroute.Conflict.{
  Route, Existing, is_reserved, canonical_zones, is_own_listener, serve_all, listener_transport,
}
use zoneroute.Conflict.Zones.{mem-canonical_zones}
use zoneroute.Conflict.Served.{covers, is_some-served}
use zoneroute.Conflict.Eligible.{is_some, is_inside, is_served, eligible}

-- The zone is the domain, or ends in a dot and the domain.
abbrev pub IsWithin : Text → Text → Type 0
IsWithin domain z = (z ≡ domain) ⊎ ((p : Text) × (z ≡ p ++ (dot ++ domain)))

-- CoreDNS already serves the zone as plain DNS on port 53.
abbrev pub Serves : Text → Existing → Type 0
Serves z e = (e.transport ≡ codes "dns") × (e.port ≡ 53) × (canonical e.zone ≡ z)

-- The route lists some spelling of the zone.
abbrev pub Claims : Route → Text → Type 0
Claims r z = Mem z (map canonical r.zones)

-- No zone of the route lies in the cluster domain or is served by CoreDNS.
abbrev pub IsFree : Text → List Existing → Route → Type 0
IsFree domain existing r =
    (z : Text)
    → Claims r z
    → (¬ IsWithin domain z) × ((e : Existing) → Mem e existing → ¬ Serves z e)

pub is_reserved-IsWithin : (domain z : Text) → (is_reserved domain z ≡ true) ↔ IsWithin domain z
unfolding is_reserved
is_reserved-IsWithin domain z = (to, from)
  where
    to : (same z domain || has_suffix z (dot ++ domain)) ≡ true → IsWithin domain z
    to h = elim (Bool-cases (same z domain)) [
      | inl e ↦ inl ((same_iff z domain).0 e)
      | inr e ↦ inr ((has_suffix_iff z (dot ++ domain)).0 (rw e at h))
    ]

    from : IsWithin domain z → (same z domain || has_suffix z (dot ++ domain)) ≡ true
    from (inl e) = rw ((same_iff z domain).1 e)
    from (inr w) = let h = (has_suffix_iff z (dot ++ domain)).1 w in ground (arith, h)

pub covers-Serves : (z : Text) (e : Existing) → (covers z e ≡ true) ↔ Serves z e
unfolding covers is_own_listener
covers-Serves z e =
    ground (arith, same_iff e.transport listener_transport, same_iff (canonical e.zone) z)

module _ (domain : Text) (existing : List Existing) (r : Route) where
  pub is_inside-IsWithin :
      (is_inside domain r ≡ false) ↔ ((z : Text) → Claims r z → ¬ IsWithin domain z)
  unfolding is_inside
  is_inside-IsWithin = (
    λ h z c w.
        ne_true
          (any-false (is_reserved domain) (canonical_zones r.zones) h z
            ((mem-canonical_zones r.zones z).1 c))
          ((is_reserved-IsWithin domain z).1 w),
    λ h. false-any (is_reserved domain) (canonical_zones r.zones) λ z m.
        eq_false _
          λ t. h z ((mem-canonical_zones r.zones z).0 m) ((is_reserved-IsWithin domain z).0 t),
  )

  any-covers-Serves :
      (z : Text)
      → (any (covers z) existing ≡ false) ↔ ((e : Existing) → Mem e existing → ¬ Serves z e)
  any-covers-Serves z = (
    λ h e m s. ne_true (any-false (covers z) existing h e m) ((covers-Serves z e).1 s),
    λ h. false-any (covers z) existing λ e m. eq_false _ λ t. h e m ((covers-Serves z e).0 t),
  )

  is_served-Serves :
      (is_served (serve_all [] existing) r ≡ false)
      ↔ ((z : Text) → Claims r z → (e : Existing) → Mem e existing → ¬ Serves z e)
  unfolding is_served
  is_served-Serves =
      let found = λ (z : Text). is_some (lookup z (serve_all [] existing)) in
      (
        λ h z c. (any-covers-Serves z).0 (
            sym (is_some-served z existing)
            ∙ any-false found (canonical_zones r.zones) h z ((mem-canonical_zones r.zones z).1 c)),
        λ h. false-any found (canonical_zones r.zones) λ z m.
            is_some-served z existing
            ∙ (any-covers-Serves z).1 (h z ((mem-canonical_zones r.zones z).0 m)),
      )

  -- The tests of the first loop let a route pass exactly when it is free.
  pub eligible-IsFree :
      (eligible domain (serve_all [] existing) r ≡ true) ↔ IsFree domain existing r
  eligible-IsFree = (to, from)
    where
      split :
          eligible domain (serve_all [] existing) r ≡ true
          → (is_inside domain r ≡ false) × (is_served (serve_all [] existing) r ≡ false)
      split h = unfold eligible in ground (arith, h)

      to : eligible domain (serve_all [] existing) r ≡ true → IsFree domain existing r
      to h z c = (is_inside-IsWithin.0 (split h).0 z c, is_served-Serves.0 (split h).1 z c)

      from : IsFree domain existing r → eligible domain (serve_all [] existing) r ≡ true
      from f =
          let out = is_inside-IsWithin.1 (λ z c. (f z c).0) in
          let open_zones = is_served-Serves.1 (λ z c. (f z c).1) in
          unfold eligible in rw (out, open_zones)
