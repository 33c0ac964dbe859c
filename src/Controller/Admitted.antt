-- ===== src/Controller/Admitted.antt =====
-- The fragment made of objects that the API server admitted: the schema's rules give what the
-- theorems on the fragment ask of the zones.
pub mod Upstreams
pub mod Lines
use mathlib.Core.HLevel.{⊥_prop}
use mathlib.Core.List.{Mem, Nodup, mem-map}
use mathlib.Core.Logic.{∥∥₁_elim}
use zoneroute.Base.{true, ◌&&◌, List, map, some, ◌≡◌, ◌≢◌, refl, sym, ap, subst, arith}
use zoneroute.Base.Lists.{mem-filter}
use zoneroute.Result.{ok}
use zoneroute.Text.{Text}
use zoneroute.Dict.{contains}
use zoneroute.Dnsname.{canonical}
use zoneroute.Api.{ZoneRoute, ZoneRouteSpec}
use zoneroute.Api.Schema.{all}
use zoneroute.Api.Schema.Unique.{all_iff}
use zoneroute.Api.Schema.Pattern.{is_zone_name}
use zoneroute.Api.Schema.Pattern.Bytes.{is_zone_name-no_colon, is_zone_name-one_dot}
use zoneroute.Api.Schema.Rules.{IpLibrary, admits_zone, admits_zones, admits_spec}
use zoneroute.Conflict.{Decision, resolve}
use zoneroute.Conflict.Spec.{IsWithin}
use zoneroute.Corefile.{Inspection}
use zoneroute.Corefile.Key.{Listener, parse_key}
use zoneroute.Render
use zoneroute.Render.{zone_keys}
use zoneroute.Render.Keys.{IsName}
use zoneroute.Controller.Convert.{
  to_conflict_routes, to_existing, to_render_route, to_render_routes,
}
use zoneroute.Controller.Reconciler.{accepted_set}
use zoneroute.Controller.Reconciler.Lawful.{item_names}
use zoneroute.Controller.Fragment.{IsTaken, rendered_keys-Free, rendered_keys-Disjoint}

pub admits_zone-name : (z : Text) → admits_zone z ≡ true → is_zone_name z ≡ true
unfolding admits_zone
admits_zone-name z h = ground (arith, h)

pub admits_spec-zones :
    (ip : IpLibrary) (spec : ZoneRouteSpec)
    → admits_spec ip spec ≡ true
    → all admits_zone spec.zones ≡ true
unfolding admits_spec admits_zones
admits_spec-zones ip spec h = ground (arith, h)

-- A zone that the schema takes is a name as the fragment needs it.
admitted-IsName :
    (ip : IpLibrary) (spec : ZoneRouteSpec)
    → admits_spec ip spec ≡ true
    → (z : Text) → Mem z spec.zones
    → IsName z
admitted-IsName ip spec h z m =
    let name =
      admits_zone-name z ((all_iff admits_zone spec.zones).0 (admits_spec-zones ip spec h) z m) in
    record { no_colon = is_zone_name-no_colon z name; one_dot = is_zone_name-one_dot z name }

module _ {C : Type 0} where
  -- The API server admitted all of the objects.
  abbrev pub AreAdmitted : IpLibrary → List (ZoneRoute C) → Type 0
  AreAdmitted ip items = (x : ZoneRoute C) → Mem x items → admits_spec ip x.spec ≡ true

  rendered-admitted :
      (ip : IpLibrary) (items : List (ZoneRoute C)) (names : List Text)
      → AreAdmitted ip items
      → (r : Render.Route) → Mem r (to_render_routes items names)
      → ∥ ((z : Text) → Mem z r.zones → IsName z) ∥₁
  unfolding to_render_routes to_render_route
  rendered-admitted ip items names h r m = ∥∥₁_elim (mem-map.0 m) squash₁ λ (x, mx, e).
      let (mi, kept) = (mem-filter (λ (i : ZoneRoute C). contains names i.name) items).0 mx in
      ∣ (λ z mz.
        admitted-IsName ip x.spec (h x mi) z
          (subst (Mem z) (sym (ap (λ (s : Render.Route). s.zones) e)) mz)) ∣₁

  module _ (ip : IpLibrary) (items : List (ZoneRoute C)) (inspected : Inspection) (domain : Text)
      (ds : List Decision) (admitted : AreAdmitted ip items) (distinct : Nodup (item_names items))
      (decided : resolve (to_conflict_routes items) (to_existing inspected) domain ≡ some ds) where
    -- Suppose that the API server admitted every route by the schema, that the routes have distinct
    -- names, and that `Resolve` returned decisions on them and on the listeners that `Inspect` found.
    -- Every key of the fragment is parsed as a listener outside the cluster domain that no other
    -- source of CoreDNS's configuration has.
    pub admitted_keys-Free :
        (r : Render.Route)
        → Mem r (to_render_routes items (accepted_set ds))
        → (k : Text) → Mem k (zone_keys r.zones)
        → ∥ (
            (l : Listener) × (parse_key k ≡ ok l)
            × (¬ IsWithin (canonical domain) l.zone)
            × (¬ IsTaken inspected l)) ∥₁
    admitted_keys-Free r mr k mk =
        ∥∥₁_elim (rendered-admitted ip items (accepted_set ds) admitted r mr) squash₁
          λ names. rendered_keys-Free items inspected domain ds distinct decided r mr names k mk

    -- Suppose that the API server admitted every route by the schema, that the routes have distinct
    -- names, and that `Resolve` returned decisions on them and on the listeners that `Inspect` found.
    -- Then no two routes of the fragment have a listener in common: no key of the one's block is
    -- parsed as a listener that a key of the other's is parsed as.
    pub admitted_keys-Disjoint :
        (r s : Render.Route)
        → Mem r (to_render_routes items (accepted_set ds))
        → Mem s (to_render_routes items (accepted_set ds))
        → r.name ≢ s.name
        → (k j : Text) → Mem k (zone_keys r.zones)
        → Mem j (zone_keys s.zones)
        → parse_key k ≢ parse_key j
    admitted_keys-Disjoint r s mr ms differ k j mk mj same_key =
        ∥∥₁_elim (rendered-admitted ip items (accepted_set ds) admitted r mr) ⊥_prop λ first.
          ∥∥₁_elim (rendered-admitted ip items (accepted_set ds) admitted s ms) ⊥_prop λ second.
            rendered_keys-Disjoint items inspected domain ds distinct decided r s mr ms differ first
              second k j mk mj same_key
