-- ===== src/Controller/Fragment.antt =====
-- The fragment beside the rest of CoreDNS's configuration: from the listeners that Inspect found,
-- through Resolve, to the keys of the blocks that Render writes.
use mathlib.Core.HLevel.{⊥_prop}
use mathlib.Core.List.{Mem, Nodup, mem-map}
use mathlib.Core.List.Perm
use mathlib.Core.Logic.{∥∥₁_elim}
use zoneroute.Base.{List, [], ◌∷◌, map, some, ◌≡◌, ◌≢◌, refl, ◌∙◌, ap, sym, subst}
use zoneroute.Base.Lists.{mem-filter}
use zoneroute.Result.{Result, ok}
use zoneroute.Text.{Text, codes}
use zoneroute.Sort.Unique.{sort-perm}
use zoneroute.Dict.{contains, contains→mem}
use zoneroute.Dnsname.{canonical}
use zoneroute.Dnsname.Canonical.{canonical_idem}
use zoneroute.Api.{ZoneRoute}
use zoneroute.Conflict
use zoneroute.Conflict.{Decision, resolve}
use zoneroute.Conflict.Queue.{route_names}
use zoneroute.Conflict.Spec.{IsWithin, Claims}
use zoneroute.Conflict.Winners.{accepted_names}
use zoneroute.Conflict.Accepted.{accepted_iff, accepted-Disjoint}
use zoneroute.Corefile.{Inspection}
use zoneroute.Corefile.Key.{Listener, parse_key}
use zoneroute.Render
use zoneroute.Render.{zone_keys}
use zoneroute.Render.Keys.{IsName, zone_keys-Listener}
use zoneroute.Controller.Convert.{
  to_conflict_route, to_conflict_routes, to_existing_entry, existing_less, to_existing,
  to_render_route, to_render_routes,
}
use zoneroute.Controller.Reconciler.{accepted_set}
use zoneroute.Controller.Reconciler.Lawful.{item_names}

-- The listener of a block for the zone.
abbrev pub plain_listener : Text → Listener
plain_listener z = record { transport = codes "dns"; zone = canonical z; port = 53 }

-- CoreDNS's configuration has the listener already.
abbrev pub IsTaken : Inspection → Listener → Type 0
IsTaken inspected l = ∥ ((source : Text) × Mem (l, source) inspected.listeners) ∥₁

accepted_set-names : (ds : List Decision) → accepted_set ds ≡ accepted_names ds
unfolding accepted_set accepted_names
accepted_set-names ds = refl

module _ {C : Type 0} where
  item_names-route_names :
      (items : List (ZoneRoute C)) → route_names (to_conflict_routes items) ≡ item_names items
  unfolding to_conflict_routes to_conflict_route
  item_names-route_names [] = refl
  item_names-route_names (x ∷ l) = ap (λ ns. x.name ∷ ns) (item_names-route_names l)

  -- The object that a rendered route was made of.
  record Origin (items : List (ZoneRoute C)) (names : List Text) (r : Render.Route) : Type 0 where
    item : ZoneRoute C
    is_listed : Mem (to_conflict_route item) (to_conflict_routes items)
    is_accepted : Mem item.name names
    is_rendered : to_render_route item ≡ r

  render_route-Origin :
      (items : List (ZoneRoute C)) (names : List Text) (r : Render.Route)
      → Mem r (to_render_routes items names)
      → ∥ Origin items names r ∥₁
  unfolding to_render_routes to_conflict_routes
  render_route-Origin items names r m = ∥∥₁_elim (mem-map.0 m) squash₁ λ (x, mx, e).
      let (mi, kept) = (mem-filter (λ (i : ZoneRoute C). contains names i.name) items).0 mx in
      ∣ record {
        item = x;
        is_listed = mem-map.1 ∣ (x, mi, refl) ∣₁;
        is_accepted = contains→mem names x.name kept;
        is_rendered = e;
      } ∣₁

  module _ (items : List (ZoneRoute C)) (inspected : Inspection) (domain : Text)
      (ds : List Decision) (distinct : Nodup (item_names items))
      (decided : resolve (to_conflict_routes items) (to_existing inspected) domain ≡ some ds) where
    distinct_routes : Nodup (route_names (to_conflict_routes items))
    distinct_routes = subst Nodup (sym (item_names-route_names items)) distinct

    is_accepted_route :
        (r : Render.Route) (o : Origin items (accepted_set ds) r)
        → Mem (to_conflict_route o.item).name (accepted_names ds)
    unfolding to_conflict_route
    is_accepted_route r o = subst (Mem o.item.name) (accepted_set-names ds) o.is_accepted

    zone-Claims :
        (r : Render.Route) (o : Origin items (accepted_set ds) r) (z : Text)
        → Mem z r.zones
        → Claims (to_conflict_route o.item) (canonical z)
    unfolding to_conflict_route to_render_route
    zone-Claims r o z m =
        mem-map.1
          ∣ (z, subst (Mem z) (sym (ap (λ (x : Render.Route). x.zones) o.is_rendered)) m, refl) ∣₁

    taken-existing :
        (z source : Text)
        → Mem (plain_listener z, source) inspected.listeners
        → Mem (to_existing_entry (plain_listener z, source)) (to_existing inspected)
    unfolding to_existing
    taken-existing z source m =
        (Perm.mem_iff (sort-perm existing_less (map to_existing_entry inspected.listeners))).1
          (mem-map.1 ∣ ((plain_listener z, source), m, refl) ∣₁)

    zones_free :
        (r : Render.Route) (o : Origin items (accepted_set ds) r) (z : Text)
        → Mem z r.zones
        → (¬ IsWithin (canonical domain) (canonical z)) × (¬ IsTaken inspected (plain_listener z))
    unfolding to_existing_entry
    zones_free r o z m =
        let free =
          ((accepted_iff (to_conflict_routes items) (to_existing inspected) domain ds
                distinct_routes decided (to_conflict_route o.item) o.is_listed).0
              (is_accepted_route r o)).0
            (canonical z) (zone-Claims r o z m) in
        (
          free.0,
          λ taken. ∥∥₁_elim taken ⊥_prop λ (source, ms).
              free.1 (to_existing_entry (plain_listener z, source)) (taken-existing z source ms)
                (refl, refl, canonical_idem z),
        )

    -- Suppose that the routes have distinct names, and that `Resolve` returned decisions on them and
    -- on the listeners that `Inspect` found. Every key of the block of a route whose zones have no
    -- colons and doubled final dots is parsed as a listener outside the cluster domain that no other
    -- source of CoreDNS's configuration has.
    pub rendered_keys-Free :
        (r : Render.Route)
        → Mem r (to_render_routes items (accepted_set ds))
        → ((z : Text) → Mem z r.zones → IsName z)
        → (k : Text) → Mem k (zone_keys r.zones)
        → ∥ (
            (l : Listener) × (parse_key k ≡ ok l)
            × (¬ IsWithin (canonical domain) l.zone)
            × (¬ IsTaken inspected l)) ∥₁
    rendered_keys-Free r mr valid k mk =
        ∥∥₁_elim (render_route-Origin items (accepted_set ds) r mr) squash₁ λ o.
          ∥∥₁_elim (zone_keys-Listener r.zones valid k mk) squash₁ λ (z, mz, e).
            let (out, open_listener) = zones_free r o z mz in
            ∣ (plain_listener z, e, out, open_listener) ∣₁

    -- Under the same conditions no two routes of the fragment have a listener in common: no key of
    -- the one's block is parsed as a listener that a key of the other's is parsed as.
    pub rendered_keys-Disjoint :
        (r s : Render.Route)
        → Mem r (to_render_routes items (accepted_set ds))
        → Mem s (to_render_routes items (accepted_set ds))
        → r.name ≢ s.name
        → ((z : Text) → Mem z r.zones → IsName z)
        → ((z : Text) → Mem z s.zones → IsName z)
        → (k j : Text) → Mem k (zone_keys r.zones)
        → Mem j (zone_keys s.zones)
        → parse_key k ≢ parse_key j
    unfolding to_conflict_route to_render_route
    rendered_keys-Disjoint r s mr ms differ valid_r valid_s k j mk mj same_key =
        ∥∥₁_elim (render_route-Origin items (accepted_set ds) r mr) ⊥_prop λ o.
          ∥∥₁_elim (render_route-Origin items (accepted_set ds) s ms) ⊥_prop λ p.
            ∥∥₁_elim (zone_keys-Listener r.zones valid_r k mk) ⊥_prop λ (z, mz, e).
              ∥∥₁_elim (zone_keys-Listener s.zones valid_s j mj) ⊥_prop λ (y, my, f).
                let one_listener : Result.ok (plain_listener z) ≡ ok (plain_listener y) =
                  sym e ∙ same_key ∙ f in
                let one_zone : canonical z ≡ canonical y = cc in
                accepted-Disjoint (to_conflict_routes items) (to_existing inspected) domain ds
                  distinct_routes decided (to_conflict_route o.item) (to_conflict_route p.item)
                  o.is_listed p.is_listed (is_accepted_route r o) (is_accepted_route s p)
                  (λ q. differ (
                    sym (ap (λ (x : Render.Route). x.name) o.is_rendered)
                    ∙ ap (λ (x : Conflict.Route). x.name) q
                    ∙ ap (λ (x : Render.Route). x.name) p.is_rendered))
                  (canonical z) (zone-Claims r o z mz)
                  (subst (Claims (to_conflict_route p.item)) (sym one_zone) (zone-Claims s p y my))
