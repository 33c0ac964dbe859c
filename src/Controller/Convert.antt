-- ===== src/Controller/Convert.antt =====
-- internal/controller/convert.go: from API objects to the inputs of the pure packages.
pub mod Order
use zoneroute.Base.{Bool, not, List, map, ltb, ◌==◌, if◌then◌else◌}
use zoneroute.Base.Lists.{filter}
use zoneroute.Text.{Text, same}
use zoneroute.Text.Order.{lt}
use zoneroute.Sort.{sort}
use zoneroute.Dict.{contains}
use zoneroute.Api
use zoneroute.Api.{ZoneRoute}
use zoneroute.Conflict
use zoneroute.Conflict.{Existing}
use zoneroute.Corefile.{Inspection}
use zoneroute.Corefile.Key.{Listener}
use zoneroute.Render

module _ {C : Type 0} where
  unfoldable pub to_conflict_route : ZoneRoute C → Conflict.Route
  to_conflict_route i = record { name = i.name; created = i.created; zones = i.spec.zones }

  -- `toConflictRoutes`
  unfoldable pub to_conflict_routes : List (ZoneRoute C) → List Conflict.Route
  unfolding to_conflict_route
  to_conflict_routes items = map to_conflict_route items

unfoldable pub to_existing_entry : Listener × Text → Existing
to_existing_entry (l, source) = record {
  transport = l.transport;
  zone = l.zone;
  port = l.port;
  source = source;
}

-- The order of the sort in `toExisting`.
unfoldable pub existing_less : Existing → Existing → Bool
existing_less a b =
    if not (same a.transport b.transport)
    then lt a.transport b.transport
    else if not (same a.zone b.zone)
    then lt a.zone b.zone
    else if not (a.port == b.port)
    then ltb a.port b.port
    else lt a.source b.source

-- `toExisting`
unfoldable pub to_existing : Inspection → List Existing
unfolding to_existing_entry
to_existing res = sort existing_less (map to_existing_entry res.listeners)

unfoldable pub to_render_upstream : Api.Upstream → Render.Upstream
to_render_upstream u = record { address = u.address; port = u.port }

module _ {C : Type 0} where
  unfoldable pub to_render_route : ZoneRoute C → Render.Route
  unfolding to_render_upstream
  to_render_route i = record {
    name = i.name;
    generation = i.generation;
    zones = i.spec.zones;
    upstreams = map to_render_upstream i.spec.upstreams;
  }

  -- `toRenderRoutes`; `accepted` holds the names that the map has.
  unfoldable pub to_render_routes : List (ZoneRoute C) → List Text → List Render.Route
  unfolding to_render_route
  to_render_routes items accepted =
      map to_render_route (filter (λ (i : ZoneRoute C). contains accepted i.name) items)
