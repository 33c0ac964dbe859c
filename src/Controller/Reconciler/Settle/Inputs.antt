-- ===== src/Controller/Reconciler/Settle/Inputs.antt =====
-- The decisions and the fragment are made of what a status update leaves alone.
use zoneroute.Base.{List, [], ◌∷◌, map, ◌≡◌, refl, arith}
use zoneroute.Base.Lists.{filter}
use zoneroute.Text.{Text}
use zoneroute.Text.Order.{lt}
use zoneroute.Sort.{sort}
use zoneroute.Sort.Map.{sort-map}
use zoneroute.Dict.{Dict}
use zoneroute.Caddyfile.{Caddyfile, IsFinite}
use zoneroute.Api.{ZoneRoute}
use zoneroute.Conflict.{Decision}
use zoneroute.Corefile.{Inspection}
use zoneroute.Controller.Status.{PublishState}
use zoneroute.Controller.Convert.{
  to_conflict_route, to_conflict_routes, to_render_route, to_render_routes,
}
use zoneroute.Controller.Reconciler.{item_less}
use zoneroute.Controller.Client.{Client}
use zoneroute.Controller.Reconciler.Lawful.{IsLawful}
use zoneroute.Controller.Reconciler.Settle.{settle, settle-name}

module _ (c : Caddyfile) (finite : IsFinite c) (k : Client) (lawful : IsLawful k)
    (domain : Text) where
  open k use {World, Conditions, ApiError, list_routes, get_config_map}

  module _ (decisions : Dict Decision) (inspected : Inspection) (state : PublishState) where
    -- The status is not what the decisions and the fragment are made of.
    unfoldable pub settled : ZoneRoute Conditions → ZoneRoute Conditions
    settled = settle c finite k lawful domain decisions inspected state

    settled-conflict_route :
        (x : ZoneRoute Conditions) → to_conflict_route (settled x) ≡ to_conflict_route x
    unfolding settled settle to_conflict_route
    settled-conflict_route x = ground arith

    settled-render_route :
        (x : ZoneRoute Conditions) → to_render_route (settled x) ≡ to_render_route x
    unfolding settled settle to_render_route
    settled-render_route x = ground arith

    pub settled-conflict_routes :
        (l : List (ZoneRoute Conditions))
        → to_conflict_routes (map settled l) ≡ to_conflict_routes l
    unfolding to_conflict_routes
    settled-conflict_routes [] = refl
    settled-conflict_routes (x ∷ l) = λ i. settled-conflict_route x i ∷ settled-conflict_routes l i

    pub settled-render_routes :
        (l : List (ZoneRoute Conditions)) (names : List Text)
        → to_render_routes (map settled l) names ≡ to_render_routes l names
    unfolding to_render_routes filter
    settled-render_routes [] names = refl
    settled-render_routes (x ∷ l) names = ground (
      arith,
      settled-render_routes l names,
      settled-render_route x,
      settle-name c finite k lawful domain decisions inspected state x,
    )

    pub settled-sort :
        (l : List (ZoneRoute Conditions))
        → sort (item_less c finite k) (map settled l) ≡ map settled (sort (item_less c finite k) l)
    unfolding item_less settled
    settled-sort l =
        sort-map (item_less c finite k) settled
          (λ a b i.
            lt (settle-name c finite k lawful domain decisions inspected state a i)
              (settle-name c finite k lawful domain decisions inspected state b i))
          l
