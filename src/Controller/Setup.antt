-- ===== src/Controller/Setup.antt =====
-- internal/controller/reconciler.go: what the controller watches.
use zoneroute.Base.{Bool, true, false, ◌&&◌, List, [], ◌∷◌}
use zoneroute.Base.Lists.{any}
use zoneroute.Text.{Text, codes}
use zoneroute.Api.{Object}
use zoneroute.Controller.Predicates.{Event, core_dns_config_map_predicate}

-- `reconcile.Request`: the namespace and the name of an object.
pub record Request : Type 0 where
  pub namespace : Text
  pub name : Text

abbrev pub global_request : Request
global_request = record { namespace = []; name = codes "zoneroute" }

-- `mapToGlobal`
unfoldable pub map_to_global : Object → List Request
map_to_global o = global_request ∷ []

-- The resources that are watched.
pub data Resource : Type 0 where
  zone_routes config_maps : Resource

unfoldable pub same_resource : Resource → Resource → Bool
same_resource zone_routes zone_routes = true
same_resource config_maps config_maps = true
same_resource _ _ = false

-- One call of `Watches`: `EnqueueRequestsFromMapFunc` takes the handler.
pub record Watch : Type 0 where
  pub resource : Resource
  pub handler : Object → List Request
  pub predicate : Event → Bool

-- What `SetupWithManager` hands to controller-runtime: the name, the watches and the
-- reconciler, of which the cluster domain is all there is.
pub record Builder : Type 0 where
  pub name : Text
  pub watches : List Watch
  pub cluster_domain : Text

-- `SetupWithManager`; `generation_changed` is controller-runtime's `GenerationChangedPredicate`.
unfoldable pub setup_with_manager : (Event → Bool) → Text → Builder
setup_with_manager generation_changed domain = record {
  name = codes "zoneroute";
  watches =
      record { resource = zone_routes; handler = map_to_global; predicate = generation_changed }
      ∷ record {
        resource = config_maps;
        handler = map_to_global;
        predicate = core_dns_config_map_predicate;
      }
      ∷ [];
  cluster_domain = domain;
}

-- An event on a resource that some watch passes on.
unfoldable pub wakes : Builder → Resource → Event → Bool
unfolding same_resource
wakes b r e = any (λ (w : Watch). same_resource w.resource r && w.predicate e) b.watches
