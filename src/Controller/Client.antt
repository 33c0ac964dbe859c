-- ===== src/Controller/Client.antt =====
-- internal/controller/reconciler.go: what Reconcile calls, and the errors that it returns.
use zoneroute.Base.{Bool, List, Option}
use zoneroute.Result.{Result}
use zoneroute.Text.{Text}
use zoneroute.Dict.{Dict}
use zoneroute.Api.{Condition, ZoneRoute}
use zoneroute.Corefile.{InspectError}

-- The API server behind `client.Client`, with `meta.SetStatusCondition`. Reads leave the world
-- alone. The ConfigMaps are those of kube-system, by name.
pub record Client : Type 1 where
  pub World : Type 0
  pub Conditions : Type 0
  pub ApiError : Type 0
  pub is_not_found : ApiError → Bool
  pub message : ApiError → Text
  pub list_routes : World → Result ApiError (List (ZoneRoute Conditions))
  pub get_config_map : Text → World → Result ApiError (Dict Text)
  -- A merge patch that sets one entry of one ConfigMap: the error, if it fails, and the world.
  pub patch_config_map : Text → Text → Text → World → Option ApiError × World
  pub update_status : ZoneRoute Conditions → World → Option ApiError × World
  pub set_status_condition : Condition → Conditions → Bool × Conditions

pub data ReconcileError (E : Type 0) : Type 0 where
  listing_failed : E → ReconcileError E
  reading_failed : Text → E → ReconcileError E
  no_corefile_key : ReconcileError E
  inspecting_failed : InspectError → ReconcileError E
  empty_cluster_domain : ReconcileError E
  -- `errors.Join` of what went wrong after the decisions.
  joined : List Text → ReconcileError E
