-- ===== src/Controller/Reconciler.antt =====
-- internal/controller/reconciler.go: one full recompute.
pub mod Domain
pub mod Lawful
pub mod Settle
pub mod Reads
pub mod Trace
pub mod Owned
pub mod Live
pub mod Missed
pub mod Reading
pub mod Blocked
pub mod Closed
pub mod Republish
pub mod Converged
pub mod Writes
pub mod Published
use zoneroute.Controller.Client.{
  Client, ReconcileError, listing_failed, reading_failed, no_corefile_key, inspecting_failed,
  empty_cluster_domain, joined,
}
use zoneroute.Base.{
  ℕ, Bool, true, false, not, ◌&&◌, ◌||◌, List, [], ◌∷◌, ◌++◌, map, Option, none, some, ◌==◌,
  if◌then◌else◌,
}
use zoneroute.Base.Lists.{filter}
use zoneroute.Result.{Result, ok, err}
use zoneroute.Text.{Text, codes, same, trim_space, trim_suffix}
use zoneroute.Text.Order.{lt}
use zoneroute.Sort.{sort}
use zoneroute.Dict.{Dict, lookup, insert, contains}
use zoneroute.Dnsname.{dot, canonical}
use zoneroute.Caddyfile.{Caddyfile, IsFinite}
use zoneroute.Api.{
  Reason, integration_config_missing, fragment_invalid, write_failed, Condition, ZoneRoute,
}
use zoneroute.Conflict.{Decision, undecided, resolve}
use zoneroute.Corefile.{Inspection, InspectError, managed_key, inspect}
use zoneroute.Render.{render}
use zoneroute.Controller.Status.{PublishState, accepted_condition, published_condition}
use zoneroute.Controller.Convert.{to_conflict_routes, to_existing, to_render_routes}
use zoneroute.Controller.Predicates.{corefile_config_map, corefile_key, integration_config_map}

-- `byName`: the last decision under the name, or the zero `Decision`.
unfoldable pub index_decisions : List Decision → Dict Decision → Dict Decision
index_decisions [] m = m
index_decisions (d ∷ ds) m = index_decisions ds (insert d.name d m)

unfoldable pub decision_of : Dict Decision → Text → Decision
decision_of m name = elim (lookup name m) [ none ↦ undecided [] | some d ↦ d ]

-- The keys of the map `accepted`.
unfoldable pub accepted_set : List Decision → List Text
accepted_set ds = map (λ (d : Decision). d.name) (filter (λ (d : Decision). d.accepted) ds)

module _ (c : Caddyfile) (finite : IsFinite c) (k : Client) where
  open k use {
    World, Conditions, ApiError, is_not_found, message, list_routes, get_config_map,
    patch_config_map, update_status, set_status_condition,
  }

  abbrev pub in_place : PublishState
  in_place = record { reason = none; detail = [] }

  unfoldable pub patch_outcome : Option ApiError × World → PublishState × World
  patch_outcome (none, w) = (in_place, w)
  patch_outcome (some e, w) = (
    record {
      reason = some write_failed;
      detail = codes "patching ConfigMap kube-system/coredns-custom: " ++ message e;
    },
    w,
  )

  unfoldable pub is_current : Text → Option Text → Bool
  is_current fragment none = false
  is_current fragment (some current) = same current fragment

  unfoldable pub publish_fragment : Dict Text → Text → World → PublishState × World
  unfolding is_current patch_outcome
  publish_fragment data_entries fragment w =
      if is_current fragment (lookup managed_key data_entries)
      then (in_place, w)
      else patch_outcome (patch_config_map integration_config_map managed_key fragment w)

  unfoldable pub publish_rendered : Dict Text → Result Text Text → World → PublishState × World
  unfolding publish_fragment
  publish_rendered data_entries (err e) w =
      (record { reason = some fragment_invalid; detail = e }, w)
  publish_rendered data_entries (ok fragment) w = publish_fragment data_entries fragment w

  -- `publish`; `custom` is the data of coredns-custom, if the ConfigMap exists.
  unfoldable pub publish : Option (Dict Text) → Result Text Text → World → PublishState × World
  unfolding publish_rendered
  publish none rendered w = (record { reason = some integration_config_missing; detail = [] }, w)
  publish (some data_entries) rendered w = publish_rendered data_entries rendered w

  unfoldable pub status_outcome : Text → Option ApiError × World → List Text × World
  status_outcome name (none, w) = ([], w)
  status_outcome name (some e, w) =
      ((codes "updating status of ZoneRoute " ++ (name ++ (codes ": " ++ message e))) ∷ [], w)

  -- The conditions that `updateStatus` sets, and whether anything changed.
  unfoldable pub refreshed :
      Text → ZoneRoute Conditions → Decision → Inspection → PublishState → Bool × Conditions
  refreshed domain obj d inspected state =
      let accepted_set_result =
        set_status_condition
          (accepted_condition d inspected.unresolved_imports domain obj.generation)
          obj.conditions in
      let published_set_result =
        set_status_condition (published_condition d.accepted state inspected.wired obj.generation)
          accepted_set_result.1 in
      (
        not (obj.observed_generation == obj.generation)
            || (published_set_result.0 || accepted_set_result.0),
        published_set_result.1,
      )

  -- `updateStatus`: the errors, none or one, and the world.
  unfoldable pub refresh_status :
      Text → ZoneRoute Conditions → Decision → Inspection → PublishState → World → List Text × World
  unfolding refreshed status_outcome
  refresh_status domain obj d inspected state w =
      let (changed, conditions) = refreshed domain obj d inspected state in
      if not changed
      then ([], w)
      else status_outcome obj.name (
          update_status
            (record obj { conditions = conditions; observed_generation = obj.generation }) w)

  -- The loop over the items.
  unfoldable pub refresh_all :
      Text
      → Dict Decision
      → Inspection
      → PublishState
      → List (ZoneRoute Conditions)
      → World
      → List Text × World
  unfolding refresh_status
  refresh_all domain by_name inspected state [] w = ([], w)
  refresh_all domain by_name inspected state (obj ∷ objs) w =
      let (errs, w') = refresh_status domain obj (decision_of by_name obj.name) inspected state w in
      let (rest, w'') = refresh_all domain by_name inspected state objs w' in (errs ++ rest, w'')

  -- The errors of `publish` that are returned.
  unfoldable pub publish_errors : PublishState → List Text
  publish_errors state = elim state.reason [
    | none ↦ []
    | some r ↦ elim r [ write_failed ↦ state.detail ∷ [] | _ ↦ [] ]
  ]

  -- `errors.Join`
  unfoldable pub join_errors : List Text → Option (ReconcileError ApiError)
  join_errors [] = none
  join_errors (e ∷ es) = some (joined (e ∷ es))

  -- What `Reconcile` does once the decisions are made.
  unfoldable pub act :
      Text
      → List (ZoneRoute Conditions)
      → Option (Dict Text)
      → Inspection
      → List Decision
      → World
      → Option (ReconcileError ApiError) × World
  unfolding publish refresh_all publish_errors join_errors
  act domain items custom inspected decisions w =
      let rendered = render c (to_render_routes items (accepted_set decisions)) in
      let (state, w') = publish custom rendered w in
      let (errs, w'') =
        refresh_all domain (index_decisions decisions []) inspected state items w' in
      (join_errors (publish_errors state ++ errs), w'')

  unfoldable pub decide_and_act :
      Text
      → List (ZoneRoute Conditions)
      → Option (Dict Text)
      → Result InspectError Inspection
      → World
      → Option (ReconcileError ApiError) × World
  unfolding act
  decide_and_act domain items custom (err e) w = (some (inspecting_failed e), w)
  decide_and_act domain items custom (ok inspected) w =
      elim (resolve (to_conflict_routes items) (to_existing inspected) domain) [
        | none ↦ (some empty_cluster_domain, w)
        | some decisions ↦ act domain items custom inspected decisions w
      ]

  abbrev pub servers_of : Option (Dict Text) → Dict Text
  servers_of none = []
  servers_of (some m) = m

  -- The ConfigMap coredns-custom: absent, or with its data.
  unfoldable pub read_custom : Result ApiError (Dict Text) → Result ApiError (Option (Dict Text))
  read_custom (ok m) = ok (some m)
  read_custom (err e) = if is_not_found e then ok none else err e

  unfoldable pub with_corefile :
      Text
      → List (ZoneRoute Conditions)
      → Option Text
      → World
      → Option (ReconcileError ApiError) × World
  unfolding decide_and_act read_custom
  with_corefile domain items none w = (some no_corefile_key, w)
  with_corefile domain items (some corefile) w =
      elim (read_custom (get_config_map integration_config_map w)) [
        | err e ↦ (some (reading_failed integration_config_map e), w)
        | ok custom ↦
            decide_and_act domain items custom (inspect c finite corefile (servers_of custom)) w
      ]

  -- `items[i].Name < items[j].Name`
  unfoldable pub item_less : ZoneRoute Conditions → ZoneRoute Conditions → Bool
  item_less a b = lt a.name b.name

  unfoldable pub with_items :
      Text → List (ZoneRoute Conditions) → World → Option (ReconcileError ApiError) × World
  unfolding with_corefile
  with_items domain items w = elim (get_config_map corefile_config_map w) [
    | err e ↦ (some (reading_failed corefile_config_map e), w)
    | ok m ↦ with_corefile domain items (lookup corefile_key m) w
  ]

  -- `Reconcile`: the error, if there is one, and the world that it leaves.
  unfoldable pub reconcile : Text → World → Option (ReconcileError ApiError) × World
  unfolding with_items item_less
  reconcile domain w = elim (list_routes w) [
    | err e ↦ (some (listing_failed e), w)
    | ok listed ↦ with_items domain (sort item_less listed) w
  ]
