-- ===== src/Controller/Reconciler/Writes.antt =====
-- internal/controller/reconciler.go: publish and updateStatus write nothing when everything is as it
-- should be.
use mathlib.Core.List.{Mem, mem-cons_self, mem-cons_of_mem}
use zoneroute.Base.{false, List, [], ◌∷◌, ◌++◌, none, some, ◌≡◌, refl, ◌∙◌}
use zoneroute.Result.{ok}
use zoneroute.Text.{Text}
use zoneroute.Text.Order.{same_refl}
use zoneroute.Dict.{Dict, lookup}
use zoneroute.Caddyfile.{Caddyfile, IsFinite}
use zoneroute.Api.{ZoneRoute}
use zoneroute.Conflict.{Decision}
use zoneroute.Corefile.{Inspection, managed_key}
use zoneroute.Render.{render}
use zoneroute.Controller.Status.{PublishState}
use zoneroute.Controller.Convert.{to_render_routes}
use zoneroute.Controller.Reconciler.{
  decision_of, index_decisions, accepted_set, is_current, publish, refreshed, refresh_status,
  refresh_all, publish_errors, join_errors, act, in_place,
}
use zoneroute.Controller.Client.{Client}

module _ (c : Caddyfile) (finite : IsFinite c) (k : Client) where
  open k use {World, Conditions, ApiError, get_config_map, list_routes}

  pub refresh_status-current :
      (domain : Text) (obj : ZoneRoute Conditions) (d : Decision) (inspected : Inspection)
      (state : PublishState) (w : World)
      → (refreshed c finite k domain obj d inspected state).0 ≡ false
      → refresh_status c finite k domain obj d inspected state w ≡ ([], w)
  unfolding refresh_status
  refresh_status-current domain obj d inspected state w h = rw h refl

  pub refresh_all-current :
      (domain : Text) (by_name : Dict Decision) (inspected : Inspection) (state : PublishState)
      (items : List (ZoneRoute Conditions)) (w : World)
      → ((obj : ZoneRoute Conditions)
          → Mem obj items
          → (refreshed c finite k domain obj (decision_of by_name obj.name) inspected state).0
            ≡ false)
      → refresh_all c finite k domain by_name inspected state items w ≡ ([], w)
  unfolding refresh_all
  refresh_all-current domain by_name inspected state [] w h = refl
  refresh_all-current domain by_name inspected state (obj ∷ objs) w h =
      let one =
        refresh_status-current domain obj (decision_of by_name obj.name) inspected state w
          (h obj mem-cons_self) in
      let rest =
        refresh_all-current domain by_name inspected state objs w
          (λ x m. h x (mem-cons_of_mem obj m)) in
      (λ i.
        let (errs, w') = one i in
        let (more, w'') = refresh_all c finite k domain by_name inspected state objs w' in
        (errs ++ more, w''))
      ∙ rest

  pub publish-current :
      (m : Dict Text) (fragment : Text) (w : World)
      → lookup managed_key m ≡ some fragment
      → publish c finite k (some m) (ok fragment) w ≡ (in_place c finite k, w)
  unfolding publish is_current
  publish-current m fragment w h = rw (h, publish) (rw (same_refl fragment) refl)

  -- Suppose that the rendered fragment is the one in coredns-custom, and that no route's
  -- conditions or observed generation would change. Then what follows the decisions makes no
  -- write and returns no error.
  pub act-current :
      (domain : Text) (items : List (ZoneRoute Conditions)) (m : Dict Text) (inspected : Inspection)
      (ds : List Decision) (fragment : Text) (w : World)
      → render c (to_render_routes items (accepted_set ds)) ≡ ok fragment
      → lookup managed_key m ≡ some fragment
      → ((obj : ZoneRoute Conditions)
          → Mem obj items
          → (refreshed c finite k domain obj
              (decision_of (index_decisions ds []) obj.name)
              inspected
              (in_place c finite k)).0
            ≡ false)
      → act c finite k domain items (some m) inspected ds w ≡ (none, w)
  unfolding act join_errors publish_errors
  act-current domain items m inspected ds fragment w rendered current same_status =
      rw (rendered, act)
        (rw (publish-current m fragment w current) (
          rw
            (refresh_all-current domain (index_decisions ds []) inspected (in_place c finite k)
              items w same_status)
            refl))
