-- ===== src/Controller/Reconciler/Reading.antt =====
-- internal/controller/reconciler.go: what of the two ConfigMaps a reconcile depends on.
use zoneroute.Base.{
  List, [], ◌∷◌, ◌++◌, Option, none, some, ◌≡◌, refl, ◌∙◌, ap, sym, inl, inr, Option-cases,
  if◌then◌else◌,
}
use zoneroute.Result.{Result, ok, err, Result-cases}
use zoneroute.Text.{Text, same}
use zoneroute.Dict.{Dict, lookup}
use zoneroute.Caddyfile.{Caddyfile, IsFinite}
use zoneroute.Api.{ZoneRoute}
use zoneroute.Conflict.{Decision, resolve}
use zoneroute.Corefile.{Inspection, InspectError, managed_key, inspect}
use zoneroute.Render.{render}
use zoneroute.Controller.Convert.{to_render_routes, to_conflict_routes, to_existing}
use zoneroute.Controller.Predicates.{corefile_config_map, corefile_key, integration_config_map}
use zoneroute.Controller.Status.{PublishState}
use zoneroute.Controller.Reconciler.{
  publish, publish_rendered, publish_fragment, patch_outcome, is_current, refreshed, refresh_status,
  status_outcome, decision_of, act, decide_and_act, read_custom, with_corefile, with_items,
  item_less, reconcile, refresh_all, index_decisions, join_errors, publish_errors, accepted_set,
}
use zoneroute.Controller.Client.{Client}

-- The client, when the ConfigMap of this name holds this data.
abbrev pub with_map : Client → Text → Dict Text → Client
with_map k name entries = record {
  World = k.World;
  Conditions = k.Conditions;
  ApiError = k.ApiError;
  is_not_found = k.is_not_found;
  message = k.message;
  list_routes = k.list_routes;
  get_config_map = λ n w. if same n name then ok entries else k.get_config_map n w;
  patch_config_map = k.patch_config_map;
  update_status = k.update_status;
  set_status_condition = k.set_status_condition;
}

module _ (c : Caddyfile) (finite : IsFinite c) (k : Client) (name : Text)
    (entries : Dict Text) where
  open k use {World, Conditions, ApiError}

  -- What follows the reads does not depend on what they would return.
  publish-with_map :
      (custom : Option (Dict Text)) (rendered : Result Text Text) (w : World)
      → publish c finite (with_map k name entries) custom rendered w
        ≡ publish c finite k custom rendered w
  unfolding publish publish_rendered publish_fragment patch_outcome is_current
  publish-with_map none rendered w = refl
  publish-with_map (some m) (err e) w = refl
  publish-with_map (some m) (ok text) w = refl

  refresh_status-with_map :
      (domain : Text) (obj : ZoneRoute Conditions) (d : Decision) (inspected : Inspection)
      (state : PublishState) (w : World)
      → refresh_status c finite (with_map k name entries) domain obj d inspected state w
        ≡ refresh_status c finite k domain obj d inspected state w
  unfolding refresh_status refreshed status_outcome
  refresh_status-with_map domain obj d inspected state w = refl

  refresh_all-with_map :
      (domain : Text) (by_name : Dict Decision) (inspected : Inspection) (state : PublishState)
      (items : List (ZoneRoute Conditions)) (w : World)
      → refresh_all c finite (with_map k name entries) domain by_name inspected state items w
        ≡ refresh_all c finite k domain by_name inspected state items w
  unfolding refresh_all
  refresh_all-with_map domain by_name inspected state [] w = refl
  refresh_all-with_map domain by_name inspected state (obj ∷ objs) w =
      let (errs, w') =
        refresh_status c finite k domain obj (decision_of by_name obj.name) inspected state w in
      ap
        (λ (out : List Text × World).
          let (first, v) = out in
          let (rest, v') =
            refresh_all c finite (with_map k name entries) domain by_name inspected state objs v in
          (first ++ rest, v'))
        (refresh_status-with_map domain obj (decision_of by_name obj.name) inspected state w)
      ∙ ap (λ (out : List Text × World). (errs ++ out.0, out.1))
          (refresh_all-with_map domain by_name inspected state objs w')

  act-with_map :
      (domain : Text) (items : List (ZoneRoute Conditions)) (custom : Option (Dict Text))
      (inspected : Inspection) (ds : List Decision) (w : World)
      → act c finite (with_map k name entries) domain items custom inspected ds w
        ≡ act c finite k domain items custom inspected ds w
  unfolding act publish_errors join_errors
  act-with_map domain items custom inspected ds w = rw (publish-with_map, refresh_all-with_map) refl

  decide_and_act-with_map :
      (domain : Text) (items : List (ZoneRoute Conditions)) (custom : Option (Dict Text))
      (r : Result InspectError Inspection) (w : World)
      → decide_and_act c finite (with_map k name entries) domain items custom r w
        ≡ decide_and_act c finite k domain items custom r w
  unfolding decide_and_act
  decide_and_act-with_map domain items custom (err e) w = refl
  decide_and_act-with_map domain items custom (ok inspected) w =
      elim (Option-cases (resolve (to_conflict_routes items) (to_existing inspected) domain)) [
        | inl e ↦ rw (e, decide_and_act) refl
        | inr (ds, e) ↦ rw (e, decide_and_act) (act-with_map domain items custom inspected ds w)
      ]

module _ (c : Caddyfile) (finite : IsFinite c) (k : Client) where
  open k use {World, Conditions, ApiError, list_routes, get_config_map}

  -- `publish` reads one entry of coredns-custom.
  publish-entry :
      (m n : Dict Text) (rendered : Result Text Text) (w : World)
      → lookup managed_key m ≡ lookup managed_key n
      → publish c finite k (some m) rendered w ≡ publish c finite k (some n) rendered w
  unfolding publish publish_rendered publish_fragment
  publish-entry m n (err e) w h = refl
  publish-entry m n (ok text) w h = rw (h) refl

  act-entry :
      (domain : Text) (items : List (ZoneRoute Conditions)) (m n : Dict Text)
      (inspected : Inspection) (ds : List Decision) (w : World)
      → lookup managed_key m ≡ lookup managed_key n
      → act c finite k domain items (some m) inspected ds w
        ≡ act c finite k domain items (some n) inspected ds w
  unfolding act
  act-entry domain items m n inspected ds w h =
      ap
        (λ (out : PublishState × World).
          let (errs, v) =
            refresh_all c finite k domain (index_decisions ds []) inspected out.0 items out.1 in
          (join_errors c finite k (publish_errors c finite k out.0 ++ errs), v))
        (publish-entry m n (render c (to_render_routes items (accepted_set ds))) w h)

  decide_and_act-entry :
      (domain : Text) (items : List (ZoneRoute Conditions)) (m n : Dict Text)
      (r : Result InspectError Inspection) (w : World)
      → lookup managed_key m ≡ lookup managed_key n
      → decide_and_act c finite k domain items (some m) r w
        ≡ decide_and_act c finite k domain items (some n) r w
  unfolding decide_and_act
  decide_and_act-entry domain items m n (err e) w h = refl
  decide_and_act-entry domain items m n (ok inspected) w h =
      elim (Option-cases (resolve (to_conflict_routes items) (to_existing inspected) domain)) [
        | inl e ↦ rw (e, decide_and_act) refl
        | inr (ds, e) ↦ rw (e, decide_and_act) (act-entry domain items m n inspected ds w h)
      ]

  decide-custom :
      (m n : Dict Text)
      → lookup managed_key m ≡ lookup managed_key n
      → ((corefile : Text) → inspect c finite corefile m ≡ inspect c finite corefile n)
      → (domain : Text) (items : List (ZoneRoute Conditions)) (corefile : Text) (w : World)
      → decide_and_act c finite
          (with_map k integration_config_map m)
          domain
          items
          (some m)
          (inspect c finite corefile m)
          w
        ≡ decide_and_act c finite
            (with_map k integration_config_map n)
            domain
            items
            (some n)
            (inspect c finite corefile n)
            w
  decide-custom m n kept seen domain items corefile w =
      decide_and_act-with_map c finite k integration_config_map m domain items (some m) _ w
      ∙ ap (λ r. decide_and_act c finite k domain items (some m) r w) (seen corefile)
      ∙ decide_and_act-entry domain items m n _ w kept
      ∙ sym (decide_and_act-with_map c finite k integration_config_map n domain items (some n) _ w)

  -- Of coredns-custom a reconcile depends on the entry that ZoneRoute owns and on what `Inspect`
  -- sees.
  pub reconcile-custom :
      (m n : Dict Text)
      → lookup managed_key m ≡ lookup managed_key n
      → ((corefile : Text) → inspect c finite corefile m ≡ inspect c finite corefile n)
      → (domain : Text) (w : World)
      → reconcile c finite (with_map k integration_config_map m) domain w
        ≡ reconcile c finite (with_map k integration_config_map n) domain w
  unfolding reconcile with_items with_corefile read_custom item_less same
  reconcile-custom m n kept seen domain w = elim (Result-cases (list_routes w)) [
    | inr (e, q) ↦ rw (q, reconcile) refl
    | inl (l, q) ↦ elim (Result-cases (get_config_map corefile_config_map w)) [
      | inr (e, r) ↦ rw (q, reconcile) (rw (r, with_items) refl)
      | inl (entries, r) ↦ elim (Option-cases (lookup corefile_key entries)) [
        | inl s ↦ rw (q, reconcile) (rw (r, with_items) (rw (s, with_corefile) refl))
        | inr (corefile, s) ↦
            rw (q, reconcile)
              (rw (r, with_items)
                (rw (s, with_corefile) (decide-custom m n kept seen domain _ corefile w)))
      ]
    ]
  ]

  with_corefile-with_map :
      (m n : Dict Text) (domain : Text) (items : List (ZoneRoute Conditions)) (o : Option Text)
      (w : World)
      → with_corefile c finite (with_map k corefile_config_map m) domain items o w
        ≡ with_corefile c finite (with_map k corefile_config_map n) domain items o w
  unfolding with_corefile read_custom same
  with_corefile-with_map m n domain items none w = refl
  with_corefile-with_map m n domain items (some corefile) w =
      elim (Result-cases (read_custom c finite k (get_config_map integration_config_map w))) [
        | inr (e, q) ↦ rw (q, with_corefile) refl
        | inl (custom, q) ↦
            rw (q, with_corefile)
              (decide_and_act-with_map c finite k corefile_config_map m domain items custom _ w
                ∙ sym (
                    decide_and_act-with_map c finite k corefile_config_map n domain items custom _
                      w))
      ]

  -- Of coredns it depends on the entry Corefile.
  pub reconcile-corefile :
      (m n : Dict Text)
      → lookup corefile_key m ≡ lookup corefile_key n
      → (domain : Text) (w : World)
      → reconcile c finite (with_map k corefile_config_map m) domain w
        ≡ reconcile c finite (with_map k corefile_config_map n) domain w
  unfolding reconcile with_items item_less same
  reconcile-corefile m n h domain w = elim (Result-cases (list_routes w)) [
    | inr (e, q) ↦ rw (q, reconcile) refl
    | inl (l, q) ↦
        rw (q, reconcile)
          (rw (h, with_items) (with_corefile-with_map m n domain _ (lookup corefile_key n) w))
  ]
