-- ===== src/Controller/Reconciler/Live.antt =====
-- When nothing fails, neither does a reconcile.
use zoneroute.Base.{
  List, [], ◌∷◌, ◌++◌, Option, none, some, ◌≡◌, ◌≢◌, refl, ◌∙◌, ap, inl, inr, Bool-cases,
  Option-cases,
}
use zoneroute.Result.{Result, ok, err}
use zoneroute.Text.{Text, trim_space}
use zoneroute.Dict.{Dict, lookup}
use zoneroute.Caddyfile.{Caddyfile, IsFinite}
use zoneroute.Api.{ZoneRoute}
use zoneroute.Conflict.{Decision, resolve}
use zoneroute.Conflict.Decisions.{resolve-none_iff}
use zoneroute.Corefile.{Inspection, managed_key, inspect}
use zoneroute.Sort.{sort}
use zoneroute.Controller.Status.{PublishState}
use zoneroute.Controller.Convert.{to_conflict_routes, to_existing}
use zoneroute.Controller.Predicates.{corefile_config_map, corefile_key, integration_config_map}
use zoneroute.Controller.Reconciler.{
  decision_of, refreshed, refresh_status, refresh_all, publish, publish_rendered, publish_fragment,
  publish_errors, is_current, patch_outcome, status_outcome, join_errors, act, read_custom,
  item_less, servers_of, reconcile,
}
use zoneroute.Controller.Client.{Client}
use zoneroute.Controller.Reconciler.Reads.{Inputs, Reads, reconcile-Reads}

module _ (c : Caddyfile) (finite : IsFinite c) (k : Client) where
  open k use {
    World, Conditions, ApiError, list_routes, get_config_map, patch_config_map, update_status,
  }

  -- No patch of the entry and no status update fails.
  pub record IsWritable : Type 0 where
    pub patch_done :
        (text : Text) (w : World)
        → (patch_config_map integration_config_map managed_key text w).0 ≡ none
    pub update_done : (obj : ZoneRoute Conditions) (w : World) → (update_status obj w).0 ≡ none

  module _ (writable : IsWritable) where
    patch_outcome-done :
        (o : Option ApiError × World)
        → o.0 ≡ none
        → publish_errors c finite k (patch_outcome c finite k o).0 ≡ []
    unfolding patch_outcome publish_errors
    patch_outcome-done (none, w) h = refl
    patch_outcome-done (some e, w) h = cc

    publish-done :
        (custom : Option (Dict Text)) (rendered : Result Text Text) (w : World)
        → publish_errors c finite k (publish c finite k custom rendered w).0 ≡ []
    unfolding publish publish_rendered publish_fragment
    publish-done none rendered w = unfold publish_errors in refl
    publish-done (some m) (err e) w = unfold publish_errors in refl
    publish-done (some m) (ok text) w =
        elim (Bool-cases (is_current c finite k text (lookup managed_key m))) [
          | inl q ↦ rw (q, publish_fragment) (unfold publish_errors in refl)
          | inr q ↦ rw (q, publish_fragment) (patch_outcome-done _ (writable.patch_done text w))
        ]

    status_outcome-done :
        (name : Text) (o : Option ApiError × World)
        → o.0 ≡ none
        → (status_outcome c finite k name o).0 ≡ []
    unfolding status_outcome
    status_outcome-done name (none, w) h = refl
    status_outcome-done name (some e, w) h = cc

    refresh_status-done :
        (domain : Text) (obj : ZoneRoute Conditions) (d : Decision) (inspected : Inspection)
        (state : PublishState) (w : World)
        → (refresh_status c finite k domain obj d inspected state w).0 ≡ []
    unfolding refresh_status
    refresh_status-done domain obj d inspected state w =
        elim (Bool-cases (refreshed c finite k domain obj d inspected state).0) [
          | inr q ↦ rw (q) refl
          | inl q ↦ rw (q) (status_outcome-done obj.name _ (writable.update_done _ w))
        ]

    refresh_all-done :
        (domain : Text) (by_name : Dict Decision) (inspected : Inspection) (state : PublishState)
        (items : List (ZoneRoute Conditions)) (w : World)
        → (refresh_all c finite k domain by_name inspected state items w).0 ≡ []
    unfolding refresh_all
    refresh_all-done domain by_name inspected state [] w = refl
    refresh_all-done domain by_name inspected state (obj ∷ objs) w =
        let first =
          refresh_status c finite k domain obj (decision_of by_name obj.name) inspected state w in
        ap (λ l. l ++ (refresh_all c finite k domain by_name inspected state objs first.1).0)
          (refresh_status-done domain obj (decision_of by_name obj.name) inspected state w)
        ∙ refresh_all-done domain by_name inspected state objs first.1

    act-done :
        (domain : Text) (items : List (ZoneRoute Conditions)) (custom : Option (Dict Text))
        (inspected : Inspection) (decisions : List Decision) (w : World)
        → (act c finite k domain items custom inspected decisions w).0 ≡ none
    unfolding act join_errors
    act-done domain items custom inspected decisions w =
        rw (publish-done custom _ w, refresh_all-done domain _ inspected _ items _) refl

    -- Suppose that the API server refuses no write. A reconcile that lists the routes, reads the
    -- Corefile and finds coredns-custom, or finds it missing, returns no error, if `Inspect` takes
    -- both and the cluster domain is not blank.
    pub reconcile-done :
        (domain : Text)
        → trim_space domain ≢ []
        → (w : World) (l : List (ZoneRoute Conditions)) (entries : Dict Text) (corefile : Text)
          (custom : Option (Dict Text)) (inspected : Inspection)
        → list_routes w ≡ ok l
        → get_config_map corefile_config_map w ≡ ok entries
        → lookup corefile_key entries ≡ some corefile
        → read_custom c finite k (get_config_map integration_config_map w) ≡ ok custom
        → inspect c finite corefile (servers_of c finite k custom) ≡ ok inspected
        → (reconcile c finite k domain w).0 ≡ none
    reconcile-done domain nonblank w l entries corefile custom inspected e f g a b =
        let routes = to_conflict_routes (sort (item_less c finite k) l) in
        elim (Option-cases (resolve routes (to_existing inspected) domain)) [
          | inl d ↦ absurd (nonblank ((resolve-none_iff routes (to_existing inspected) domain).0 d))
          | inr (decisions, d) ↦
              let i : Inputs k = record {
                listed = l;
                entries = entries;
                corefile = corefile;
                custom = custom;
                inspected = inspected;
                decisions = decisions;
              } in
              let r : Reads c finite k domain w i = record {
                routes_read = e;
                coredns_read = f;
                corefile_found = g;
                custom_read = a;
                parsed = b;
                decided = d;
              } in
              ap (λ out. out.0) (reconcile-Reads c finite k domain w i r)
              ∙ act-done domain _ custom inspected decisions w
        ]
