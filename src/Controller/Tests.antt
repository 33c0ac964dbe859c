-- ===== src/Controller/Tests.antt =====
-- The theorems on the controller at concrete objects, with a small API server.
pub mod Again
pub mod Blocks
use mathlib.Core.List.{Mem, Nodup, mem-cons, mem-cons_self, not-mem-nil}
use mathlib.Core.Bool.{Bool-set}
use mathlib.Core.Logic.Or
use zoneroute.Base.{
  ℕ, Bool, true, false, not, ◌&&◌, ◌||◌, List, [], ◌∷◌, ◌++◌, map, Option, none, some, ◌≡◌, ◌↔◌,
  refl, subst, sym, inl, inr, ◌==◌, if◌then◌else◌, arith,
}
use zoneroute.Result.{ok}
use zoneroute.Text.{Text, codes, same, has_suffix}
use zoneroute.Dict.{Dict, lookup, contains}
use zoneroute.Dict.Distinct.{distinct, distinct-Nodup}
use zoneroute.Caddyfile.Sample.{sample, sample_finite}
use zoneroute.Api.{Condition, ZoneRoute, ConfigMap, config_map}
use zoneroute.Corefile.{Inspection, empty_inspection, inspect, server_suffix, text_at, managed_key}
use zoneroute.Corefile.Key.{Listener}
use mathlib.Core.List.{Perm}
use mathlib.Core.List.Perm
use zoneroute.Controller.Convert.{to_existing}
use zoneroute.Controller.Convert.Order.{to_existing_perm}
use zoneroute.Corefile.Foreign.{keys}
use zoneroute.Conflict.{Decision, undecided, resolve, Route}
use zoneroute.Render.{render}
use zoneroute.Controller.Status.{accepted_condition, published_condition}
use zoneroute.Controller.Status.Truth.{accepted_condition-accepted}
use zoneroute.Controller.Convert.{to_render_routes}
use zoneroute.Controller.Predicates.{
  config_map_data_changed, core_dns_namespace, integration_config_map, corefile_config_map,
  corefile_key,
}
use zoneroute.Controller.Predicates.Sound.{dropped_update, dropped_corefile_update}
use zoneroute.Controller.Reconciler.{
  reconcile, act, publish, refreshed, decision_of, index_decisions, accepted_set, in_place,
}
use zoneroute.Controller.Client.{Client, no_corefile_key}
use zoneroute.Base.{◌≢◌}
use zoneroute.Dnsname.{canonical}
use zoneroute.Conflict.{Existing}
use zoneroute.Controller.ClusterDomain.{cluster_domain}
use zoneroute.Controller.Reconciler.Domain.{cluster_domain-resolve}
use zoneroute.Controller.Reconciler.Writes.{act-current}
use zoneroute.Controller.Reconciler.Published.{IsInPlace, published_condition-IsInPlace}

abbrev custom_map : Dict Text → ConfigMap
custom_map entries = record {
  namespace = core_dns_namespace;
  name = integration_config_map;
  data_entries = entries;
}

abbrev old_entries : Dict Text
old_entries = (codes "a.server", codes "x") ∷ (codes "notes", codes "old") ∷ []

abbrev new_entries : Dict Text
new_entries = (codes "notes", codes "new") ∷ (codes "a.server", codes "x") ∷ []

old_entries-Nodup : Nodup (keys old_entries)
unfolding distinct contains same
old_entries-Nodup = distinct-Nodup (keys old_entries) refl

new_entries-Nodup : Nodup (keys new_entries)
unfolding distinct contains same
new_entries-Nodup = distinct-Nodup (keys new_entries) refl

update_run :
    config_map_data_changed
      (some (config_map (custom_map old_entries)))
      (some (config_map (custom_map new_entries)))
    ≡ false
unfolding config_map_data_changed same has_suffix lookup zoneroute.Base.Lists.filter
update_run = refl

dropped_update_example :
    ((k : Text) → has_suffix k server_suffix ≡ true → lookup k old_entries ≡ lookup k new_entries)
    × ((corefile : Text)
        → inspect sample sample_finite corefile old_entries
          ≡ inspect sample sample_finite corefile new_entries)
dropped_update_example =
    dropped_update sample sample_finite (custom_map old_entries) (custom_map new_entries) refl refl
      old_entries-Nodup new_entries-Nodup update_run

-- The world is the data of coredns-custom; the ConfigMap coredns is empty.
abbrev same_condition : Condition → Condition → Bool
same_condition a b =
    same a.type b.type
    && (same a.message b.message && a.observed_generation == b.observed_generation)

abbrev has_condition : Condition → List Condition → Bool
has_condition x [] = false
has_condition x (y ∷ ys) = same_condition x y || has_condition x ys

abbrev server : Client
server = record {
  World = Dict Text;
  Conditions = List Condition;
  ApiError = Text;
  is_not_found = λ e. true;
  message = λ e. e;
  list_routes = λ w. ok [];
  get_config_map = λ name w. if same name integration_config_map then ok w else ok [];
  patch_config_map = λ name k v w. (none, (k, v) ∷ w);
  update_status = λ obj w. (none, w);
  set_status_condition = λ x xs. (not (has_condition x xs), x ∷ xs);
}

abbrev cluster : Text
cluster = codes "cluster.local."

reconcile_run : reconcile sample sample_finite server cluster [] ≡ (some no_corefile_key, [])
unfolding reconcile same lookup
reconcile_run = refl

published_condition-IsInPlace_example :
    ((published_condition true
        (publish sample sample_finite server (some []) (ok (codes "x")) []).0
        true
        1).status
      ≡ true)
    ↔ ((true ≡ true)
        × IsInPlace sample sample_finite server (some []) (ok (codes "x")) []
        × (true ≡ true))
published_condition-IsInPlace_example =
    published_condition-IsInPlace sample sample_finite server true (some []) (ok (codes "x")) true 1
      []

abbrev decided : List Decision
decided = record (undecided (codes "a")) { accepted = true } ∷ []

abbrev plain_route : Route
plain_route = record { name = codes "a"; created = 1; zones = codes "corp" ∷ [] }

plain_run : resolve (plain_route ∷ []) [] cluster ≡ some decided
unfolding resolve same lookup contains has_suffix zoneroute.Text.trim_space
    zoneroute.Conflict.decide zoneroute.Conflict.serve_all zoneroute.Conflict.serve
    zoneroute.Conflict.early_decisions zoneroute.Conflict.candidates zoneroute.Conflict.triage
    zoneroute.Conflict.canonical_zones zoneroute.Conflict.dedupe zoneroute.Conflict.is_reserved
    zoneroute.Conflict.candidates_of zoneroute.Conflict.decided_of zoneroute.Conflict.older
    zoneroute.Conflict.conflicts_with zoneroute.Conflict.claim zoneroute.Conflict.assign
    zoneroute.Conflict.by_name zoneroute.Dict.insert zoneroute.Dnsname.canonical
    zoneroute.Text.trim_suffix zoneroute.Text.to_lower zoneroute.Sort.sort zoneroute.Sort.insert
    zoneroute.Text.Order.lt zoneroute.Base.Lists.filter mathlib.Core.List.filter_map
plain_run = refl

accepted_condition-accepted_example :
    (accepted_condition (record (undecided (codes "a")) { accepted = true }) [] cluster 1).status
    ≡ true
accepted_condition-accepted_example =
    accepted_condition-accepted (plain_route ∷ []) [] cluster decided plain_run
      (record (undecided (codes "a")) { accepted = true }) mem-cons_self [] cluster 1

abbrev wired_inspection : Inspection
wired_inspection = record empty_inspection { wired = true }

abbrev stored_route : ZoneRoute (List Condition)
stored_route = record {
  name = codes "a";
  generation = 1;
  created = 1;
  spec = record {
    zones = codes "corp" ∷ [];
    upstreams = record { address = codes "10.0.0.1"; port = 53 } ∷ [];
  };
  observed_generation = 1;
  conditions =
      accepted_condition (record (undecided (codes "a")) { accepted = true }) [] cluster 1
      ∷ published_condition true (in_place sample sample_finite server) true 1
      ∷ [];
}

abbrev stored_fragment : Text
stored_fragment =
    codes
      "# Managed by ZoneRoute. Edits are overwritten.\n\n# zoneroute: a (generation 1)\ncorp {\n    forward . 10.0.0.1 {\n        policy sequential\n    }\n}\n"

render_run :
    render sample (to_render_routes (stored_route ∷ []) (accepted_set decided)) ≡ ok stored_fragment
unfolding render zoneroute.Render.fragment zoneroute.Render.header zoneroute.Render.block
    zoneroute.Render.blocks zoneroute.Render.upstream_addr zoneroute.Render.upstream_words
    zoneroute.Render.zone_keys zoneroute.Render.by_name zoneroute.Render.validate
    zoneroute.Controller.Convert.to_render_routes accepted_set same contains
    zoneroute.Dnsname.canonical zoneroute.Text.trim_suffix zoneroute.Text.to_lower
    zoneroute.Text.join zoneroute.Sort.sort zoneroute.Sort.insert zoneroute.Base.Lists.filter
    mathlib.Core.List.filter_map zoneroute.Strconv.itoa
render_run = refl

stored_current :
    (obj : ZoneRoute (List Condition))
    → Mem obj (stored_route ∷ [])
    → (refreshed sample sample_finite server cluster obj
        (decision_of (index_decisions decided []) obj.name)
        wired_inspection
        (in_place sample sample_finite server)).0
      ≡ false
unfolding refreshed accepted_condition published_condition same decision_of index_decisions lookup
    zoneroute.Dict.insert zoneroute.Controller.Status.published_message
stored_current obj m =
    Or.elim (Bool-set _ _) (mem-cons.0 m)
      (λ e.
        subst
          (λ (x : ZoneRoute (List Condition)).
            (refreshed sample sample_finite server cluster x
              (decision_of (index_decisions decided []) x.name) wired_inspection
              (in_place sample sample_finite server)).0
            ≡ false)
          (sym e) refl)
      (λ r. absurd (not-mem-nil r))

abbrev dns_listener : Listener × Text
dns_listener =
    (record { transport = codes "dns"; zone = codes "corp."; port = 53 }, codes "Corefile")

abbrev tls_listener : Listener × Text
tls_listener =
    (record { transport = codes "tls"; zone = codes "corp."; port = 853 }, codes "a.server")

domain_run : cluster_domain (λ s. []) (codes " Cluster.local ") ≡ ok cluster
unfolding cluster_domain same zoneroute.Text.trim_space zoneroute.Dnsname.canonical
    zoneroute.Text.trim_suffix zoneroute.Text.to_lower
domain_run = refl
