-- ===== src/Controller/Tests/Again.antt =====
-- The theorems on repeated reconciles, with the small API server that keeps its promises.
use zoneroute.Base.{
  ℕ, List, [], ◌∷◌, Option, none, some, ◌≡◌, refl, ap, if◌then◌else◌, ◌⊎◌, ◌≢◌, true, false,
}
use zoneroute.Controller.Client.{Client, ReconcileError, reading_failed, no_corefile_key}
use zoneroute.Controller.Reconciler.Blocked.{Blocked, no_custom}
use zoneroute.Controller.Reconciler.Closed.{reconcile-Blocked}
use zoneroute.Result.{err}
use zoneroute.Controller.Reconciler.Reading.{with_map}
use zoneroute.Text.{Text, codes, same, trim_space}
use zoneroute.Caddyfile.Sample.{sample, sample_finite}
use zoneroute.Controller.Reconciler.{reconcile, read_custom}
use zoneroute.Controller.Reconciler.Converged.{reconcile_again}
use zoneroute.Result.{ok}
use zoneroute.Dict.{lookup}
use zoneroute.Corefile.{Inspection, inspect}
use zoneroute.Controller.Reconciler.Trace.{Written, reconcile-Written}
use zoneroute.Controller.Reconciler.Owned.{Keeps, at_start, then_run, Runs-Keeps}
use zoneroute.Controller.Reconciler.Live.{reconcile-done}
use mathlib.Core.List.{Nodup}
use zoneroute.Dict.{contains}
use zoneroute.Dict.Distinct.{distinct, distinct-Nodup}
use zoneroute.Corefile.Foreign.{keys}
use zoneroute.Api.{ConfigMap, config_map}
use zoneroute.Controller.Predicates.{
  corefile_config_map, corefile_key, core_dns_namespace, integration_config_map, update_event,
}
use zoneroute.Controller.Setup.{wakes, setup_with_manager, config_maps}
use zoneroute.Controller.Reconciler.Missed.{missed_update, IsGap, missed_corefile_update}
use zoneroute.Controller.Sample.{Store, Stored, store_client, routes_of, note, corefile_entries}
use zoneroute.Controller.Sample.Lawful.{store_lawful, store_writable}

abbrev domain : Text
domain = codes "cluster.local."

abbrev other_domain : Text
other_domain = codes "corp."

abbrev fresh : Stored
fresh = record { observed = 0; conditions = [] }

abbrev start : Store
start = record { first = fresh; second = fresh; owned = none }

-- What the first reconcile leaves.
abbrev after : Store
after = (reconcile sample sample_finite store_client domain start).1

first_run : (reconcile sample sample_finite store_client domain start).0 ≡ none
unfolding reconcile zoneroute.Dict.lookup zoneroute.Text.same zoneroute.Corefile.inspect
    zoneroute.Corefile.blank_lines zoneroute.Corefile.Scan.scan_imports zoneroute.Text.split
    zoneroute.Base.Int.is_zero zoneroute.Corefile.Scan.is_snippet zoneroute.Text.starts_with
    zoneroute.Corefile.blank_line zoneroute.Corefile.add_keys zoneroute.Corefile.flatten
    zoneroute.Text.join zoneroute.Text.has_suffix zoneroute.Sort.sort zoneroute.Base.Lists.filter
    zoneroute.Conflict.resolve zoneroute.Text.trim_space zoneroute.Render.render
    zoneroute.Sort.insert zoneroute.Text.Order.lt
first_run = refl

first_reconcile : reconcile sample sample_finite store_client domain start ≡ (none, after)
first_reconcile = ap (λ e. (e, after)) first_run

reconcile_again_example : reconcile sample sample_finite store_client domain after ≡ (none, after)
reconcile_again_example =
    reconcile_again sample sample_finite store_client store_lawful domain start after
      first_reconcile

reconcile-Written_example : Written sample sample_finite store_client (routes_of start) start after
reconcile-Written_example =
    reconcile-Written sample sample_finite store_client domain start (routes_of start) refl

-- Two reconciles, of controllers with different cluster domains.
abbrev last : Store
last = (reconcile sample sample_finite store_client other_domain after).1

Runs-Keeps_example : Keeps sample sample_finite store_client start last
Runs-Keeps_example =
    Runs-Keeps sample sample_finite store_client store_lawful start last
      (then_run (then_run at_start domain) other_domain)

abbrev wired_only : Inspection
wired_only = record { listeners = []; wired = true; unresolved_imports = [] }

first_inspected :
    inspect sample sample_finite (codes "import custom/*.server") (note ∷ []) ≡ ok wired_only
unfolding inspect zoneroute.Corefile.blank_lines zoneroute.Corefile.Scan.scan_imports
    zoneroute.Text.split same zoneroute.Base.Int.is_zero zoneroute.Corefile.Scan.is_snippet
    zoneroute.Text.starts_with zoneroute.Corefile.blank_line zoneroute.Corefile.add_keys
    zoneroute.Corefile.flatten zoneroute.Text.join zoneroute.Text.has_suffix zoneroute.Sort.sort
    zoneroute.Base.Lists.filter zoneroute.Corefile.classify zoneroute.Corefile.is_resolved
    zoneroute.Base.Int.is_positive zoneroute.Dict.contains zoneroute.Corefile.is_wiring
first_inspected = refl

domain_text : trim_space domain ≢ []
unfolding trim_space
domain_text e = cc

reconcile-done_example : (reconcile sample sample_finite store_client domain start).0 ≡ none
unfolding same lookup read_custom
reconcile-done_example =
    reconcile-done sample sample_finite store_client (store_writable sample sample_finite) domain
      domain_text start (routes_of start) corefile_entries (codes "import custom/*.server")
      (some (note ∷ [])) wired_only refl refl refl refl first_inspected

-- The note is changed by hand; the fragment and the world stay.
abbrev old_map : ConfigMap
old_map = record {
  namespace = core_dns_namespace;
  name = integration_config_map;
  data_entries = note ∷ [];
}

abbrev new_map : ConfigMap
new_map = record old_map { data_entries = (codes "notes", codes "changed") ∷ [] }

old_map-Nodup : Nodup (keys old_map.data_entries)
unfolding distinct contains
old_map-Nodup = distinct-Nodup (keys old_map.data_entries) refl

dropped :
    wakes
      (setup_with_manager (λ e. true) domain)
      config_maps
      (update_event (some (config_map old_map)) (some (config_map new_map)))
    ≡ false
unfolding wakes zoneroute.Base.Lists.any setup_with_manager
    zoneroute.Controller.Predicates.core_dns_config_map_predicate same zoneroute.Base.Lists.filter
    zoneroute.Text.has_suffix
dropped = refl

missed_update_example :
    reconcile sample sample_finite
      (with_map store_client integration_config_map old_map.data_entries)
      domain
      start
    ≡ reconcile sample sample_finite
        (with_map store_client integration_config_map new_map.data_entries)
        domain
        start
missed_update_example =
    missed_update sample sample_finite store_client (λ e. true) domain old_map new_map refl refl
      old_map-Nodup old_map-Nodup dropped start

-- The Corefile stays, and another key appears.
abbrev old_corefile_map : ConfigMap
old_corefile_map = record {
  namespace = core_dns_namespace;
  name = corefile_config_map;
  data_entries = corefile_entries;
}

abbrev new_corefile_map : ConfigMap
new_corefile_map = record old_corefile_map { data_entries = note ∷ corefile_entries }

dropped_corefile :
    wakes
      (setup_with_manager (λ e. true) domain)
      config_maps
      (update_event (some (config_map old_corefile_map)) (some (config_map new_corefile_map)))
    ≡ false
unfolding wakes zoneroute.Base.Lists.any setup_with_manager
    zoneroute.Controller.Predicates.core_dns_config_map_predicate same lookup
dropped_corefile = refl

missed_corefile_update_example :
    (reconcile sample sample_finite
        (with_map store_client corefile_config_map old_corefile_map.data_entries)
        domain
        start
      ≡ reconcile sample sample_finite
          (with_map store_client corefile_config_map new_corefile_map.data_entries)
          domain
          start)
    ⊎ IsGap
        (lookup corefile_key old_corefile_map.data_entries)
        (lookup corefile_key new_corefile_map.data_entries)
missed_corefile_update_example =
    missed_corefile_update sample sample_finite store_client (λ e. true) domain old_corefile_map
      new_corefile_map refl refl dropped_corefile start

-- The gap: an empty Corefile that is removed is dropped, although a reconcile of it fails.
abbrev empty_corefile_map : ConfigMap
empty_corefile_map = record old_corefile_map { data_entries = (corefile_key, []) ∷ [] }

abbrev no_corefile_map : ConfigMap
no_corefile_map = record old_corefile_map { data_entries = [] }

gap_dropped :
    wakes
      (setup_with_manager (λ e. true) domain)
      config_maps
      (update_event (some (config_map empty_corefile_map)) (some (config_map no_corefile_map)))
    ≡ false
unfolding wakes zoneroute.Base.Lists.any setup_with_manager
    zoneroute.Controller.Predicates.core_dns_config_map_predicate same lookup
gap_dropped = refl

gap_fails :
    (reconcile sample sample_finite
      (with_map store_client corefile_config_map no_corefile_map.data_entries)
      domain
      start).0
    ≡ some no_corefile_key
unfolding reconcile lookup same
gap_fails = refl

gap_succeeds :
    (reconcile sample sample_finite
      (with_map store_client corefile_config_map empty_corefile_map.data_entries)
      domain
      start).0
    ≡ none
unfolding reconcile lookup same inspect zoneroute.Corefile.blank_lines
    zoneroute.Corefile.Scan.scan_imports zoneroute.Text.split zoneroute.Corefile.add_keys
    zoneroute.Corefile.flatten zoneroute.Text.join zoneroute.Text.has_suffix zoneroute.Sort.sort
    zoneroute.Base.Lists.filter zoneroute.Conflict.resolve trim_space zoneroute.Render.render
    zoneroute.Sort.insert zoneroute.Text.Order.lt
gap_succeeds = refl

-- The API server refuses to show coredns-custom.
abbrev guarded : Client
guarded = record store_client {
  get_config_map = λ n w.
      if same n integration_config_map
      then err (codes "forbidden")
      else store_client.get_config_map n w;
}

abbrev refusal : ReconcileError Text
refusal = reading_failed integration_config_map (codes "forbidden")

reconcile-Blocked_example :
    (Blocked sample sample_finite guarded domain start refusal
      → reconcile sample sample_finite guarded domain start ≡ (some refusal, start))
    × ((reconcile sample sample_finite guarded domain start).0 ≡ some refusal
        → Blocked sample sample_finite guarded domain start refusal)
reconcile-Blocked_example = reconcile-Blocked sample sample_finite guarded domain start refusal tt

refusal-Blocked : Blocked sample sample_finite guarded domain start refusal
unfolding same lookup
refusal-Blocked =
    no_custom (codes "import custom/*.server") (codes "forbidden")
      (record {
        listed = routes_of start;
        entries = corefile_entries;
        routes_read = refl;
        coredns_read = refl;
        corefile_found = refl;
      })
      refl refl
