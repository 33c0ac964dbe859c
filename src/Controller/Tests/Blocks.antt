-- ===== src/Controller/Tests/Blocks.antt =====
-- The theorems on the fragment and on dropped events at concrete objects.
use mathlib.Core.List.{Mem, Nodup, mem-cons, mem-cons_self, mem-cons_of_mem, not-mem-nil}
use zoneroute.Base.{
  arith, ℕ, Bool, true, false, List, [], ◌∷◌, ◌++◌, not, map, Option, none, some, ◌≡◌, ◌≢◌, refl,
  ap, subst, sym,
}
use zoneroute.Base.Members.{ne_true}
use zoneroute.Text.Order.{same_iff}
use zoneroute.Result.{ok}
use zoneroute.Text.{Text, codes, same, split}
use zoneroute.Dict.{Dict, contains}
use zoneroute.Dict.Distinct.{distinct, distinct-Nodup}
use zoneroute.Dnsname.{canonical}
use zoneroute.Api.{ZoneRoute, ZoneRouteSpec}
use zoneroute.Conflict.{Decision, undecided, resolve}
use zoneroute.Conflict.Spec.{IsWithin}
use zoneroute.Corefile.{Inspection}
use zoneroute.Corefile.Key.{Listener, parse_key}
use zoneroute.Render
use zoneroute.Caddyfile.Sample.{sample}
use zoneroute.Sort.{sort}
use zoneroute.Net.{has_byte}
use zoneroute.Render.Lines.{IsLine, header_line, all_lines}
use zoneroute.Controller.Admitted.Lines.{admitted-lines}
use zoneroute.Render.{zone_keys, render, by_name}
use zoneroute.Render.Address.{IsAddress}
use zoneroute.Controller.Convert.{to_conflict_routes, to_existing, to_render_routes}
use zoneroute.Controller.Reconciler.{accepted_set}
use zoneroute.Controller.Reconciler.Lawful.{item_names}
use zoneroute.Controller.Fragment.{IsTaken}
use zoneroute.Controller.Admitted.{AreAdmitted, admitted_keys-Free, admitted_keys-Disjoint}
use zoneroute.Controller.Admitted.Upstreams.{forward_word, forward_words-Nodup}
use zoneroute.Api.Schema.{all, unique_zones, no_reserved_zones, unique_upstreams}
use zoneroute.Api.Schema.Unique.{all_iff}
use zoneroute.Api.Schema.Pattern.{is_zone_name}
use zoneroute.Api.Schema.Rules.{IpLibrary, admits_spec}
use zoneroute.Net.{missing_port}

abbrev domain : Text
domain = codes "cluster.local."

abbrev route_in : Text → Text → ZoneRoute Unit
route_in name zone = record {
  name = name;
  generation = 1;
  created = 1;
  spec = record {
    zones = zone ∷ [];
    upstreams = record { address = codes "10.0.0.1"; port = 53 } ∷ [];
  };
  observed_generation = 0;
  conditions = tt;
}

abbrev items : List (ZoneRoute Unit)
items = route_in (codes "a") (codes "corp") ∷ route_in (codes "b") (codes "lab") ∷ []

-- CoreDNS serves another zone, and one of the routes' zones over TLS.
abbrev inspected : Inspection
inspected = record {
  listeners =
      (record { transport = codes "dns"; zone = codes "."; port = 53 }, codes "Corefile")
      ∷ (record { transport = codes "tls"; zone = codes "corp."; port = 853 }, codes "a.server")
      ∷ [];
  wired = true;
  unresolved_imports = [];
}

abbrev both : List Decision
both =
    record (undecided (codes "a")) { accepted = true }
    ∷ record (undecided (codes "b")) { accepted = true }
    ∷ []

items-Nodup : Nodup (item_names items)
unfolding distinct contains same
items-Nodup = distinct-Nodup (item_names items) refl

both_run : resolve (to_conflict_routes items) (to_existing inspected) domain ≡ some both
unfolding resolve same zoneroute.Text.trim_space zoneroute.Sort.sort zoneroute.Conflict.decide
    zoneroute.Conflict.early_decisions to_conflict_routes zoneroute.Conflict.triage
    zoneroute.Base.Lists.filter zoneroute.Conflict.canonical_zones zoneroute.Conflict.dedupe
    contains zoneroute.Sort.insert zoneroute.Conflict.is_reserved canonical zoneroute.Text.to_lower
    zoneroute.Text.trim_suffix zoneroute.Text.has_suffix mathlib.Core.List.filter_map
    mathlib.Core.Option.Option-elim zoneroute.Conflict.assign zoneroute.Conflict.by_name
    zoneroute.Conflict.candidates zoneroute.Conflict.candidates_of zoneroute.Conflict.claim
    zoneroute.Conflict.conflicts_with zoneroute.Conflict.decided_of
    zoneroute.Conflict.is_own_listener zoneroute.Conflict.older zoneroute.Conflict.replaces
    zoneroute.Conflict.serve zoneroute.Conflict.serve_all zoneroute.Conflict.triage_owned
    zoneroute.Conflict.triage_reserved zoneroute.Controller.Convert.to_conflict_route
    zoneroute.Dict.insert zoneroute.Dict.lookup zoneroute.Text.Order.lt to_existing
    zoneroute.Controller.Convert.to_existing_entry zoneroute.Controller.Convert.existing_less
both_run = refl

abbrev block_of : Text → Text → Render.Route
block_of name zone = record {
  name = name;
  generation = 1;
  zones = zone ∷ [];
  upstreams = record { address = codes "10.0.0.1"; port = 53 } ∷ [];
}

rendered :
    to_render_routes items (accepted_set both)
    ≡ block_of (codes "a") (codes "corp") ∷ block_of (codes "b") (codes "lab") ∷ []
unfolding to_render_routes zoneroute.Base.Lists.filter contains accepted_set same
rendered = refl

first_rendered :
    Mem (block_of (codes "a") (codes "corp")) (to_render_routes items (accepted_set both))
first_rendered = subst (Mem (block_of (codes "a") (codes "corp"))) (sym rendered) mem-cons_self

second_rendered :
    Mem (block_of (codes "b") (codes "lab")) (to_render_routes items (accepted_set both))
second_rendered =
    subst (Mem (block_of (codes "b") (codes "lab"))) (sym rendered)
      (mem-cons_of_mem _ mem-cons_self)

names_apart : codes "a" ≢ codes "b"
unfolding same
names_apart e = ne_true refl ((same_iff (codes "a") (codes "b")).1 e)

-- `isIP` of the IPv4 addresses that are used here.
abbrev sample_ip : IpLibrary
sample_ip = record { is_ip = λ a. same a (codes "10.0.0.1"); is_canonical = λ a. true }

items_admitted : all (λ (x : ZoneRoute Unit). admits_spec sample_ip x.spec) items ≡ true
unfolding all admits_spec is_zone_name zoneroute.Text.split zoneroute.Text.trim_suffix same
    zoneroute.Text.lower_byte unique_zones no_reserved_zones zoneroute.Base.Lists.filter
    zoneroute.Text.has_suffix zoneroute.Text.to_lower zoneroute.Text.drop_last contains
    unique_upstreams
items_admitted = refl

items-AreAdmitted : AreAdmitted sample_ip items
items-AreAdmitted =
    (all_iff (λ (x : ZoneRoute Unit). admits_spec sample_ip x.spec) items).0 items_admitted

corp_key : Mem (codes "corp") (zone_keys (codes "corp" ∷ []))
unfolding zone_keys zoneroute.Sort.sort zoneroute.Sort.insert zoneroute.Text.trim_suffix canonical
    zoneroute.Text.to_lower same
corp_key = mem-cons_self

lab_key : Mem (codes "lab") (zone_keys (codes "lab" ∷ []))
unfolding zone_keys zoneroute.Sort.sort zoneroute.Sort.insert zoneroute.Text.trim_suffix canonical
    zoneroute.Text.to_lower same
lab_key = mem-cons_self

admitted_keys-Free_example : ∥ (
    (l : Listener) × (parse_key (codes "corp") ≡ ok l)
    × (¬ IsWithin (canonical domain) l.zone)
    × (¬ IsTaken inspected l)) ∥₁
admitted_keys-Free_example =
    admitted_keys-Free sample_ip items inspected domain both items-AreAdmitted items-Nodup both_run
      (block_of (codes "a") (codes "corp")) first_rendered (codes "corp") corp_key

admitted_keys-Disjoint_example : parse_key (codes "corp") ≢ parse_key (codes "lab")
admitted_keys-Disjoint_example =
    admitted_keys-Disjoint sample_ip items inspected domain both items-AreAdmitted items-Nodup
      both_run (block_of (codes "a") (codes "corp")) (block_of (codes "b") (codes "lab"))
      first_rendered second_rendered names_apart (codes "corp") (codes "lab") corp_key lab_key

-- One resolver on two ports.
abbrev two_ports : ZoneRouteSpec
two_ports = record {
  zones = codes "corp" ∷ [];
  upstreams =
      record { address = codes "10.0.0.1"; port = 53 }
      ∷ record { address = codes "10.0.0.1"; port = 54 }
      ∷ [];
}

two_ports_admitted : admits_spec sample_ip two_ports ≡ true
unfolding all admits_spec is_zone_name zoneroute.Text.split zoneroute.Text.trim_suffix same
    zoneroute.Text.lower_byte unique_zones no_reserved_zones zoneroute.Base.Lists.filter
    zoneroute.Text.has_suffix zoneroute.Text.to_lower zoneroute.Text.drop_last contains
    unique_upstreams
two_ports_admitted = refl

sample-IsAddress : IsAddress (codes "10.0.0.1")
unfolding zoneroute.Net.has_byte zoneroute.Net.split_host_port
sample-IsAddress = record { no_open = refl; no_close = refl; no_port = (missing_port, refl) }

sample_addresses : (a : Text) → sample_ip.is_ip a ≡ true → IsAddress a
sample_addresses a h = subst IsAddress (sym ((same_iff a (codes "10.0.0.1")).0 h)) sample-IsAddress

forward_words-Nodup_example : Nodup (map forward_word two_ports.upstreams)
forward_words-Nodup_example =
    forward_words-Nodup sample_ip sample_addresses two_ports two_ports_admitted

-- The block of the first route.
abbrev first_text : Text
first_text =
    codes
      "# Managed by ZoneRoute. Edits are overwritten.\n\n# zoneroute: a (generation 1)\ncorp {\n    forward . 10.0.0.1 {\n        policy sequential\n    }\n}\n"

first_rendered_run : render sample (to_render_routes items (codes "a" ∷ [])) ≡ ok first_text
unfolding render to_render_routes Render.fragment Render.header sort zoneroute.Base.Lists.filter
    contains same zoneroute.Sort.insert Render.block zoneroute.Strconv.itoa zoneroute.Text.join
    zone_keys zoneroute.Text.trim_suffix canonical zoneroute.Text.to_lower Render.upstream_addr
first_rendered_run = refl

sample_lines : (a : Text) → sample_ip.is_ip a ≡ true → IsLine a
sample_lines a h =
    subst IsLine (sym ((same_iff a (codes "10.0.0.1")).0 h)) (unfold zoneroute.Net.has_byte in refl)

item_names-IsLine : (x : ZoneRoute Unit) → Mem x items → IsLine x.name
unfolding has_byte
item_names-IsLine x m =
    let plain =
      (all_iff (λ (y : ZoneRoute Unit). not (has_byte b'\n' y.name)) items).0 (unfold all in refl) x
        m in
    ground (arith, plain)

admitted-lines_example :
    split first_text b'\n'
    ≡ (header_line ∷ all_lines (sort by_name (to_render_routes items (codes "a" ∷ []))))
      ++ ([] ∷ [])
admitted-lines_example =
    admitted-lines sample_ip sample_lines items items-AreAdmitted item_names-IsLine sample
      (codes "a" ∷ []) first_text first_rendered_run
