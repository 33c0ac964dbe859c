-- ===== src/Corefile/Tests.antt =====
-- A Corefile that is inspected, and the theorems on names, keys and addresses at concrete texts.
pub mod Ranges
use mathlib.Core.List.{Mem, Nodup, Perm, mem-cons, mem-cons_self, mem-cons_of_mem, not-mem-nil}
use mathlib.Core.List.Perm
use mathlib.Core.Logic.Or
use zoneroute.Base.{
  List, [], ◌∷◌, ◌++◌, true, false, ◌≡◌, ◌↔◌, ◌<◌, refl, ap, sym, subst, arith, none, some, map,
}
use zoneroute.Base.Int.{pos}
use zoneroute.Base.Lists.{filter}
use zoneroute.Result.{ok}
use zoneroute.Text.{Text, codes, same, has_suffix, trim_suffix, to_lower}
use zoneroute.Strconv.{itoa, atoi}
use zoneroute.Strconv.RoundTrip.{atoi-itoa}
use zoneroute.Net.{has_byte, join_host_port, split_host_port}
use zoneroute.Net.HostPort.{IsPlain, split_host_port-join}
use zoneroute.Dict.{Dict, Text-set, lookup, contains}
use zoneroute.Dict.Distinct.{distinct, distinct-Nodup}
use zoneroute.Sort.{sort}
use zoneroute.Text.Order.{same_iff}
use zoneroute.Dnsname.{dot, canonical}
use zoneroute.Dnsname.Canonical.{canonical-eq_iff}
use zoneroute.Caddyfile.{Caddyfile}
use zoneroute.Caddyfile.Sample.{sample, sample_finite}
use zoneroute.Corefile.{is_foreign_server, managed_key, inspect, Inspection, InspectError}
use zoneroute.Corefile.{Inspection, corefile_source}
use zoneroute.Corefile.{server_keys}
use zoneroute.Corefile.Found.{source_of, first_source}
use zoneroute.Corefile.Sources.{AllRead, texts_of, inspect-FirstSource}
use zoneroute.Base.{not, ◌&&◌}
use zoneroute.Corefile.Tokens.{Token, Tokens, imports_custom, defines_custom}
use zoneroute.Corefile.Wiring.{inspect-wired}
use zoneroute.Corefile.Scan.{ImportStmt}
use zoneroute.Corefile.Foreign.{keys, SameForeign, inspect-SameForeign}
use zoneroute.Corefile.Key.{Listener, parse_key}
use zoneroute.Corefile.Key.Laws.{IsListener, parse_key-IsListener}
use zoneroute.Corefile.Scan.{scan_start, scan_imports}
use zoneroute.Corefile.Scan.Total.{Scans, scan_imports-Scans}
use zoneroute.Render.{Route, zone_keys, render}
use zoneroute.Render.Order.{names, render_perm}
use zoneroute.Render.Keys.{IsName, zone_keys-Listener}

abbrev corefile : Text
corefile = codes "import custom/*.server\n.:53 {\nimport inner\n}\nimport other.conf"

abbrev servers : Dict Text
servers = (codes "a.server", codes "tls://Corp {\n}") ∷ []

abbrev inspected : Inspection
inspected = record {
  listeners =
      (record { transport = codes "dns"; zone = codes "."; port = 53 }, codes "Corefile")
      ∷ (record { transport = codes "tls"; zone = codes "corp."; port = 853 }, codes "a.server")
      ∷ [];
  wired = true;
  unresolved_imports =
      record { source = codes "Corefile"; line = 5; pattern = codes "other.conf" } ∷ [];
}

inspect_run : inspect sample sample_finite corefile servers ≡ ok inspected
unfolding inspect parse_key zoneroute.Corefile.blank_lines scan_imports zoneroute.Text.split same
    zoneroute.Base.Int.is_zero zoneroute.Corefile.Scan.is_snippet zoneroute.Text.starts_with
    zoneroute.Base.Int.inc zoneroute.Base.Int.dec zoneroute.Corefile.blank_line
    zoneroute.Corefile.add_keys zoneroute.Corefile.flatten zoneroute.Text.join has_suffix
    zoneroute.Net.cut split_host_port atoi filter zoneroute.Corefile.classify
    zoneroute.Base.Int.is_positive contains lookup canonical to_lower trim_suffix sort
    zoneroute.Sort.insert zoneroute.Text.Order.lt zoneroute.Corefile.add_listener
    zoneroute.Corefile.Key.same_listener mathlib.Core.List.filter_map zoneroute.Corefile.is_resolved
    zoneroute.Corefile.is_wiring
inspect_run = refl

scan_imports-Scans_example :
    (t : _) × Scans sample scan_start (Caddyfile.new_dispenser sample (codes "Corefile") corefile) t
    × (scan_imports sample sample_finite (codes "Corefile") corefile ≡ (t.imports, t.snippets))
scan_imports-Scans_example = scan_imports-Scans sample sample_finite (codes "Corefile") corefile

parse_key_run :
    parse_key (codes "tls://Example.COM:1053")
    ≡ ok (record { transport = codes "tls"; zone = codes "example.com."; port = 1053 })
unfolding parse_key zoneroute.Net.cut lookup same split_host_port atoi canonical to_lower
    trim_suffix
parse_key_run = refl

parse_key-IsListener_example :
    IsListener (record { transport = codes "tls"; zone = codes "example.com."; port = 1053 })
parse_key-IsListener_example =
    parse_key-IsListener (codes "tls://Example.COM:1053")
      (record { transport = codes "tls"; zone = codes "example.com."; port = 1053 }) parse_key_run

abbrev old_entries : Dict Text
old_entries = (codes "a.server", codes "x") ∷ (codes "zoneroute.server", codes "old") ∷ []

abbrev new_entries : Dict Text
new_entries = (codes "zoneroute.server", codes "new") ∷ (codes "a.server", codes "x") ∷ []

old_entries-Nodup : Nodup (keys old_entries)
unfolding distinct contains same
old_entries-Nodup = distinct-Nodup (keys old_entries) refl

new_entries-Nodup : Nodup (keys new_entries)
unfolding distinct contains same
new_entries-Nodup = distinct-Nodup (keys new_entries) refl

entries-SameForeign : SameForeign old_entries new_entries
unfolding is_foreign_server lookup
entries-SameForeign k f = ground (arith, f, same_iff managed_key k, same_iff k managed_key)

inspect-SameForeign_example :
    inspect sample sample_finite corefile old_entries
    ≡ inspect sample sample_finite corefile new_entries
inspect-SameForeign_example =
    inspect-SameForeign sample sample_finite corefile old_entries new_entries old_entries-Nodup
      new_entries-Nodup entries-SameForeign

atoi-itoa_example : atoi (itoa 1053) ≡ some (pos 1053)
atoi-itoa_example = atoi-itoa 1053 (omega arith)

port-IsPlain : IsPlain (codes "53")
unfolding has_byte
port-IsPlain = record { no_colon = refl; no_open = refl; no_close = refl }

split_host_port-join_example :
    split_host_port (join_host_port (codes "2001:db8::1") (codes "53"))
    ≡ ok (codes "2001:db8::1", codes "53")
unfolding has_byte
split_host_port-join_example =
    split_host_port-join (codes "2001:db8::1") (codes "53") refl refl port-IsPlain

inspect-wired_example :
    (ts : List Token) × Tokens sample 0 (Caddyfile.new_dispenser sample corefile_source corefile) ts
    × (true ≡ (imports_custom 0 0 ts && not (defines_custom 0 0 0 ts)))
inspect-wired_example = inspect-wired sample sample_finite corefile servers inspected inspect_run

inspect-FirstSource_example :
    (found : List (Text × List Listener)) × AllRead sample sample_finite
      ((corefile_source, corefile) ∷ texts_of sample sample_finite servers (server_keys servers))
      found
    × ((l : Listener) → source_of l inspected.listeners ≡ first_source l found)
inspect-FirstSource_example =
    inspect-FirstSource sample sample_finite corefile servers inspected inspect_run
