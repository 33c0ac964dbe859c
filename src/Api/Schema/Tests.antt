-- ===== src/Api/Schema/Tests.antt =====
-- The schema's rules at concrete zones.
use mathlib.Core.List.{Perm}
use zoneroute.Base.{Bool, true, false, ◌||◌, none, List, [], ◌∷◌, map, ◌≡◌, ◌↔◌, refl}
use zoneroute.Text.{Text, codes}
use zoneroute.Dnsname.{canonical}
use zoneroute.Conflict.{canonical_zones}
use mathlib.Core.List.{Mem}
use zoneroute.Conflict.Spec.{IsWithin}
use zoneroute.Api.Schema.Pattern.{Matches, zone_pattern, is_zone_name}
use zoneroute.Api.Schema.Pattern.Names.{zone_pattern-is_zone_name}
use zoneroute.Api.Schema.Rules.{defaulted_port}
use zoneroute.Api.Schema.{all, unique_zones, unique_upstreams, no_reserved_zones}
use zoneroute.Api.Schema.Reserved.{reserved_domains, no_reserved_zones-IsWithin}
use zoneroute.Api.Schema.Unique.{unique_zones-Perm}

abbrev twice : List Text
twice = codes "Corp.example" ∷ codes "lab" ∷ codes "corp.EXAMPLE." ∷ []

twice_run : unique_zones twice ≡ false
unfolding unique_zones zoneroute.Api.Schema.all zoneroute.Base.Lists.filter zoneroute.Text.same
    zoneroute.Text.has_suffix zoneroute.Text.to_lower zoneroute.Text.drop_last
twice_run = refl

unique_zones-Perm_example :
    (unique_zones twice ≡ true) ↔ Perm (canonical_zones twice) (map canonical twice)
unique_zones-Perm_example = unique_zones-Perm twice

-- The same address on two ports, and a repeated upstream.
ports_run :
    unique_upstreams (
      record { address = codes "10.0.0.1"; port = 53 }
      ∷ record { address = codes "10.0.0.1"; port = 54 }
      ∷ [])
    ≡ true
unfolding unique_upstreams zoneroute.Api.Schema.all zoneroute.Base.Lists.filter zoneroute.Text.same
ports_run = refl

-- A reserved name in other letters and with a final dot, and a name that only ends in the same letters.
reserved_run : no_reserved_zones (codes "Host.LOCALHOST." ∷ []) ≡ false
unfolding no_reserved_zones zoneroute.Api.Schema.all zoneroute.Dict.contains zoneroute.Text.same
    zoneroute.Text.has_suffix zoneroute.Text.to_lower zoneroute.Text.drop_last
reserved_run = refl

open_run : no_reserved_zones (codes "mylocalhost" ∷ []) ≡ true
unfolding no_reserved_zones zoneroute.Api.Schema.all zoneroute.Dict.contains zoneroute.Text.same
    zoneroute.Text.has_suffix zoneroute.Text.to_lower
open_run = refl

no_reserved_zones-IsWithin_example :
    (no_reserved_zones twice ≡ true)
    ↔ ((z : Text) → Mem z twice → (d : Text) → Mem d reserved_domains → ¬ IsWithin d (canonical z))
no_reserved_zones-IsWithin_example = no_reserved_zones-IsWithin twice

-- Labels between dots, in any case; an empty label, a hyphen at an end and a colon are refused.
name_run : all is_zone_name (codes "Corp.Example." ∷ codes "a-1.b" ∷ codes "lab" ∷ []) ≡ true
unfolding all is_zone_name zoneroute.Text.split zoneroute.Text.trim_suffix zoneroute.Text.same
    zoneroute.Text.lower_byte
name_run = refl

bad_name_run :
    (is_zone_name (codes "a..b") || is_zone_name (codes "-a") || is_zone_name (codes "a:53"))
    ≡ false
unfolding all is_zone_name zoneroute.Text.split zoneroute.Text.trim_suffix zoneroute.Text.same
    zoneroute.Text.lower_byte
bad_name_run = refl

zone_pattern-is_zone_name_example :
    Matches zone_pattern (codes "a-1.b") ↔ (is_zone_name (codes "a-1.b") ≡ true)
zone_pattern-is_zone_name_example = zone_pattern-is_zone_name (codes "a-1.b")

default_run : defaulted_port none ≡ 53
unfolding defaulted_port
default_run = refl
