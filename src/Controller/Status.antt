-- ===== src/Controller/Status.antt =====
-- internal/controller/status.go: the two conditions of a route.
pub mod Truth
use zoneroute.Base.{
  ℕ, ◌-◌, Bool, true, false, not, ◌&&◌, ◌||◌, List, [], ◌∷◌, ◌++◌, map, Option, none, some, leb,
  if◌then◌else◌,
}
use zoneroute.Text.{Text, codes, join}
use zoneroute.Text.Order.{lt}
use zoneroute.Sort.{sort}
use zoneroute.Strconv.{itoa}
use zoneroute.Api.{
  Reason, accepted, accepted_with_unresolved_imports, zone_conflict, zone_owned_by_core_dns,
  reserved_zone, published, not_accepted, integration_config_missing, core_dns_not_wired,
  fragment_invalid, write_failed, Condition, condition_accepted, condition_published,
}
use zoneroute.Conflict.{Decision, OwnedByCoreDns, ZoneConflict}
use zoneroute.Corefile.{Import}

-- `publishState`; `none` is the empty reason, and `detail` the text of the error.
pub record PublishState : Type 0 where
  pub reason : Option Reason
  pub detail : Text

-- `strings.ToUpper` of one ASCII byte.
unfoldable pub upper_byte : ℕ → ℕ
upper_byte c = if leb b'a' c && leb c b'z' then c - 32 else c

-- `capitalize`
unfoldable pub capitalize : Text → Text
unfolding upper_byte
capitalize [] = []
capitalize (c ∷ s) = upper_byte c ∷ s

-- `sortedStrings`
unfoldable pub sorted_strings : List Text → List Text
sorted_strings zones = sort lt zones

unfoldable pub owned_part : OwnedByCoreDns → Text
owned_part o =
    codes "zone "
    ++ (o.zone ++ (codes " is already served by CoreDNS (" ++ (o.source ++ codes ")")))

unfoldable pub conflict_part : ZoneConflict → Text
conflict_part x = codes "zone " ++ (x.zone ++ (codes " is claimed by older ZoneRoute " ++ x.winner))

unfoldable pub import_part : Import → Text
import_part i = i.source ++ (codes ":" ++ (itoa i.line ++ (codes " " ++ i.pattern)))

-- The parts, sorted and joined.
unfoldable pub listing : List Text → Text
listing parts = join (sort lt parts) (codes "; ")

unfoldable pub reserved_message : Text → List Text → Text
reserved_message domain zones =
    codes "Zones inside the cluster domain "
    ++ (domain
        ++ (codes " are reserved: " ++ (join (sorted_strings zones) (codes ", ") ++ codes ".")))

unfoldable pub unresolved_message : List Import → Text
unresolved_message imports =
    codes "Accepted. Conflict detection could not inspect these imports: "
    ++ (listing (map import_part imports) ++ codes ".")

abbrev accepted_with : ℕ → Bool → Reason → Text → Condition
accepted_with generation status reason message = record {
  type = condition_accepted;
  status = status;
  reason = reason;
  message = message;
  observed_generation = generation;
}

-- The cases of `acceptedCondition`, in the order of its switch: each takes the next list.
unfoldable pub accepted_imports : List Import → ℕ → Condition
accepted_imports [] generation =
    accepted_with generation true accepted (codes "All zones accepted.")
accepted_imports (i ∷ is) generation =
    accepted_with generation true accepted_with_unresolved_imports (unresolved_message (i ∷ is))

unfoldable pub accepted_conflicts : List ZoneConflict → List Import → ℕ → Condition
unfolding accepted_imports
accepted_conflicts [] unresolved generation = accepted_imports unresolved generation
accepted_conflicts (x ∷ xs) unresolved generation =
    accepted_with generation false zone_conflict
      (capitalize (listing (map conflict_part (x ∷ xs))) ++ codes ".")

unfoldable pub accepted_owned :
    List OwnedByCoreDns → List ZoneConflict → List Import → ℕ → Condition
unfolding accepted_conflicts
accepted_owned [] conflicts unresolved generation =
    accepted_conflicts conflicts unresolved generation
accepted_owned (o ∷ os) conflicts unresolved generation =
    accepted_with generation false zone_owned_by_core_dns
      (capitalize (listing (map owned_part (o ∷ os))) ++ codes ".")

unfoldable pub accepted_reserved : Decision → List Text → List Import → Text → ℕ → Condition
unfolding accepted_owned
accepted_reserved d [] unresolved domain generation =
    accepted_owned d.owned d.conflicts unresolved generation
accepted_reserved d (z ∷ zs) unresolved domain generation =
    accepted_with generation false reserved_zone (reserved_message domain (z ∷ zs))

-- `acceptedCondition`
unfoldable pub accepted_condition : Decision → List Import → Text → ℕ → Condition
unfolding accepted_reserved
accepted_condition d unresolved domain generation =
    accepted_reserved d d.reserved unresolved domain generation

abbrev published_with : ℕ → Bool → Reason → Text → Condition
published_with generation status reason message = record {
  type = condition_published;
  status = status;
  reason = reason;
  message = message;
  observed_generation = generation;
}

unfoldable pub not_wired_message : Text
not_wired_message =
    codes
      "Fragment written to kube-system/coredns-custom, but the Corefile has no top-level \"import custom/*.server\" import."

unfoldable pub missing_message : Text
missing_message =
    codes "ConfigMap kube-system/coredns-custom does not exist; create it to enable publishing."

unfoldable pub published_message : Text
published_message = codes "Fragment published to kube-system/coredns-custom (zoneroute.server)."

-- The cases of `publishedCondition` for an accepted route: on the reason, then on the wiring.
unfoldable pub published_wired : Bool → ℕ → Condition
published_wired false generation =
    published_with generation false core_dns_not_wired not_wired_message
published_wired true generation = published_with generation true published published_message

unfoldable pub published_reason : Option Reason → Text → Bool → ℕ → Condition
unfolding published_wired
published_reason (some integration_config_missing) detail wired generation =
    published_with generation false integration_config_missing missing_message
published_reason (some fragment_invalid) detail wired generation =
    published_with generation false fragment_invalid
      (codes "Generated fragment failed validation: " ++ detail)
published_reason (some write_failed) detail wired generation =
    published_with generation false write_failed (codes "Failed to publish fragment: " ++ detail)
published_reason _ detail wired generation = published_wired wired generation

-- `publishedCondition`
unfoldable pub published_condition : Bool → PublishState → Bool → ℕ → Condition
unfolding published_reason
published_condition false state wired generation =
    published_with generation false not_accepted (codes "Route is not accepted.")
published_condition true state wired generation =
    published_reason state.reason state.detail wired generation
