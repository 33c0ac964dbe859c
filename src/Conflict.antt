-- ===== src/Conflict.antt =====
-- internal/conflict/conflict.go: which routes are accepted.
pub mod Zones
pub mod ZoneSets
pub mod Greedy
pub mod Age
pub mod Eligible
pub mod Served
pub mod Spec
pub mod Queue
pub mod Accepted
pub mod Decisions
pub mod Newer
pub mod Dropped
pub mod Permute
pub mod Losses
pub mod Reports
pub mod Forbidden
pub mod Told
pub mod Winners
pub mod Tests
use mathlib.Core.List.{filter_map}
use zoneroute.Base.{
  ℕ, Bool, true, false, not, ◌&&◌, ◌||◌, List, [], ◌∷◌, ◌++◌, Option, none, some, ltb, ◌==◌,
  if◌then◌else◌,
}
use zoneroute.Base.Lists.{filter}
use zoneroute.Text.{Text, codes, same, has_suffix, trim_space}
use zoneroute.Text.Order.{lt}
use zoneroute.Sort.{sort}
use zoneroute.Dict.{Dict, lookup, insert, contains}
use zoneroute.Dnsname.{dot, canonical}

abbrev pub listener_transport : Text
listener_transport = codes "dns"

abbrev pub listener_port : ℕ
listener_port = 53

-- `created` counts the seconds since the zero `time.Time`.
pub record Route : Type 0 where
  pub name : Text
  pub created : ℕ
  pub zones : List Text

pub record Existing : Type 0 where
  pub transport : Text
  pub zone : Text
  pub port : ℕ
  pub source : Text

pub record OwnedByCoreDns : Type 0 where
  pub zone : Text
  pub port : ℕ
  pub source : Text

pub record ZoneConflict : Type 0 where
  pub zone : Text
  pub winner : Text

pub record Decision : Type 0 where
  pub name : Text
  pub accepted : Bool
  pub reserved : List Text
  pub owned : List OwnedByCoreDns
  pub conflicts : List ZoneConflict

-- `Decision{Name: name}`: the other fields are the zero values.
abbrev pub undecided : Text → Decision
undecided name = record { name = name; accepted = false; reserved = []; owned = []; conflicts = [] }

-- `Resolve`'s local type `candidate`.
pub record Candidate : Type 0 where
  pub name : Text
  pub created : ℕ
  pub zones : List Text

-- The loop of `canonicalZones`; `seen` holds the keys of the map.
unfoldable pub dedupe : List Text → List Text → List Text
dedupe seen [] = []
dedupe seen (z ∷ zs) =
    let c = canonical z in
    elim (contains seen c) [ true ↦ dedupe seen zs | false ↦ c ∷ dedupe (c ∷ seen) zs ]

-- `canonicalZones`
unfoldable pub canonical_zones : List Text → List Text
canonical_zones zones = sort lt (dedupe [] zones)

-- The listeners that can collide with a route.
unfoldable pub is_own_listener : Existing → Bool
is_own_listener e = same e.transport listener_transport && e.port == listener_port

-- `!seen || e.Source < cur.Source`
unfoldable pub replaces : Text → Option OwnedByCoreDns → Bool
replaces source none = true
replaces source (some cur) = lt source cur.source

-- One round of the loop that fills `served`.
unfoldable pub serve : Dict OwnedByCoreDns → Existing → Dict OwnedByCoreDns
unfolding is_own_listener replaces
serve served e =
    let zone = canonical e.zone in
    if not (is_own_listener e)
    then served
    else if replaces e.source (lookup zone served)
    then insert zone (record { zone = zone; port = listener_port; source = e.source }) served
    else served

unfoldable pub serve_all : Dict OwnedByCoreDns → List Existing → Dict OwnedByCoreDns
serve_all served [] = served
serve_all served (e ∷ es) = serve_all (serve served e) es

-- `z == domain || strings.HasSuffix(z, descendant)`
unfoldable pub is_reserved : Text → Text → Bool
is_reserved domain z = same z domain || has_suffix z (dot ++ domain)

-- What the first loop makes of a route.
pub data Triage : Type 0 where
  rejected : Decision → Triage
  admitted : Candidate → Triage

-- The end of the loop's body, on the zones that CoreDNS serves.
unfoldable pub triage_owned : Route → List Text → List OwnedByCoreDns → Triage
triage_owned r zones [] = admitted (record { name = r.name; created = r.created; zones = zones })
triage_owned r zones (o ∷ os) = rejected (record (undecided r.name) { owned = o ∷ os })

unfoldable pub triage_reserved : Dict OwnedByCoreDns → Route → List Text → List Text → Triage
unfolding triage_owned
triage_reserved served r zones [] = triage_owned r zones (filter_map (λ z. lookup z served) zones)
triage_reserved served r zones (z ∷ zs) = rejected (record (undecided r.name) { reserved = z ∷ zs })

-- The body of the first loop over the routes.
unfoldable pub triage : Text → Dict OwnedByCoreDns → Route → Triage
unfolding triage_reserved
triage domain served r =
    let zones = canonical_zones r.zones in
    triage_reserved served r zones (filter (is_reserved domain) zones)

-- The two slices that the first loop appends to.
unfoldable pub decided_of : Triage → List Decision → List Decision
decided_of (rejected d) ds = d ∷ ds
decided_of (admitted c) ds = ds

unfoldable pub candidates_of : Triage → List Candidate → List Candidate
candidates_of (rejected d) cs = cs
candidates_of (admitted c) cs = c ∷ cs

unfoldable pub early_decisions : Text → Dict OwnedByCoreDns → List Route → List Decision
unfolding decided_of
early_decisions domain served [] = []
early_decisions domain served (r ∷ rs) =
    decided_of (triage domain served r) (early_decisions domain served rs)

unfoldable pub candidates : Text → Dict OwnedByCoreDns → List Route → List Candidate
unfolding candidates_of
candidates domain served [] = []
candidates domain served (r ∷ rs) =
    candidates_of (triage domain served r) (candidates domain served rs)

-- Older first; the name breaks ties.
unfoldable pub older : Candidate → Candidate → Bool
older a b = if not (a.created == b.created) then ltb a.created b.created else lt a.name b.name

abbrev pub conflict_at : Text → Option Text → Option ZoneConflict
conflict_at z none = none
conflict_at z (some w) = some (record { zone = z; winner = w })

unfoldable pub conflicts_with : Dict Text → List Text → List ZoneConflict
conflicts_with owner zones = filter_map (λ z. conflict_at z (lookup z owner)) zones

-- The loop that makes an accepted route the owner of its zones.
unfoldable pub claim : Text → List Text → Dict Text → Dict Text
claim name [] owner = owner
claim name (z ∷ zs) owner = claim name zs (insert z name owner)

-- The loop over the sorted candidates.
unfoldable pub assign : Dict Text → List Candidate → List Decision
assign owner [] = []
assign owner (c ∷ cs) = elim (conflicts_with owner c.zones) [
  | [] ↦ record (undecided c.name) { accepted = true } ∷ assign (claim c.name c.zones owner) cs
  | x ∷ xs ↦ record (undecided c.name) { conflicts = x ∷ xs } ∷ assign owner cs
]

-- `decisions[i].Name < decisions[j].Name`
unfoldable pub by_name : Decision → Decision → Bool
by_name a b = lt a.name b.name

-- The decisions before the last sort.
unfoldable pub decide : Text → Dict OwnedByCoreDns → List Route → List Decision
decide domain served routes =
    early_decisions domain served routes ++ assign [] (sort older (candidates domain served routes))

-- `Resolve`; `none` is the error for an empty cluster domain.
unfoldable pub resolve : List Route → List Existing → Text → Option (List Decision)
resolve routes existing cluster_domain =
    if same (trim_space cluster_domain) []
    then none
    else some (sort by_name (decide (canonical cluster_domain) (serve_all [] existing) routes))
