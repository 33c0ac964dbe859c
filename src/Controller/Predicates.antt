-- ===== src/Controller/Predicates.antt =====
-- internal/controller/predicates.go: which ConfigMap events start a reconcile.
pub mod Sound
use zoneroute.Base.{
  ℕ, Bool, true, false, not, ◌&&◌, ◌||◌, List, [], ◌∷◌, Option, none, some, ◌==◌, if◌then◌else◌,
}
use zoneroute.Base.Lists.{filter, length}
use zoneroute.Text.{Text, codes, same, has_suffix}
use zoneroute.Dict.{Dict, lookup}
use zoneroute.Api.{Object, config_map, other, ConfigMap}
use zoneroute.Corefile.{server_suffix, text_at}

abbrev pub core_dns_namespace : Text
core_dns_namespace = codes "kube-system"

abbrev pub corefile_config_map : Text
corefile_config_map = codes "coredns"

abbrev pub corefile_key : Text
corefile_key = codes "Corefile"

abbrev pub integration_config_map : Text
integration_config_map = codes "coredns-custom"

-- `GetNamespace` and `GetName`.
unfoldable pub namespace_of : Object → Text
namespace_of (config_map m) = m.namespace
namespace_of (other namespace name) = namespace

unfoldable pub name_of : Object → Text
name_of (config_map m) = m.name
name_of (other namespace name) = name

-- `isWatchedConfigMap`; `none` is nil.
unfoldable pub is_watched_config_map : Option Object → Bool
unfolding namespace_of name_of
is_watched_config_map none = false
is_watched_config_map (some o) =
    if not (same (namespace_of o) core_dns_namespace)
    then false
    else same (name_of o) corefile_config_map || same (name_of o) integration_config_map

-- `serverEntries`
unfoldable pub server_entries : Dict Text → Dict Text
server_entries entries = filter (λ (e : Text × Text). has_suffix e.0 server_suffix) entries

abbrev holds : Text → Option Text → Bool
holds v none = false
holds v (some w) = same v w

unfoldable pub covered : Dict Text → Dict Text → Bool
covered [] n = true
covered ((k, v) ∷ m) n = holds v (lookup k n) && covered m n

-- `maps.Equal`
unfoldable pub maps_equal : Dict Text → Dict Text → Bool
unfolding covered
maps_equal m n = length m == length n && covered m n

-- The switch over the name of the new ConfigMap.
unfoldable pub data_changed : ConfigMap → ConfigMap → Bool
unfolding text_at server_entries maps_equal
data_changed old new =
    if same new.name corefile_config_map
    then not (same (text_at corefile_key old.data_entries) (text_at corefile_key new.data_entries))
    else if same new.name integration_config_map
    then not (maps_equal (server_entries old.data_entries) (server_entries new.data_entries))
    else false

-- Both type assertions.
unfoldable pub objects_changed : Option Object → Option Object → Bool
unfolding data_changed
objects_changed (some (config_map old)) (some (config_map new)) = data_changed old new
objects_changed _ _ = false

-- `configMapDataChanged`, on the old and the new object of an update.
unfoldable pub config_map_data_changed : Option Object → Option Object → Bool
unfolding is_watched_config_map objects_changed
config_map_data_changed old new =
    if not (is_watched_config_map new) then false else objects_changed old new

-- The four event kinds and `coreDNSConfigMapPredicate`.
pub data Event : Type 0 where
  create_event delete_event generic_event : Option Object → Event
  update_event : Option Object → Option Object → Event

unfoldable pub core_dns_config_map_predicate : Event → Bool
unfolding is_watched_config_map config_map_data_changed
core_dns_config_map_predicate (create_event o) = is_watched_config_map o
core_dns_config_map_predicate (delete_event o) = is_watched_config_map o
core_dns_config_map_predicate (update_event old new) = config_map_data_changed old new
core_dns_config_map_predicate (generic_event o) = false
