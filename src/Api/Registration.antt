-- ===== src/Api/Registration.antt =====
-- api/v1alpha1/groupversion_info.go: the registration of the types. The scheme and what acts on it
-- are those of k8s.io/apimachinery.
use zoneroute.Base.{List, [], ◌∷◌, Option, none}
use zoneroute.Text.{Text, codes}

-- `schema.GroupVersion`
pub record GroupVersion : Type 0 where
  pub group : Text
  pub version : Text

abbrev pub group_version : GroupVersion
group_version = record { group = codes "dns.mihnk.org"; version = codes "v1alpha1" }

-- The types of the package, as their kinds.
pub data Kind : Type 0 where
  zone_route zone_route_list : Kind

-- The functions of package runtime and metav1 that the registration calls. A function that
-- registers returns its error, if it fails, and the scheme.
pub record SchemeApi (E : Type 0) : Type 1 where
  pub Scheme : Type 0
  pub new_scheme : Scheme
  pub add_known_types : GroupVersion → List Kind → Scheme → Scheme
  pub add_to_group_version : GroupVersion → Scheme → Scheme
  -- `SchemeBuilder.AddToScheme`
  pub apply_builder : List (Scheme → Option E × Scheme) → Scheme → Option E × Scheme
  -- The registration of client-go.
  pub add_client_go : Scheme → Option E × Scheme

module _ {E : Type 0} (api : SchemeApi E) where
  open api use {Scheme}

  -- `addKnownTypes`
  unfoldable pub add_known_types : Scheme → Option E × Scheme
  add_known_types s = (
    none,
    api.add_to_group_version group_version
        (api.add_known_types group_version (zone_route ∷ zone_route_list ∷ []) s),
  )

  -- `SchemeBuilder`
  unfoldable pub scheme_builder : List (Scheme → Option E × Scheme)
  scheme_builder = add_known_types ∷ []

  -- `AddToScheme`
  unfoldable pub add_to_scheme : Scheme → Option E × Scheme
  unfolding scheme_builder
  add_to_scheme s = api.apply_builder scheme_builder s
