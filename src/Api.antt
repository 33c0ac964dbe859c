-- ===== src/Api.antt =====
-- api/v1alpha1/types.go, and the Kubernetes objects that the controller reads, with the fields
-- that it uses.
pub mod Memory
pub mod Copies
pub mod Registration
pub mod Schema
use zoneroute.Base.{ℕ, Bool, List}
use zoneroute.Dict.{Dict}
use zoneroute.Text.{Text, codes}

-- Condition types.
abbrev pub condition_accepted : Text
condition_accepted = codes "Accepted"

abbrev pub condition_published : Text
condition_published = codes "Published"

-- The reasons of both conditions.
pub data Reason : Type 0 where
  accepted accepted_with_unresolved_imports zone_conflict zone_owned_by_core_dns : Reason
  reserved_zone : Reason
  published not_accepted integration_config_missing core_dns_not_wired : Reason
  fragment_invalid write_failed : Reason

pub record Upstream : Type 0 where
  pub address : Text
  pub port : ℕ

pub record ZoneRouteSpec : Type 0 where
  pub zones : List Text
  pub upstreams : List Upstream

-- `metav1.Condition`, without the time of its last transition.
pub record Condition : Type 0 where
  pub type : Text
  pub status : Bool
  pub reason : Reason
  pub message : Text
  pub observed_generation : ℕ

-- A `ZoneRoute`; `created` counts seconds, and `Conditions` is the type of `status.conditions`.
pub record ZoneRoute (Conditions : Type 0) : Type 0 where
  pub name : Text
  pub generation : ℕ
  pub created : ℕ
  pub spec : ZoneRouteSpec
  pub observed_generation : ℕ
  pub conditions : Conditions

pub record ConfigMap : Type 0 where
  pub namespace : Text
  pub name : Text
  pub data_entries : Dict Text

-- A `client.Object`: a ConfigMap, or an object of another kind with its namespace and name.
pub data Object : Type 0 where
  config_map : ConfigMap → Object
  other : Text → Text → Object
