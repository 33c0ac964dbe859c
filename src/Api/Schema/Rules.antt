-- ===== src/Api/Schema/Rules.antt =====
-- api/v1alpha1/types.go: all rules that the markers of a spec's fields state, together, as the API
-- server applies them to an object.
use zoneroute.Base.{ℕ, Bool, ◌&&◌, List, Option, none, some, leb}
use zoneroute.Base.Lists.{length}
use zoneroute.Text.{Text}
use zoneroute.Api.{Upstream, ZoneRouteSpec}
use zoneroute.Api.Schema.{all, unique_zones, unique_upstreams, no_reserved_zones}
use zoneroute.Api.Schema.Pattern.{is_zone_name}

-- `isIP` and `ip.isCanonical` of the API server's CEL library.
pub record IpLibrary : Type 0 where
  pub is_ip : Text → Bool
  pub is_canonical : Text → Bool

-- `+kubebuilder:default=53`: the port of an upstream, which may be left out.
unfoldable pub defaulted_port : Option ℕ → ℕ
defaulted_port none = 53
defaulted_port (some port) = port

-- The number of items, or of characters, lies between the two.
abbrev pub has_size {ℓ} : {A : Type ℓ} → ℕ → ℕ → List A → Bool
has_size low high l = leb low (length l) && leb (length l) high

-- The rules on one zone; the pattern is that of `is_zone_name`.
unfoldable pub admits_zone : Text → Bool
admits_zone z = has_size 1 254 z && is_zone_name z

-- The rules on `Zones`.
unfoldable pub admits_zones : List Text → Bool
unfolding admits_zone
admits_zones zones =
    has_size 1 64 zones
    && (all admits_zone zones && (unique_zones zones && no_reserved_zones zones))

module _ (ip : IpLibrary) where
  -- The rules on `Address` and `Port`.
  unfoldable pub admits_upstream : Upstream → Bool
  admits_upstream u =
      (has_size 1 45 u.address && (ip.is_ip u.address && ip.is_canonical u.address))
      && (leb 1 u.port && leb u.port 65535)

  -- The rules on `Upstreams`.
  unfoldable pub admits_upstreams : List Upstream → Bool
  unfolding admits_upstream
  admits_upstreams upstreams =
      has_size 1 8 upstreams && (all admits_upstream upstreams && unique_upstreams upstreams)

  -- The rules on a `ZoneRouteSpec`.
  unfoldable pub admits_spec : ZoneRouteSpec → Bool
  unfolding admits_zones admits_upstreams
  admits_spec spec = admits_zones spec.zones && admits_upstreams spec.upstreams
