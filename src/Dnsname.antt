-- ===== src/Dnsname.antt =====
-- internal/dnsname/dnsname.go: the canonical form of a DNS name.
pub mod Canonical
pub mod Trim
use zoneroute.Base.{[], ◌∷◌, ◌++◌}
use zoneroute.Text.{Text, trim_suffix, to_lower}

-- "."
abbrev pub dot : Text
dot = b'.' ∷ []

-- `Canonical`
unfoldable pub canonical : Text → Text
canonical name = to_lower (trim_suffix name dot) ++ dot
