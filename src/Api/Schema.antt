-- ===== src/Api/Schema.antt =====
-- api/v1alpha1/types.go: the rules on zones and upstreams that the markers of the fields state, with
-- the functions of CEL on ASCII text.
pub mod Pattern
pub mod Rules
pub mod Unique
pub mod Reserved
pub mod Tests
use zoneroute.Base.{ℕ, Bool, true, false, not, ◌&&◌, ◌||◌, List, [], ◌∷◌, ◌==◌, if◌then◌else◌}
use zoneroute.Base.Lists.{filter, length, any}
use zoneroute.Text.{Text, codes, same, has_suffix, to_lower, drop_last}
use zoneroute.Dict.{contains}
use zoneroute.Api.{Upstream}

-- `self.all(i, p(i))`
unfoldable pub all {ℓ} : {A : Type ℓ} → (A → Bool) → List A → Bool
all p [] = true
all p (x ∷ l) = p x && all p l

-- A zone in lower case, without a final dot.
unfoldable pub normalized : Text → Text
normalized z = if has_suffix (to_lower z) (codes ".") then drop_last (to_lower z) else to_lower z

-- "zones must be unique ignoring case and trailing dot"
unfoldable pub unique_zones : List Text → Bool
unfolding normalized
unique_zones zones =
    all (λ i. length (filter (λ j. same (normalized j) (normalized i)) zones) == 1) zones

-- "upstreams must be unique by address and port"
unfoldable pub unique_upstreams : List Upstream → Bool
unique_upstreams upstreams =
    all
      (λ (i : Upstream).
        length (filter (λ (j : Upstream). same j.address i.address && j.port == i.port) upstreams)
        == 1)
      upstreams

abbrev pub reserved_names : List Text
reserved_names = codes "localhost" ∷ codes "in-addr.arpa" ∷ codes "ip6.arpa" ∷ []

-- The test of one zone in "localhost, in-addr.arpa and ip6.arpa may not be routed".
unfoldable pub has_reserved_name : Text → Bool
unfolding normalized
has_reserved_name z =
    let low = to_lower z in
    contains reserved_names (normalized z)
    || (has_suffix low (codes ".localhost")
        || (has_suffix low (codes ".localhost.")
            || (has_suffix low (codes ".in-addr.arpa")
                || (has_suffix low (codes ".in-addr.arpa.")
                    || (has_suffix low (codes ".ip6.arpa")
                        || has_suffix low (codes ".ip6.arpa."))))))

-- "zone is reserved"
unfoldable pub no_reserved_zones : List Text → Bool
unfolding has_reserved_name
no_reserved_zones zones = all (λ z. not (has_reserved_name z)) zones
