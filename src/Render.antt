-- ===== src/Render.antt =====
-- internal/render/render.go: the text of the zoneroute.server entry. Ports and generations are not
-- negative, as the API schema has them.
pub mod Order
pub mod Keys
pub mod Address
pub mod Lines
use zoneroute.Base.{
  ℕ, zero, suc, Bool, true, false, not, ◌&&◌, ◌||◌, List, [], ◌∷◌, ◌++◌, map, Option, none, some,
  ◌==◌, if◌then◌else◌,
}
use zoneroute.Result.{Result, ok, err}
use zoneroute.Text.{Text, codes, trim_suffix, join}
use zoneroute.Text.Order.{lt}
use zoneroute.Sort.{sort}
use zoneroute.Strconv.{itoa}
use zoneroute.Net.{join_host_port}
use zoneroute.Caddyfile.{Caddyfile}
use zoneroute.Dnsname.{dot, canonical}

abbrev pub default_port : ℕ
default_port = 53

pub record Upstream : Type 0 where
  pub address : Text
  pub port : ℕ

pub record Route : Type 0 where
  pub name : Text
  pub generation : ℕ
  pub zones : List Text
  pub upstreams : List Upstream

unfoldable pub header : Text
header = codes "# Managed by ZoneRoute. Edits are overwritten.\n"

-- The port that is used for an upstream.
unfoldable pub effective_port : ℕ → ℕ
effective_port port = if port == 0 then default_port else port

-- `upstreamAddr`
unfoldable pub upstream_addr : Upstream → Text
unfolding effective_port
upstream_addr u =
    let port = effective_port u.port in
    if port == default_port then u.address else join_host_port u.address (itoa port)

-- `zoneKeys`
unfoldable pub zone_keys : List Text → List Text
zone_keys zones = map (λ k. trim_suffix k dot) (sort lt (map canonical zones))

-- The loop over the upstreams of a block.
unfoldable pub upstream_words : List Upstream → Text
upstream_words [] = []
upstream_words (u ∷ us) = b' ' ∷ (upstream_addr u ++ upstream_words us)

-- What the loop writes for one route.
unfoldable pub block : Route → Text
unfolding upstream_words
block r =
    codes "\n# zoneroute: "
    ++ (r.name
        ++ (codes " (generation "
            ++ (itoa r.generation
                ++ (codes ")\n"
                    ++ (join (zone_keys r.zones) (codes " ")
                        ++ (codes " {\n    forward ."
                            ++ (upstream_words r.upstreams
                                ++ codes " {\n        policy sequential\n    }\n}\n")))))))

unfoldable pub blocks : List Route → Text
blocks [] = []
blocks (r ∷ rs) = block r ++ blocks rs

-- `sorted[i].Name < sorted[j].Name`
unfoldable pub by_name : Route → Route → Bool
by_name a b = lt a.name b.name

-- The text before it is validated.
unfoldable pub fragment : List Route → Text
unfolding blocks
fragment routes = header ++ blocks (sort by_name routes)

module _ (c : Caddyfile) where
  -- `validate`: the error, if the parser refuses the text.
  unfoldable pub validate : Text → Option Text
  validate text = elim (Caddyfile.parse c (codes "zoneroute.server") text) [
    | ok keys ↦ none
    | err e ↦ some (codes "rendered fragment does not parse: " ++ e)
  ]

  -- `Render`; the error is that of `validate`.
  unfoldable pub render : List Route → Result Text Text
  unfolding validate
  render routes =
      let out = fragment routes in elim (validate out) [ some e ↦ err e | none ↦ ok out ]
