-- ===== src/Render/Order.antt =====
-- The rendered text does not depend on the order of the routes or of their zones.
use mathlib.Core.List.{Perm, Nodup}
use native.Mathlib.Decide.{ℕ_discrete}
use zoneroute.Base.{List, ◌++◌, none, some, map, ◌≡◌, ap}
use zoneroute.Base.Members.{unique_by}
use zoneroute.Text.{Text, trim_suffix}
use zoneroute.Text.Order.{lt, lt_asym, lt_cotrans, lt_connected}
use zoneroute.Sort.{StrictOrder, Separates}
use zoneroute.Sort.Unique.{sort_unique}
use zoneroute.Dict.{Text-set}
use zoneroute.Result.{ok, err}
use zoneroute.Caddyfile.{Caddyfile}
use zoneroute.Dnsname.{dot, canonical}
use zoneroute.Conflict.Zones.{lt-StrictOrder, lt-Separates}
use zoneroute.Render.{Route, zone_keys, blocks, by_name, header, fragment, validate, render}

abbrev pub names : List Route → List Text
names rs = map (λ (r : Route). r.name) rs

Route-set : IsSet Route
Route-set = hlevel ℕ_discrete

by_name-StrictOrder : StrictOrder by_name
unfolding by_name
by_name-StrictOrder = record {
  asym = λ a b. lt_asym a.name b.name;
  cotrans = λ a c b. lt_cotrans a.name c.name b.name;
}

by_name-Separates : (rs : List Route) → Nodup (names rs) → Separates by_name rs
unfolding by_name
by_name-Separates rs distinct a b ma mb h k =
    unique_by (λ (x : Route). x.name) rs Route-set distinct ma mb (lt_connected a.name b.name h k)

-- `Render` returns the same for every order of the routes, if their names are distinct.
pub render_perm :
    (c : Caddyfile) {rs ss : List Route} → Perm rs ss → Nodup (names rs) → render c rs ≡ render c ss
unfolding render fragment
render_perm c {rs} {ss} p distinct =
    ap
      (λ (sorted : List Route). elim (validate c (header ++ blocks sorted)) [
        | some e ↦ err e
        | none ↦ ok (header ++ blocks sorted)
      ])
      (sort_unique by_name by_name-StrictOrder Route-set p (by_name-Separates rs distinct))

-- The zones of a block are the same for every order and spelling of the names in the route.
pub zone_keys_perm :
    (xs ys : List Text) → Perm (map canonical xs) (map canonical ys) → zone_keys xs ≡ zone_keys ys
unfolding zone_keys
zone_keys_perm xs ys p =
    ap (map (λ k. trim_suffix k dot)) (sort_unique lt lt-StrictOrder Text-set p (lt-Separates _))
