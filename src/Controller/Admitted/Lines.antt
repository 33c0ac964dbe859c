-- ===== src/Controller/Admitted/Lines.antt =====
-- The lines of the fragment, for routes that the API server admitted.
use mathlib.Core.Bool.{Bool-set}
use mathlib.Core.List.{Mem, mem-map}
use mathlib.Core.Logic.{∥∥₁_elim}
use zoneroute.Base.{true, List, [], ◌∷◌, ◌++◌, ◌≡◌, subst, arith}
use zoneroute.Base.Lists.{mem-filter}
use zoneroute.Result.{ok}
use zoneroute.Text.{Text, split}
use zoneroute.Sort.{sort}
use zoneroute.Dict.{contains}
use zoneroute.Caddyfile.{Caddyfile}
use zoneroute.Api.{Upstream, ZoneRoute}
use zoneroute.Api.Schema.{all}
use zoneroute.Api.Schema.Unique.{all_iff}
use zoneroute.Api.Schema.Pattern.Bytes.{is_zone_name-no_newline}
use zoneroute.Api.Schema.Rules.{
  IpLibrary, admits_zone, admits_upstream, admits_upstreams, admits_spec,
}
use zoneroute.Render
use zoneroute.Render.{by_name, render}
use zoneroute.Render.Lines.{IsLine, header_line, all_lines}
use zoneroute.Render.Lines.Clean.{IsClean, render-lines}
use zoneroute.Controller.Convert.{to_render_upstream, to_render_route, to_render_routes}
use zoneroute.Controller.Admitted.{AreAdmitted, admits_zone-name, admits_spec-zones}

admits_upstream-ip :
    (ip : IpLibrary) (u : Upstream) → admits_upstream ip u ≡ true → ip.is_ip u.address ≡ true
unfolding admits_upstream
admits_upstream-ip ip u h = ground (arith, h)

module _ {C : Type 0} (ip : IpLibrary) (lines : (a : Text) → ip.is_ip a ≡ true → IsLine a)
    (items : List (ZoneRoute C)) (admitted : AreAdmitted ip items)
    (names : (x : ZoneRoute C) → Mem x items → IsLine x.name) where
  item_zones : (x : ZoneRoute C) → Mem x items → (z : Text) → Mem z x.spec.zones → IsLine z
  item_zones x m z mz = is_zone_name-no_newline z (
      admits_zone-name z
        ((all_iff admits_zone x.spec.zones).0 (admits_spec-zones ip x.spec (admitted x m)) z mz))

  item_upstreams :
      (x : ZoneRoute C) → Mem x items → (u : Upstream) → Mem u x.spec.upstreams → IsLine u.address
  unfolding admits_spec admits_upstreams
  item_upstreams x m u mu =
      let each : all (admits_upstream ip) x.spec.upstreams ≡ true = ground (arith, admitted x m) in
      lines u.address
        (admits_upstream-ip ip u ((all_iff (admits_upstream ip) x.spec.upstreams).0 each u mu))

  item-IsClean : (x : ZoneRoute C) → Mem x items → IsClean (to_render_route x)
  unfolding to_render_route to_render_upstream
  item-IsClean x m = record {
    name = names x m;
    zones = item_zones x m;
    upstreams = λ u mu.
        ∥∥₁_elim (mem-map.0 mu) (Bool-set _ _) λ (v, mv, e).
          subst (λ (w : Render.Upstream). IsLine w.address) e (item_upstreams x m v mv);
  }

  rendered-IsClean :
      (accepted : List Text) (r : Render.Route)
      → Mem r (to_render_routes items accepted)
      → ∥ IsClean r ∥₁
  unfolding to_render_routes
  rendered-IsClean accepted r mr = ∥∥₁_elim (mem-map.0 mr) squash₁ λ (x, mx, e).
      let (mi, kept) = (mem-filter (λ (i : ZoneRoute C). contains accepted i.name) items).0 mx in
      ∣ subst IsClean e (item-IsClean x mi) ∣₁

  rendered_all-IsClean :
      (accepted : List Text) (r : Render.Route)
      → Mem r (to_render_routes items accepted)
      → IsClean r
  rendered_all-IsClean accepted r mr = record {
    name = ∥∥₁_elim (rendered-IsClean accepted r mr) (Bool-set _ _) λ h. h.name;
    zones = λ z mz. ∥∥₁_elim (rendered-IsClean accepted r mr) (Bool-set _ _) λ h. h.zones z mz;
    upstreams =
        λ u mu. ∥∥₁_elim (rendered-IsClean accepted r mr) (Bool-set _ _) λ h. h.upstreams u mu;
  }

  -- Suppose that the API server admitted every route by the schema, that `isIP` takes no text with a
  -- line break, and that no object's name has one. What `Render` returns for the accepted routes
  -- consists of the header and, for each route in the order of the names, the lines of its block, and
  -- of no other line: no route can add a line to the fragment or take one away.
  pub admitted-lines :
      (c : Caddyfile) (accepted : List Text) (text : Text)
      → render c (to_render_routes items accepted) ≡ ok text
      → split text b'\n'
        ≡ (header_line ∷ all_lines (sort by_name (to_render_routes items accepted))) ++ ([] ∷ [])
  admitted-lines c accepted text h =
      render-lines c (to_render_routes items accepted) text (rendered_all-IsClean accepted) h
