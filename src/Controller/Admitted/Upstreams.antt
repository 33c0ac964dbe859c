-- ===== src/Controller/Admitted/Upstreams.antt =====
-- The words of a forward line, for upstreams that the API server admitted.
use mathlib.Core.List.{Mem, Nodup, Nodup-cons, Nodup-nil, mem-cons_self, mem-cons_of_mem, mem-map}
use mathlib.Core.Logic.{∥∥₁_elim}
use mathlib.Core.HLevel.{⊥_prop}
use zoneroute.Base.{
  ℕ, ◌≤◌, Bool, true, ◌&&◌, List, [], ◌∷◌, map, Option, some, ◌≡◌, ◌↔◌, refl, ◌∙◌, sym, ap, subst,
  arith, ◌==◌,
}
use zoneroute.Base.Maps.{map-id}
use zoneroute.Text.{Text, same}
use zoneroute.Text.Order.{same_iff}
use zoneroute.Api.{Upstream, ZoneRouteSpec}
use zoneroute.Api.Schema.{all, unique_upstreams}
use zoneroute.Api.Schema.Unique.{all_iff, unique_rule-Nodup}
use zoneroute.Api.Schema.Rules.{IpLibrary, admits_upstream, admits_upstreams, admits_spec}
use zoneroute.Render.{effective_port, upstream_addr}
use zoneroute.Render.Address.{IsAddress, read_upstream, read_upstream-upstream_addr}
use zoneroute.Controller.Convert.{to_render_upstream}

-- `j.address == i.address && j.port == i.port`
abbrev same_upstream : Upstream → Upstream → Bool
same_upstream j i = same j.address i.address && j.port == i.port

same_upstream_iff : (a b : Upstream) → (same_upstream a b ≡ true) ↔ (a ≡ b)
same_upstream_iff a b = (
  λ h.
      let address : a.address ≡ b.address = (same_iff a.address b.address).0 (ground (arith, h)) in
      let port : a.port ≡ b.port = ground (arith, h) in
      λ i. record { address = address i; port = port i },
  λ e.
      let address = (same_iff a.address b.address).1 (ap (λ (u : Upstream). u.address) e) in
      let port = ap (λ (u : Upstream). u.port) e in ground (arith, address, port),
)

upstreams-Nodup : (l : List Upstream) → unique_upstreams l ≡ true → Nodup l
unfolding unique_upstreams
upstreams-Nodup l h =
    subst Nodup (map-id (λ (u : Upstream). u) l (λ u. refl))
      ((unique_rule-Nodup same_upstream same_upstream_iff (λ u. u) l).0 h)

-- Items that are distinct, and that the function keeps apart.
Nodup-map :
    {A B : Type 0} (f : A → B) (l : List A)
    → ((x y : A) → Mem x l → Mem y l → f x ≡ f y → x ≡ y)
    → Nodup l
    → Nodup (map f l)
Nodup-map f [] h d = Nodup-nil
Nodup-map f (x ∷ l) h d =
    let (fresh, rest) = Nodup-cons.0 d in
    Nodup-cons.1 (
      λ m. ∥∥₁_elim (mem-map.0 m) ⊥_prop λ (y, my, e).
          fresh (subst (λ z. Mem z l) (h y x (mem-cons_of_mem x my) mem-cons_self e) my),
      Nodup-map f l (λ y z my mz. h y z (mem-cons_of_mem x my) (mem-cons_of_mem x mz)) rest,
    )

-- The word of an upstream on the forward line.
abbrev pub forward_word : Upstream → Text
forward_word u = upstream_addr (to_render_upstream u)

effective_port-given : (port : ℕ) → 1 ≤ port → effective_port port ≡ port
unfolding effective_port
effective_port-given port h = ground (arith, h)

module _ (ip : IpLibrary) (addresses : (a : Text) → ip.is_ip a ≡ true → IsAddress a) where
  -- The word is read back as the address and the port.
  word-read :
      (u : Upstream)
      → admits_upstream ip u ≡ true
      → read_upstream (forward_word u) ≡ some (u.address, u.port)
  unfolding admits_upstream to_render_upstream
  word-read u h =
      let low : 1 ≤ u.port = ground (arith, h) in
      let high : u.port ≤ 65535 = ground (arith, h) in
      read_upstream-upstream_addr (to_render_upstream u) (addresses u.address (ground (arith, h)))
        high
      ∙ ap (λ n. some (u.address, n)) (effective_port-given u.port low)

  words_apart :
      (u v : Upstream)
      → admits_upstream ip u ≡ true
      → admits_upstream ip v ≡ true
      → forward_word u ≡ forward_word v
      → u ≡ v
  words_apart u v h k e =
      let read : ◌≡◌ {A = Option (Text × ℕ)} (some (u.address, u.port)) (some (v.address, v.port)) =
        sym (word-read u h) ∙ ap read_upstream e ∙ word-read v k in
      let address : u.address ≡ v.address = cc in
      let port : u.port ≡ v.port = cc in λ i. record { address = address i; port = port i }

  admits_spec-upstreams :
      (spec : ZoneRouteSpec)
      → admits_spec ip spec ≡ true
      → (all (admits_upstream ip) spec.upstreams ≡ true) × (unique_upstreams spec.upstreams ≡ true)
  unfolding admits_spec admits_upstreams
  admits_spec-upstreams spec h = (ground (arith, h), ground (arith, h))

  -- Suppose that `isIP` takes only texts without brackets that are no host with a port, and that the
  -- API server admitted the spec. Then the words that `Render` writes for its upstreams are pairwise
  -- distinct: no resolver stands twice on a forward line.
  pub forward_words-Nodup :
      (spec : ZoneRouteSpec) → admits_spec ip spec ≡ true → Nodup (map forward_word spec.upstreams)
  forward_words-Nodup spec h =
      let (valid, unique) = admits_spec-upstreams spec h in
      let each = (all_iff (admits_upstream ip) spec.upstreams).0 valid in
      Nodup-map forward_word spec.upstreams (λ u v mu mv. words_apart u v (each u mu) (each v mv))
        (upstreams-Nodup spec.upstreams unique)
