-- ===== src/Api/Copies/Lists.antt =====
-- The copy of a list of routes: the routes in it read as the originals, and share no array with
-- anything that was in use.
use mathlib.Core.Option
use zoneroute.Base.{List, [], ◌∷◌, map, Option, none, some, ◌≡◌, refl, ◌∙◌, sym, ap, subst, arith}
use zoneroute.Base.Lists.{All}
use zoneroute.Api.Memory.{Arena, Slice, items, make}
use zoneroute.Api.Memory.Slices.{Grows, IsValid, IsAbove, read, Grows-refl}
use zoneroute.Api.Memory.Loop.{copy_list, copy_each-make}
use zoneroute.Api.Copies.{
  MetaApi, StoredRoute, StoredList, Memory, no_route, copy_slice_each, copy_route, copy_route_list,
}
use zoneroute.Api.Copies.View.{
  IsFaithful, RouteView, view_route, IsRoute, IsNewRoute, MemoryGrows, MemoryGrows-refl,
  MemoryGrows-trans, IsNewRoute-Grows, IsRoute-Grows, view_route-Grows,
}
use zoneroute.Api.Copies.Specs.{copy_route-Copied}

module _ (k : MetaApi) (f : IsFaithful k) where
  abbrev pub views : Memory k → List (StoredRoute k) → List (RouteView k f)
  views m l = map (view_route k f m) l

  All-Grows :
      (m m' : Memory k) (l : List (StoredRoute k))
      → MemoryGrows k f m m'
      → All (IsRoute k f m) l
      → All (IsRoute k f m') l
  All-Grows m m' [] g h = tt
  All-Grows m m' (r ∷ l) g h = (IsRoute-Grows k f m m' r g h.0, All-Grows m m' l g h.1)

  All-new :
      (m m' : Memory k) (l : List (StoredRoute k))
      → MemoryGrows k f m m'
      → All (IsNewRoute k f m') l
      → All (IsNewRoute k f m) l
  All-new m m' [] g h = tt
  All-new m m' (r ∷ l) g h = (IsNewRoute-Grows k f m m' r g h.0, All-new m m' l g h.1)

  views-Grows :
      (m m' : Memory k) (l : List (StoredRoute k))
      → All (IsRoute k f m) l
      → MemoryGrows k f m m'
      → views m' l ≡ views m l
  views-Grows m m' [] h g = refl
  views-Grows m m' (r ∷ l) h g =
      λ i. view_route-Grows k f m m' r h.0 g i ∷ views-Grows m m' l h.1 g i

  record ListCopied (m : Memory k) (l : List (StoredRoute k)) (m' : Memory k)
      (l' : List (StoredRoute k)) : Type 0 where
    grows : MemoryGrows k f m m'
    same : views m' l' ≡ views m l
    new : All (IsNewRoute k f m) l'

  copy_list-Copied :
      (m : Memory k) (l : List (StoredRoute k))
      → All (IsRoute k f m) l
      → let (m', l') = copy_list (copy_route k) m l in ListCopied m l m' l'
  unfolding copy_list
  copy_list-Copied m [] h = record { grows = MemoryGrows-refl k f m; same = refl; new = tt }
  copy_list-Copied m (r ∷ l) h =
      let one = copy_route-Copied k f m r h.0 in
      let (m1, r') = copy_route k m r in
      let (m2, l') = copy_list (copy_route k) m1 l in
      let rest = copy_list-Copied m1 l (All-Grows m m1 l one.grows h.1) in
      record {
        grows = MemoryGrows-trans k f m m1 m2 one.grows rest.grows;
        same = λ i.
            (view_route-Grows k f m1 m2 r' one.valid rest.grows ∙ one.same) i
            ∷ (rest.same ∙ views-Grows m m1 l h.1 one.grows) i;
        new = (one.new, All-new m m1 l' one.grows rest.new);
      }

  -- What is read of a list; `none` is the nil slice.
  abbrev pub ListView : Type 0
  ListView = k.TypeMeta × f.ListView × Option (List (RouteView k f))

  abbrev pub view_list : Memory k → Arena (StoredRoute k) → StoredList k → ListView
  view_list m routes l =
      (l.type_meta, f.view_list m.others l.list_meta, Option.map (views m) (read routes l.items))

  -- A predicate of every route of a list.
  abbrev pub EachRoute : (StoredRoute k → Type 0) → Arena (StoredRoute k) → Option Slice → Type 0
  EachRoute P routes none = Unit
  EachRoute P routes (some s) = All P (items routes s)

  EachRoute-Grows :
      (m m' : Memory k) (routes : Arena (StoredRoute k)) (s : Option Slice)
      → MemoryGrows k f m m'
      → EachRoute (IsRoute k f m) routes s
      → EachRoute (IsRoute k f m') routes s
  EachRoute-Grows m m' routes none g h = tt
  EachRoute-Grows m m' routes (some s) g h = All-Grows m m' (items routes s) g h

  EachRoute-new :
      (m m' : Memory k) (routes : Arena (StoredRoute k)) (s : Option Slice)
      → MemoryGrows k f m m'
      → EachRoute (IsNewRoute k f m') routes s
      → EachRoute (IsNewRoute k f m) routes s
  EachRoute-new m m' routes none g h = tt
  EachRoute-new m m' routes (some s) g h = All-new m m' (items routes s) g h

  read-views-Grows :
      (m m' : Memory k) (routes : Arena (StoredRoute k)) (s : Option Slice)
      → EachRoute (IsRoute k f m) routes s
      → MemoryGrows k f m m'
      → Option.map (views m') (read routes s) ≡ Option.map (views m) (read routes s)
  read-views-Grows m m' routes none h g = refl
  read-views-Grows m m' routes (some s) h g = ap some (views-Grows m m' (items routes s) h g)

  -- The list and its routes refer to memory that is in use.
  pub record IsRouteList (m : Memory k) (routes : Arena (StoredRoute k)) (l : StoredList k)
      : Type 0 where
    pub items : IsValid routes l.items
    pub each : EachRoute (IsRoute k f m) routes l.items
    pub list_meta : f.IsList m.others l.list_meta

  record SliceOfRoutesCopied (m : Memory k) (routes : Arena (StoredRoute k)) (s : Option Slice)
      (m' : Memory k) (routes' : Arena (StoredRoute k)) (s' : Option Slice) : Type 0 where
    grows : MemoryGrows k f m m'
    routes_grow : Grows routes routes'
    same : Option.map (views m') (read routes' s') ≡ Option.map (views m) (read routes s)
    above : IsAbove routes.next s'
    new : EachRoute (IsNewRoute k f m) routes' s'

  copy_routes-Copied :
      (m : Memory k) (routes : Arena (StoredRoute k)) (s : Option Slice)
      → IsValid routes s
      → EachRoute (IsRoute k f m) routes s
      → let (m', routes', s') = copy_slice_each (copy_route k) (no_route k) m routes s in
        SliceOfRoutesCopied m routes s m' routes' s'
  unfolding copy_slice_each make
  copy_routes-Copied m routes none v h = record {
    grows = MemoryGrows-refl k f m;
    routes_grow = Grows-refl routes;
    same = refl;
    above = tt;
    new = tt;
  }
  copy_routes-Copied m routes (some s) v h =
      let (memory, filled, grows, within) =
        copy_each-make (copy_route k) (no_route k) m routes s v in
      let all = copy_list-Copied m (items routes s) h in
      record {
        grows = subst (MemoryGrows k f m) (sym memory) all.grows;
        routes_grow = grows;
        same = ap some ((λ i. views (memory i) (filled i)) ∙ all.same);
        above = omega arith;
        new = subst (All (IsNewRoute k f m)) (sym filled) all.new;
      }

  -- `ZoneRouteList.DeepCopyInto` leaves a list that reads as the original, in its metadata and in
  -- every field of its routes, nil slices included. The array of its items, and the arrays of zones,
  -- upstreams and conditions of all of them, are new; all that was in use before is as it was.
  pub copy_route_list-View :
      (m : Memory k) (routes : Arena (StoredRoute k)) (l : StoredList k)
      → IsRouteList m routes l
      → let ((m', routes'), l') = copy_route_list k (m, routes) l in
        (view_list m' routes' l' ≡ view_list m routes l)
        × IsAbove routes.next l'.items
        × EachRoute (IsNewRoute k f m) routes' l'.items
        × MemoryGrows k f m m'
        × Grows routes routes'
  unfolding copy_route_list
  copy_route_list-View m routes l v =
      let (extends, seen, owned) = f.list_copied m.others l.list_meta v.list_meta in
      let (others, list_meta) = k.copy_list_meta m.others l.list_meta in
      let m1 : Memory k = record m { others = others } in
      let g1 : MemoryGrows k f m m1 = record {
        strings = Grows-refl _;
        upstreams = Grows-refl _;
        conditions = Grows-refl _;
        others = extends;
      } in
      let (m2, routes', own) = copy_slice_each (copy_route k) (no_route k) m1 routes l.items in
      let all =
        copy_routes-Copied m1 routes l.items v.items
          (EachRoute-Grows m m1 routes l.items g1 v.each) in
      (
        λ i. (
          l.type_meta,
          (f.list-Extends others m2.others list_meta owned all.grows.others ∙ seen) i,
          (all.same ∙ read-views-Grows m m1 routes l.items v.each g1) i,
        ),
        all.above,
        EachRoute-new m m1 routes' own g1 all.new,
        MemoryGrows-trans k f m m1 m2 g1 all.grows,
        all.routes_grow,
      )
