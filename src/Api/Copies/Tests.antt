-- ===== src/Api/Copies/Tests.antt =====
-- Runs of the deep copies, and instances of the theorems on them.
use zoneroute.Base.{◌≤◌, [], ◌∷◌, none, some, ◌≡◌, refl, arith}
use zoneroute.Text.{codes}
use zoneroute.Api.Memory.{Place, items, store, load}
use zoneroute.Api.Copies.{
  StoredList, Memory, RuntimeObject, no_route, no_route_list, copy_route_list, deep_copy_upstream,
  deep_copy_spec, deep_copy_status, deep_copy_route, deep_copy_route_object, deep_copy_list_object,
}
use zoneroute.Api.Memory.Slices.{Grows, IsAbove}
use zoneroute.Api.Copies.View.{IsNewRoute, MemoryGrows, view_route}
use zoneroute.Api.Copies.Lists.{IsRouteList, EachRoute, view_list, copy_route_list-View}
use zoneroute.Api.Copies.Isolated.{
  Writes, done, zone, deep_copy_route-View, deep_copy_route-others_same, deep_copy_route-copy_same,
}
use zoneroute.Api.Copies.Sample.{
  plain_meta, slice, memory, route_of, routes, second, new_place, facts, route_of-IsRoute,
  second-IsRoute,
}

-- The copy of the first route has an array of its own for its zones, which is written.
first_copied :
    let (m, ar, c) =
      deep_copy_route plain_meta memory routes (some (record { address = 0; offset = 0 })) in
    items (store m.strings (slice 2 2) 1 (codes "x")) (slice 2 2) ≡ codes "a.org" ∷ codes "x" ∷ []
unfolding deep_copy_route items store
first_copied = refl

-- Without a deep copy both routes have one array, and the write is seen through either.
shared_write :
    items (store memory.strings (slice 0 2) 1 (codes "x")) (slice 0 2)
    ≡ codes "a.org" ∷ codes "x" ∷ []
unfolding items store
shared_write = refl

nil_copied :
    ((deep_copy_route plain_meta memory routes none).2 ≡ none)
    × ((deep_copy_route_object plain_meta memory routes none).2 ≡ none)
unfolding deep_copy_route deep_copy_route_object
nil_copied = (refl, refl)

objects_copied :
    ((deep_copy_route_object plain_meta memory routes (some second)).2
      ≡ some (RuntimeObject.zone_route new_place))
    × ((deep_copy_list_object plain_meta
          (memory, routes)
          (record { next = 1; block = λ p. no_route_list plain_meta ∷ [] })
          (some (record { address = 0; offset = 0 }))).2
        ≡ some (RuntimeObject.zone_route_list new_place))
unfolding deep_copy_route_object deep_copy_list_object
objects_copied = (refl, refl)

upstream_copied :
    load
      (record { address = []; port = 0 })
      (deep_copy_upstream memory.upstreams (some (record { address = 0; offset = 0 }))).0
      new_place
    ≡ record { address = codes "10.0.0.1"; port = 53 }
unfolding deep_copy_upstream load
upstream_copied = refl

parts_copied :
    ((deep_copy_spec plain_meta memory
        (record { next = 1; block = λ p. (route_of 0 2).spec ∷ [] })
        (some (record { address = 0; offset = 0 }))).0.strings.next
      ≡ 3)
    × ((deep_copy_status plain_meta memory
          (record { next = 1; block = λ p. (route_of 0 2).status ∷ [] })
          (some (record { address = 0; offset = 0 }))).0.conditions.next
        ≡ 0)
unfolding deep_copy_spec deep_copy_status
parts_copied = (refl, refl)

deep_copy_route-View_example :
    let (m', routes', c) = deep_copy_route plain_meta memory routes (some second) in
    (q : Place) × (c ≡ some q)
    × (routes.next ≤ q.address)
    × (view_route plain_meta facts m' (load (no_route plain_meta) routes' q)
        ≡ view_route plain_meta facts memory (load (no_route plain_meta) routes second))
    × MemoryGrows plain_meta facts memory m'
    × Grows routes routes'
deep_copy_route-View_example =
    deep_copy_route-View plain_meta facts memory routes second (omega arith) second-IsRoute

abbrev copied_memory : Memory plain_meta
copied_memory = (deep_copy_route plain_meta memory routes (some second)).0

-- The zone of the copy is overwritten.
abbrev zone_written : Memory plain_meta
zone_written = record copied_memory {
  strings = store copied_memory.strings (slice 2 1) 0 (codes "x");
}

is_new_place : (deep_copy_route plain_meta memory routes (some second)).2 ≡ some new_place
unfolding deep_copy_route
is_new_place = refl

zone-Writes :
    Writes plain_meta facts
      (load
        (no_route plain_meta)
        (deep_copy_route plain_meta memory routes (some second)).1
        new_place)
      copied_memory
      zone_written
unfolding deep_copy_route load
zone-Writes = zone (slice 2 1) 0 (codes "x") refl done

deep_copy_route-others_same_example :
    view_route plain_meta facts zone_written (route_of 0 1)
    ≡ view_route plain_meta facts memory (route_of 0 1)
deep_copy_route-others_same_example =
    deep_copy_route-others_same plain_meta facts memory routes second (omega arith) second-IsRoute
      new_place zone_written (route_of 0 1) is_new_place zone-Writes
      (route_of-IsRoute 0 1 (omega arith) (omega arith))

-- The zone of the original is overwritten.
abbrev original_written : Memory plain_meta
original_written = record copied_memory {
  strings = store copied_memory.strings (slice 1 1) 0 (codes "x");
}

original-Writes : Writes plain_meta facts (route_of 1 1) copied_memory original_written
original-Writes = zone (slice 1 1) 0 (codes "x") refl done

deep_copy_route-copy_same_example :
    view_route plain_meta facts original_written (
      load
        (no_route plain_meta)
        (deep_copy_route plain_meta memory routes (some second)).1
        new_place)
    ≡ view_route plain_meta facts memory (load (no_route plain_meta) routes second)
deep_copy_route-copy_same_example =
    deep_copy_route-copy_same plain_meta facts memory routes second (omega arith) second-IsRoute
      new_place original_written (route_of 1 1) is_new_place
      (route_of-IsRoute 1 1 (omega arith) (omega arith)) original-Writes

abbrev route_list : StoredList plain_meta
route_list = record { type_meta = codes "ZoneRouteList"; list_meta = []; items = some (slice 0 2) }

route_list-IsRouteList : IsRouteList plain_meta facts memory routes route_list
unfolding items
route_list-IsRouteList = record {
  items = record { in_use = omega arith; in_range = omega arith };
  each = (
    route_of-IsRoute 0 2 (omega arith) (omega arith),
    (route_of-IsRoute 1 1 (omega arith) (omega arith), tt),
  );
  list_meta = tt;
}

copy_route_list-View_example :
    let ((m', routes'), l') = copy_route_list plain_meta (memory, routes) route_list in
    (view_list plain_meta facts m' routes' l' ≡ view_list plain_meta facts memory routes route_list)
    × IsAbove routes.next l'.items
    × EachRoute plain_meta facts (IsNewRoute plain_meta facts memory) routes' l'.items
    × MemoryGrows plain_meta facts memory m'
    × Grows routes routes'
copy_route_list-View_example =
    copy_route_list-View plain_meta facts memory routes route_list route_list-IsRouteList
