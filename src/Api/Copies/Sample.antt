-- ===== src/Api/Copies/Sample.antt =====
-- A small memory with two routes, on which the tests run.
use zoneroute.Base.{ℕ, ◌≤◌, ◌<◌, [], ◌∷◌, none, some, refl, arith, ◌==◌, if◌then◌else◌}
use zoneroute.Base.Lists.{length}
use zoneroute.Text.{Text, codes}
use zoneroute.Api.Memory.{Arena, Slice, Place, load}
use zoneroute.Api.Copies.{MetaApi, StoredRoute, Memory, no_route}
use zoneroute.Api.Copies.View.{IsFaithful, IsRoute}

-- Metadata is a name, and refers to no memory.
abbrev pub plain_meta : MetaApi
plain_meta = record {
  Others = Unit {0};
  TypeMeta = Text;
  ObjectMeta = Text;
  ListMeta = Text;
  Condition = Text;
  no_type = [];
  no_object = [];
  no_list = [];
  no_condition = [];
  copy_object_meta = λ o x. (o, x);
  copy_list_meta = λ o x. (o, x);
  copy_condition = λ x. x;
}

abbrev pub plain_meta-IsFaithful : IsFaithful plain_meta
plain_meta-IsFaithful = record {
  ObjectView = Text;
  ListView = Text;
  view_object = λ o x. x;
  view_list = λ o x. x;
  IsObject = λ o x. Unit {0};
  IsList = λ o x. Unit {0};
  Extends = λ o p. Unit {0};
  Extends-refl = λ o. tt;
  Extends-trans = λ a b c g h. tt;
  object-Extends = λ o p x h g. (refl, tt);
  object_copied = λ o x h. (tt, refl, tt);
  list_copied = λ o x h. (tt, refl, tt);
  list-Extends = λ o p x h g. refl;
  condition_copied = λ x. refl;
}

abbrev pub slice : ℕ → ℕ → Slice
slice a n = record { address = a; offset = 0; count = n }

-- Two arrays of zones, one of upstreams, and none of conditions.
abbrev pub memory : Memory plain_meta
memory = record {
  strings = record {
    next = 2;
    block = λ p. if p == 0 then codes "a.org" ∷ codes "b.org" ∷ [] else codes "c.org" ∷ [];
  };
  upstreams = record {
    next = 1;
    block = λ p. record { address = codes "10.0.0.1"; port = 53 } ∷ [];
  };
  conditions = record { next = 0; block = λ p. [] };
  others = tt;
}

abbrev pub route_of : ℕ → ℕ → StoredRoute plain_meta
route_of a n = record {
  type_meta = codes "ZoneRoute";
  object_meta = codes "r";
  spec = record { zones = some (slice a n); upstreams = some (slice 0 1) };
  status = record { observed_generation = 3; conditions = none };
}

-- The array behind a list of two routes.
abbrev pub routes : Arena (StoredRoute plain_meta)
routes = record { next = 1; block = λ p. route_of 0 2 ∷ route_of 1 1 ∷ [] }

abbrev pub second : Place
second = record { address = 0; offset = 1 }

abbrev pub new_place : Place
new_place = record { address = 1; offset = 0 }

abbrev pub facts : IsFaithful plain_meta
facts = plain_meta-IsFaithful

pub route_of-IsRoute :
    (a n : ℕ)
    → a < 2
    → n ≤ length (memory.strings.block a)
    → IsRoute plain_meta facts memory (route_of a n)
route_of-IsRoute a n h l = record {
  spec = record {
    zones = record { in_use = h; in_range = omega (arith, l) };
    upstreams = record { in_use = omega arith; in_range = omega arith };
  };
  status = tt;
  object_meta = tt;
}

pub second-IsRoute : IsRoute plain_meta facts memory (load (no_route plain_meta) routes second)
unfolding load
second-IsRoute = route_of-IsRoute 1 1 (omega arith) (omega arith)
