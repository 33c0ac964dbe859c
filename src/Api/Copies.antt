-- ===== src/Api/Copies.antt =====
-- api/v1alpha1/zz_generated.deepcopy.go: the deep copies, on objects that share memory.
-- `DeepCopyInto` is a function from the value behind `in` to the one that it leaves behind `out`;
-- both pass the memory in which it allocates.
pub mod View
pub mod Specs
pub mod Lists
pub mod Pointers
pub mod Isolated
pub mod Sample
pub mod Tests
use zoneroute.Base.{ℕ, [], Option, none, some}
use zoneroute.Text.{Text}
use zoneroute.Api.{Upstream}
use zoneroute.Api.Memory.{Arena, Slice, Place, make, copy, copy_each, new_copy}

-- What `k8s.io/apimachinery` declares: the metadata, the memory that it refers to, the conditions,
-- and their own `DeepCopyInto`.
pub record MetaApi : Type 1 where
  pub Others : Type 0
  pub TypeMeta : Type 0
  pub ObjectMeta : Type 0
  pub ListMeta : Type 0
  pub Condition : Type 0
  pub no_type : TypeMeta
  pub no_object : ObjectMeta
  pub no_list : ListMeta
  pub no_condition : Condition
  pub copy_object_meta : Others → ObjectMeta → Others × ObjectMeta
  pub copy_list_meta : Others → ListMeta → Others × ListMeta
  pub copy_condition : Condition → Condition

-- `ZoneRouteSpec`; a slice that is nil is `none`.
pub record StoredSpec : Type 0 where
  pub zones : Option Slice
  pub upstreams : Option Slice

-- `ZoneRouteStatus`
pub record StoredStatus : Type 0 where
  pub observed_generation : ℕ
  pub conditions : Option Slice

-- `runtime.Object` as the two methods return it: a pointer to a value of either type.
pub data RuntimeObject : Type 0 where
  zone_route zone_route_list : Place → RuntimeObject

abbrev pub no_upstream : Upstream
no_upstream = record { address = []; port = 0 }

abbrev pub no_spec : StoredSpec
no_spec = record { zones = none; upstreams = none }

abbrev pub no_status : StoredStatus
no_status = record { observed_generation = 0; conditions = none }

-- `if in != nil { *out = make([]A, len(*in)); copy(*out, *in) }`
unfoldable pub copy_slice : {A : Type 0} → A → Arena A → Option Slice → Arena A × Option Slice
unfolding make copy
copy_slice zero_value ar none = (ar, none)
copy_slice zero_value ar (some from) =
    let (fresh, to) = make zero_value ar from.count in (copy fresh to from, some to)

-- `if in != nil { *out = make([]A, len(*in)); for i := range *in { … } }`, where `into` is the
-- `DeepCopyInto` of the items.
unfoldable pub copy_slice_each :
    {A S : Type 0} → (S → A → S × A) → A → S → Arena A → Option Slice → S × Arena A × Option Slice
unfolding make copy_each
copy_slice_each into zero_value s ar none = (s, ar, none)
copy_slice_each into zero_value s ar (some from) =
    let (fresh, to) = make zero_value ar from.count in
    let (s', filled) = copy_each into zero_value s fresh to from 0 from.count in
    (s', filled, some to)

-- `(in *Upstream) DeepCopyInto`, which allocates nothing.
unfoldable pub copy_upstream : Unit {0} → Upstream → Unit {0} × Upstream
copy_upstream s u = (s, u)

-- `(in *Upstream) DeepCopy`
unfoldable pub deep_copy_upstream : Arena Upstream → Option Place → Arena Upstream × Option Place
unfolding new_copy copy_upstream
deep_copy_upstream ar p = let (_, ar', c) = new_copy copy_upstream no_upstream tt ar p in (ar', c)

module _ (k : MetaApi) where
  open k use {
    Others, TypeMeta, ObjectMeta, ListMeta, Condition, no_type, no_object, no_list, no_condition,
    copy_object_meta, copy_list_meta, copy_condition,
  }

  -- `ZoneRoute`
  pub record StoredRoute : Type 0 where
    pub type_meta : TypeMeta
    pub object_meta : ObjectMeta
    pub spec : StoredSpec
    pub status : StoredStatus

  -- `ZoneRouteList`
  pub record StoredList : Type 0 where
    pub type_meta : TypeMeta
    pub list_meta : ListMeta
    pub items : Option Slice

  -- The memory that the fields of a route refer to.
  pub record Memory : Type 0 where
    pub strings : Arena Text
    pub upstreams : Arena Upstream
    pub conditions : Arena Condition
    pub others : Others

  abbrev pub no_route : StoredRoute
  no_route = record {
    type_meta = no_type;
    object_meta = no_object;
    spec = no_spec;
    status = no_status;
  }

  abbrev pub no_route_list : StoredList
  no_route_list = record { type_meta = no_type; list_meta = no_list; items = none }

  -- `(in *ZoneRouteSpec) DeepCopyInto`
  unfoldable pub copy_spec : Memory → StoredSpec → Memory × StoredSpec
  unfolding copy_slice
  copy_spec m spec =
      let (strings, zones) = copy_slice [] m.strings spec.zones in
      let (upstreams, addresses) = copy_slice no_upstream m.upstreams spec.upstreams in
      (
        record m { strings = strings; upstreams = upstreams },
        record spec { zones = zones; upstreams = addresses },
      )

  -- `(in *Condition) DeepCopyInto`, which allocates nothing.
  unfoldable pub condition_into : Unit {0} → Condition → Unit {0} × Condition
  condition_into s c = (s, copy_condition c)

  -- `(in *ZoneRouteStatus) DeepCopyInto`
  unfoldable pub copy_status : Memory → StoredStatus → Memory × StoredStatus
  unfolding copy_slice_each condition_into
  copy_status m status =
      let (_, conditions, own) =
        copy_slice_each condition_into no_condition tt m.conditions status.conditions in
      (record m { conditions = conditions }, record status { conditions = own })

  -- `(in *ZoneRoute) DeepCopyInto`
  unfoldable pub copy_route : Memory → StoredRoute → Memory × StoredRoute
  unfolding copy_spec copy_status
  copy_route m route =
      let (others, object_meta) = copy_object_meta m.others route.object_meta in
      let (m', spec) = copy_spec (record m { others = others }) route.spec in
      let (m'', status) = copy_status m' route.status in
      (m'', record route { object_meta = object_meta; spec = spec; status = status })

  -- `(in *ZoneRouteList) DeepCopyInto`; the routes are the arrays behind `Items`.
  unfoldable pub copy_route_list :
      Memory × Arena StoredRoute → StoredList → (Memory × Arena StoredRoute) × StoredList
  unfolding copy_slice_each copy_route
  copy_route_list (m, routes) list =
      let (others, list_meta) = copy_list_meta m.others list.list_meta in
      let (m', routes', own) =
        copy_slice_each copy_route no_route (record m { others = others }) routes list.items in
      ((m', routes'), record list { list_meta = list_meta; items = own })

  -- `(in *ZoneRouteSpec) DeepCopy`
  unfoldable pub deep_copy_spec :
      Memory → Arena StoredSpec → Option Place → Memory × Arena StoredSpec × Option Place
  unfolding new_copy copy_spec
  deep_copy_spec m ar p = new_copy copy_spec no_spec m ar p

  -- `(in *ZoneRouteStatus) DeepCopy`
  unfoldable pub deep_copy_status :
      Memory → Arena StoredStatus → Option Place → Memory × Arena StoredStatus × Option Place
  unfolding new_copy copy_status
  deep_copy_status m ar p = new_copy copy_status no_status m ar p

  -- `(in *ZoneRoute) DeepCopy`
  unfoldable pub deep_copy_route :
      Memory → Arena StoredRoute → Option Place → Memory × Arena StoredRoute × Option Place
  unfolding new_copy copy_route
  deep_copy_route m routes p = new_copy copy_route no_route m routes p

  -- `(in *ZoneRouteList) DeepCopy`
  unfoldable pub deep_copy_route_list :
      Memory × Arena StoredRoute
      → Arena StoredList
      → Option Place
      → (Memory × Arena StoredRoute) × Arena StoredList × Option Place
  unfolding new_copy copy_route_list
  deep_copy_route_list m lists p = new_copy copy_route_list no_route_list m lists p

  -- `DeepCopyObject`: a nil pointer gives a nil interface.
  unfoldable pub as_object : (Place → RuntimeObject) → Option Place → Option RuntimeObject
  as_object type none = none
  as_object type (some c) = some (type c)

  -- `(in *ZoneRoute) DeepCopyObject`
  unfoldable pub deep_copy_route_object :
      Memory → Arena StoredRoute → Option Place → Memory × Arena StoredRoute × Option RuntimeObject
  unfolding deep_copy_route as_object
  deep_copy_route_object m routes p =
      let (m', routes', c) = deep_copy_route m routes p in (m', routes', as_object zone_route c)

  -- `(in *ZoneRouteList) DeepCopyObject`
  unfoldable pub deep_copy_list_object :
      Memory × Arena StoredRoute
      → Arena StoredList
      → Option Place
      → (Memory × Arena StoredRoute) × Arena StoredList × Option RuntimeObject
  unfolding deep_copy_route_list as_object
  deep_copy_list_object m lists p =
      let (m', lists', c) = deep_copy_route_list m lists p in
      (m', lists', as_object zone_route_list c)
