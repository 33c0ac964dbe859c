-- ===== src/Api/Copies/View.antt =====
-- What is read of a stored object, and what a deep copy has to keep of it. `IsFaithful` is what
-- the code relies on of the deep copies of k8s.io/apimachinery.
use zoneroute.Base.{ℕ, List, Option, ◌≡◌, refl, sym}
use zoneroute.Text.{Text}
use zoneroute.Api.{Upstream}
use zoneroute.Api.Memory.Slices.{
  Grows, SameAbove, IsValid, IsAbove, read, Grows-refl, Grows-trans, IsAbove-le, read-Grows,
  IsValid-Grows, read-SameAbove, SameAbove-refl,
}
use zoneroute.Api.Copies.{MetaApi, StoredSpec, StoredStatus, StoredRoute, Memory}

-- The views of the metadata, and when its memory is in use. Copying reads the same, and leaves all
-- else as it was; a condition refers to no memory.
pub record IsFaithful (k : MetaApi) : Type 1 where
  pub ObjectView : Type 0
  pub ListView : Type 0
  pub view_object : k.Others → k.ObjectMeta → ObjectView
  pub view_list : k.Others → k.ListMeta → ListView
  pub IsObject : k.Others → k.ObjectMeta → Type 0
  pub IsList : k.Others → k.ListMeta → Type 0
  pub Extends : k.Others → k.Others → Type 0
  pub Extends-refl : (o : k.Others) → Extends o o
  pub Extends-trans : (a b c : k.Others) → Extends a b → Extends b c → Extends a c
  pub object-Extends :
      (o o' : k.Others) (x : k.ObjectMeta)
      → IsObject o x
      → Extends o o'
      → (view_object o' x ≡ view_object o x) × IsObject o' x
  pub object_copied :
      (o : k.Others) (x : k.ObjectMeta)
      → IsObject o x
      → let (o', x') = k.copy_object_meta o x in
        Extends o o' × (view_object o' x' ≡ view_object o x) × IsObject o' x'
  pub list_copied :
      (o : k.Others) (x : k.ListMeta)
      → IsList o x
      → let (o', x') = k.copy_list_meta o x in
        Extends o o' × (view_list o' x' ≡ view_list o x) × IsList o' x'
  pub list-Extends :
      (o o' : k.Others) (x : k.ListMeta)
      → IsList o x
      → Extends o o'
      → view_list o' x ≡ view_list o x
  pub condition_copied : (x : k.Condition) → k.copy_condition x ≡ x

abbrev pub SpecView : Type 0
SpecView = Option (List Text) × Option (List Upstream)

module _ (k : MetaApi) (f : IsFaithful k) where
  abbrev pub StatusView : Type 0
  StatusView = ℕ × Option (List k.Condition)

  abbrev pub RouteView : Type 0
  RouteView = k.TypeMeta × f.ObjectView × SpecView × StatusView

  abbrev pub view_spec : Memory k → StoredSpec → SpecView
  view_spec m s = (read m.strings s.zones, read m.upstreams s.upstreams)

  abbrev pub view_status : Memory k → StoredStatus → StatusView
  view_status m s = (s.observed_generation, read m.conditions s.conditions)

  abbrev pub view_route : Memory k → StoredRoute k → RouteView
  view_route m r = (
    r.type_meta,
    f.view_object m.others r.object_meta,
    view_spec m r.spec,
    view_status m r.status,
  )

  -- All slices of the object, and its metadata, refer to memory that is in use.
  pub record IsSpec (m : Memory k) (s : StoredSpec) : Type 0 where
    pub zones : IsValid m.strings s.zones
    pub upstreams : IsValid m.upstreams s.upstreams

  abbrev pub IsStatus : Memory k → StoredStatus → Type 0
  IsStatus m s = IsValid m.conditions s.conditions

  pub record IsRoute (m : Memory k) (r : StoredRoute k) : Type 0 where
    pub spec : IsSpec m r.spec
    pub status : IsStatus m r.status
    pub object_meta : f.IsObject m.others r.object_meta

  -- The arrays of the object are none of those that `m` has in use.
  pub record IsNewSpec (m : Memory k) (s : StoredSpec) : Type 0 where
    pub zones : IsAbove m.strings.next s.zones
    pub upstreams : IsAbove m.upstreams.next s.upstreams

  abbrev pub IsNewStatus : Memory k → StoredStatus → Type 0
  IsNewStatus m s = IsAbove m.conditions.next s.conditions

  pub record IsNewRoute (m : Memory k) (r : StoredRoute k) : Type 0 where
    pub spec : IsNewSpec m r.spec
    pub status : IsNewStatus m r.status

  -- Everything that was in use is still there, as it was.
  pub record MemoryGrows (m m' : Memory k) : Type 0 where
    pub strings : Grows m.strings m'.strings
    pub upstreams : Grows m.upstreams m'.upstreams
    pub conditions : Grows m.conditions m'.conditions
    pub others : f.Extends m.others m'.others

  -- The arrays that came after `m` are as they were.
  pub record NewSame (m a b : Memory k) : Type 0 where
    pub strings : SameAbove m.strings.next a.strings b.strings
    pub upstreams : SameAbove m.upstreams.next a.upstreams b.upstreams
    pub conditions : SameAbove m.conditions.next a.conditions b.conditions
    pub others : a.others ≡ b.others

  pub MemoryGrows-refl : (m : Memory k) → MemoryGrows m m
  MemoryGrows-refl m = record {
    strings = Grows-refl _;
    upstreams = Grows-refl _;
    conditions = Grows-refl _;
    others = f.Extends-refl _;
  }

  pub MemoryGrows-trans : (a b c : Memory k) → MemoryGrows a b → MemoryGrows b c → MemoryGrows a c
  MemoryGrows-trans a b c g h = record {
    strings = Grows-trans _ _ _ g.strings h.strings;
    upstreams = Grows-trans _ _ _ g.upstreams h.upstreams;
    conditions = Grows-trans _ _ _ g.conditions h.conditions;
    others = f.Extends-trans _ _ _ g.others h.others;
  }

  pub NewSame-refl : (m a : Memory k) → NewSame m a a
  NewSame-refl m a = record {
    strings = SameAbove-refl _ _;
    upstreams = SameAbove-refl _ _;
    conditions = SameAbove-refl _ _;
    others = refl;
  }

  pub IsNewSpec-Grows :
      (m m' : Memory k) (s : StoredSpec) → MemoryGrows m m' → IsNewSpec m' s → IsNewSpec m s
  IsNewSpec-Grows m m' s g h = record {
    zones = IsAbove-le _ _ s.zones g.strings.further h.zones;
    upstreams = IsAbove-le _ _ s.upstreams g.upstreams.further h.upstreams;
  }

  pub IsNewRoute-Grows :
      (m m' : Memory k) (r : StoredRoute k) → MemoryGrows m m' → IsNewRoute m' r → IsNewRoute m r
  IsNewRoute-Grows m m' r g h = record {
    spec = IsNewSpec-Grows m m' r.spec g h.spec;
    status = IsAbove-le _ _ r.status.conditions g.conditions.further h.status;
  }

  pub IsSpec-Grows :
      (m m' : Memory k) (s : StoredSpec) → MemoryGrows m m' → IsSpec m s → IsSpec m' s
  IsSpec-Grows m m' s g h = record {
    zones = IsValid-Grows _ _ s.zones h.zones g.strings;
    upstreams = IsValid-Grows _ _ s.upstreams h.upstreams g.upstreams;
  }

  pub IsRoute-Grows :
      (m m' : Memory k) (r : StoredRoute k) → MemoryGrows m m' → IsRoute m r → IsRoute m' r
  IsRoute-Grows m m' r g h = record {
    spec = IsSpec-Grows m m' r.spec g h.spec;
    status = IsValid-Grows _ _ r.status.conditions h.status g.conditions;
    object_meta = (f.object-Extends _ _ r.object_meta h.object_meta g.others).1;
  }

  pub view_spec-Grows :
      (m m' : Memory k) (s : StoredSpec)
      → IsSpec m s
      → MemoryGrows m m'
      → view_spec m' s ≡ view_spec m s
  view_spec-Grows m m' s h g i = (
    read-Grows _ _ s.zones h.zones g.strings i,
    read-Grows _ _ s.upstreams h.upstreams g.upstreams i,
  )

  pub view_route-Grows :
      (m m' : Memory k) (r : StoredRoute k)
      → IsRoute m r
      → MemoryGrows m m'
      → view_route m' r ≡ view_route m r
  view_route-Grows m m' r h g i = (
    r.type_meta,
    (f.object-Extends _ _ r.object_meta h.object_meta g.others).0 i,
    view_spec-Grows m m' r.spec h.spec g i,
    (r.status.observed_generation, read-Grows _ _ r.status.conditions h.status g.conditions i),
  )

  pub view_route-NewSame :
      (m a b : Memory k) (r : StoredRoute k)
      → IsNewRoute m r
      → NewSame m a b
      → view_route b r ≡ view_route a r
  view_route-NewSame m a b r h g i = (
    r.type_meta,
    f.view_object (sym g.others i) r.object_meta,
    (
      read-SameAbove _ _ _ r.spec.zones h.spec.zones g.strings i,
      read-SameAbove _ _ _ r.spec.upstreams h.spec.upstreams g.upstreams i,
    ),
    (
      r.status.observed_generation,
      read-SameAbove _ _ _ r.status.conditions h.status g.conditions i,
    ),
  )
