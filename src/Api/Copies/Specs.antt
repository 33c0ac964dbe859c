-- ===== src/Api/Copies/Specs.antt =====
-- The copies of a spec, of a status and of a route read as the originals and share no array with
-- anything that was in use.
use zoneroute.Base.{List, [], ◌∷◌, Option, none, some, ◌≡◌, refl, ◌∙◌, sym, ap, arith}
use zoneroute.Base.Lists.{length}
use zoneroute.Base.Items.{replicate, overwrite, overwrite_all, length-replicate}
use zoneroute.Api.Memory.{Arena, Slice, alloc, items, make, copy}
use zoneroute.Api.Memory.Slices.{
  Grows, IsWithinBlock, IsValid, IsAbove, read, Grows-refl, Grows-alloc, Grows-put, alloc-at,
  put-at, items_whole, items-block, length-items, IsAbove-le, IsValid-Grows, read-Grows,
}
use zoneroute.Api.Memory.Loop.{copy_list, copy_each-make}
use zoneroute.Api.Copies.{
  MetaApi, StoredSpec, StoredStatus, StoredRoute, Memory, copy_slice, copy_slice_each, copy_spec,
  condition_into, copy_status, copy_route, no_upstream,
}
use zoneroute.Api.Copies.View.{
  IsFaithful, view_spec, view_status, view_route, IsSpec, IsStatus, IsRoute, IsNewSpec, IsNewStatus,
  IsNewRoute, MemoryGrows, MemoryGrows-trans, IsNewSpec-Grows, IsSpec-Grows, view_spec-Grows,
}

-- A slice, and its copy in a new array.
pub record SliceCopied {A : Type 0} (ar : Arena A) (s : Option Slice) (ar' : Arena A)
    (s' : Option Slice) : Type 0 where
  pub grows : Grows ar ar'
  pub same : read ar' s' ≡ read ar s
  pub valid : IsValid ar' s'
  pub above : IsAbove ar.next s'

-- What `make` and `copy` leave in the new array.
copy-block :
    {A : Type 0} (zero_value : A) (ar : Arena A) (from : Slice)
    → IsWithinBlock ar from
    → let fresh = alloc ar (replicate from.count zero_value) in
      (copy fresh (record { address = ar.next; offset = 0; count = from.count }) from).block ar.next
      ≡ items ar from
unfolding copy
copy-block zero_value ar from v =
    let zeros = replicate from.count zero_value in
    let fresh = alloc ar zeros in
    let source = items-block ar fresh from ((Grows-alloc ar zeros).same from.address v.in_use) in
    put-at fresh ar.next _
    ∙ (λ i. overwrite (alloc-at ar zeros i) (source i))
    ∙ overwrite_all zeros (items ar from)
        (length-replicate from.count zero_value ∙ sym (length-items ar from v))

pub copy_slice-Copied :
    {A : Type 0} (zero_value : A) (ar : Arena A) (s : Option Slice)
    → IsValid ar s
    → let (ar', s') = copy_slice zero_value ar s in SliceCopied ar s ar' s'
unfolding copy_slice make alloc copy
copy_slice-Copied zero_value ar none v = record {
  grows = Grows-refl ar;
  same = refl;
  valid = tt;
  above = tt;
}
copy_slice-Copied {A} zero_value ar (some from) v =
    let filled = copy-block zero_value ar from v in
    let size = length-items ar from v in
    record {
      grows =
          Grows-put ar _ ar.next _ (omega arith) (Grows-alloc ar (replicate from.count zero_value));
      same = ap some (
          items_whole (copy_slice zero_value ar (some from)).0
            (record { address = ar.next; offset = 0; count = from.count }) (items ar from) refl
            (sym size) filled);
      valid = record {
        in_use = omega arith;
        in_range = omega (arith, size, ap (λ (l : List A). length l) filled);
      };
      above = omega arith;
    }

-- The loop over a slice, for items whose copies are the items themselves and need no memory.
copy_list-same :
    {A : Type 0} (into : Unit {0} → A → Unit {0} × A) (l : List A)
    → ((x : A) → into tt x ≡ (tt, x))
    → (copy_list into tt l).1 ≡ l
unfolding copy_list
copy_list-same into [] h = refl
copy_list-same into (x ∷ l) h = λ i. (h x i).1 ∷ copy_list-same into l h i

pub copy_slice_each-Copied :
    {A : Type 0} (into : Unit {0} → A → Unit {0} × A) (zero_value : A) (ar : Arena A)
    (s : Option Slice)
    → ((x : A) → into tt x ≡ (tt, x))
    → IsValid ar s
    → let (_, ar', s') = copy_slice_each into zero_value tt ar s in SliceCopied ar s ar' s'
unfolding copy_slice_each make
copy_slice_each-Copied into zero_value ar none h v = record {
  grows = Grows-refl ar;
  same = refl;
  valid = tt;
  above = tt;
}
copy_slice_each-Copied into zero_value ar (some from) h v =
    let (_, filled, grows, within) = copy_each-make into zero_value tt ar from v in
    record {
      grows = grows;
      same = ap some (filled ∙ copy_list-same into (items ar from) h);
      valid = within;
      above = omega arith;
    }

module _ (k : MetaApi) (f : IsFaithful k) where
  pub record SpecCopied (m : Memory k) (s : StoredSpec) (r : Memory k × StoredSpec) : Type 0 where
    pub grows : MemoryGrows k f m r.0
    pub same : view_spec k f r.0 r.1 ≡ view_spec k f m s
    pub valid : IsSpec k f r.0 r.1
    pub new : IsNewSpec k f m r.1

  pub copy_spec-Copied :
      (m : Memory k) (s : StoredSpec) → IsSpec k f m s → SpecCopied m s (copy_spec k m s)
  unfolding copy_spec
  copy_spec-Copied m s v =
      let z = copy_slice-Copied [] m.strings s.zones v.zones in
      let u = copy_slice-Copied no_upstream m.upstreams s.upstreams v.upstreams in
      record {
        grows = record {
          strings = z.grows;
          upstreams = u.grows;
          conditions = Grows-refl _;
          others = f.Extends-refl _;
        };
        same = λ i. (z.same i, u.same i);
        valid = record { zones = z.valid; upstreams = u.valid };
        new = record { zones = z.above; upstreams = u.above };
      }

  pub record StatusCopied (m : Memory k) (s : StoredStatus) (r : Memory k × StoredStatus)
      : Type 0 where
    pub grows : MemoryGrows k f m r.0
    pub same : view_status k f r.0 r.1 ≡ view_status k f m s
    pub valid : IsStatus k f r.0 r.1
    pub new : IsNewStatus k f m r.1

  pub copy_status-Copied :
      (m : Memory k) (s : StoredStatus) → IsStatus k f m s → StatusCopied m s (copy_status k m s)
  unfolding copy_status condition_into
  copy_status-Copied m s v =
      let c =
        copy_slice_each-Copied (condition_into k) k.no_condition m.conditions s.conditions
          (λ x i. (tt, f.condition_copied x i)) v in
      record {
        grows = record {
          strings = Grows-refl _;
          upstreams = Grows-refl _;
          conditions = c.grows;
          others = f.Extends-refl _;
        };
        same = λ i. (s.observed_generation, c.same i);
        valid = c.valid;
        new = c.above;
      }

  pub record RouteCopied (m : Memory k) (s : StoredRoute k) (r : Memory k × StoredRoute k)
      : Type 0 where
    pub grows : MemoryGrows k f m r.0
    pub same : view_route k f r.0 r.1 ≡ view_route k f m s
    pub valid : IsRoute k f r.0 r.1
    pub new : IsNewRoute k f m r.1

  pub copy_route-Copied :
      (m : Memory k) (s : StoredRoute k) → IsRoute k f m s → RouteCopied m s (copy_route k m s)
  unfolding copy_route
  copy_route-Copied m s v =
      let (extends, seen, owned) = f.object_copied m.others s.object_meta v.object_meta in
      let (others, object_meta) = k.copy_object_meta m.others s.object_meta in
      let m1 : Memory k = record m { others = others } in
      let g1 : MemoryGrows k f m m1 = record {
        strings = Grows-refl _;
        upstreams = Grows-refl _;
        conditions = Grows-refl _;
        others = extends;
      } in
      let sp = copy_spec-Copied m1 s.spec (IsSpec-Grows k f m m1 s.spec g1 v.spec) in
      let m2 = (copy_spec k m1 s.spec).0 in
      let g2 = MemoryGrows-trans k f m m1 m2 g1 sp.grows in
      let st =
        copy_status-Copied m2 s.status
          (IsValid-Grows _ _ s.status.conditions v.status g2.conditions) in
      let m3 = (copy_status k m2 s.status).0 in
      let kept =
        f.object-Extends m1.others m3.others object_meta owned
          (f.Extends-trans _ _ _ sp.grows.others st.grows.others) in
      record {
        grows = MemoryGrows-trans k f m m2 m3 g2 st.grows;
        same = λ i. (
          s.type_meta,
          (kept.0 ∙ seen) i,
          (view_spec-Grows k f m2 m3 (copy_spec k m1 s.spec).1 sp.valid st.grows ∙ sp.same) i,
          (st.same ∙ (λ j. (
            s.status.observed_generation,
            read-Grows _ _ s.status.conditions v.status g2.conditions j,
          )))
              i,
        );
        valid = record {
          spec = IsSpec-Grows k f m2 m3 _ st.grows sp.valid;
          status = st.valid;
          object_meta = kept.1;
        };
        new = record {
          spec = IsNewSpec-Grows k f m m1 _ g1 sp.new;
          status = IsAbove-le _ _ _ g2.conditions.further st.new;
        };
      }
