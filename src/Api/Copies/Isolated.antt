-- ===== src/Api/Copies/Isolated.antt =====
-- The deep copy of a route and its original: what is written through the one is not seen through
-- the other.
use zoneroute.Base.{ℕ, ◌≤◌, ◌<◌, some, ◌≡◌, ◌∙◌, sym, ap, subst}
use zoneroute.Text.{Text}
use zoneroute.Api.{Upstream}
use zoneroute.Api.Memory.{Arena, Slice, Place, store, load}
use zoneroute.Api.Memory.Slices.{Grows, IsValid, IsAbove, Grows-put, SameAbove-put, SameAbove-trans}
use zoneroute.Api.Copies.{MetaApi, StoredRoute, Memory, no_route, copy_route, deep_copy_route}
use zoneroute.Api.Copies.View.{
  IsFaithful, view_route, IsRoute, IsNewRoute, MemoryGrows, NewSame, view_route-Grows,
  view_route-NewSame, NewSame-refl,
}
use zoneroute.Api.Copies.Specs.{RouteCopied, copy_route-Copied}
use zoneroute.Api.Copies.Pointers.{IsCopiedPlace, new_copy-IsCopiedPlace}

module _ (k : MetaApi) (f : IsFaithful k) where
  -- Any writes to the arrays of one object, at any index, one after the other. Writes beyond the
  -- length of a slice are among them, such as those of `append` where there is room.
  pub data Writes (r : StoredRoute k) (m : Memory k) : Memory k → Type 0 where
    done : Writes r m m
    zone :
        {m' : Memory k} (s : Slice) (i : ℕ) (v : Text)
        → r.spec.zones ≡ some s
        → Writes r m m'
        → Writes r m (record m' { strings = store m'.strings s i v })
    upstream :
        {m' : Memory k} (s : Slice) (i : ℕ) (v : Upstream)
        → r.spec.upstreams ≡ some s
        → Writes r m m'
        → Writes r m (record m' { upstreams = store m'.upstreams s i v })
    condition :
        {m' : Memory k} (s : Slice) (i : ℕ) (v : k.Condition)
        → r.status.conditions ≡ some s
        → Writes r m m'
        → Writes r m (record m' { conditions = store m'.conditions s i v })

  -- Through an object in new memory nothing old is written.
  Writes-MemoryGrows :
      (m : Memory k) (r : StoredRoute k) (a b : Memory k)
      → IsNewRoute k f m r
      → MemoryGrows k f m a
      → Writes r a b
      → MemoryGrows k f m b
  unfolding store
  Writes-MemoryGrows m r a b n g done = g
  Writes-MemoryGrows m r a b n g (zone s i v e w) =
      let old = Writes-MemoryGrows m r a _ n g w in
      record {
        strings =
            Grows-put _ _ s.address _ (subst (IsAbove m.strings.next) e n.spec.zones) old.strings;
        upstreams = old.upstreams;
        conditions = old.conditions;
        others = old.others;
      }
  Writes-MemoryGrows m r a b n g (upstream s i v e w) =
      let old = Writes-MemoryGrows m r a _ n g w in
      record {
        strings = old.strings;
        upstreams =
            Grows-put _ _ s.address _ (subst (IsAbove m.upstreams.next) e n.spec.upstreams)
              old.upstreams;
        conditions = old.conditions;
        others = old.others;
      }
  Writes-MemoryGrows m r a b n g (condition s i v e w) =
      let old = Writes-MemoryGrows m r a _ n g w in
      record {
        strings = old.strings;
        upstreams = old.upstreams;
        conditions =
            Grows-put _ _ s.address _ (subst (IsAbove m.conditions.next) e n.status) old.conditions;
        others = old.others;
      }

  -- Through an old object nothing new is written.
  Writes-NewSame :
      (m : Memory k) (r : StoredRoute k) (a b : Memory k)
      → IsRoute k f m r
      → Writes r a b
      → NewSame k f m a b
  unfolding store
  Writes-NewSame m r a b v done = NewSame-refl k f m a
  Writes-NewSame m r a b v (zone s i x e w) =
      let old = Writes-NewSame m r a _ v w in
      record {
        strings =
            SameAbove-trans _ _ _ _ old.strings
              (SameAbove-put _ _ s.address _ (subst (IsValid m.strings) e v.spec.zones).in_use);
        upstreams = old.upstreams;
        conditions = old.conditions;
        others = old.others;
      }
  Writes-NewSame m r a b v (upstream s i x e w) =
      let old = Writes-NewSame m r a _ v w in
      record {
        strings = old.strings;
        upstreams =
            SameAbove-trans _ _ _ _ old.upstreams (
              SameAbove-put _ _ s.address _
                (subst (IsValid m.upstreams) e v.spec.upstreams).in_use);
        conditions = old.conditions;
        others = old.others;
      }
  Writes-NewSame m r a b v (condition s i x e w) =
      let old = Writes-NewSame m r a _ v w in
      record {
        strings = old.strings;
        upstreams = old.upstreams;
        conditions =
            SameAbove-trans _ _ _ _ old.conditions
              (SameAbove-put _ _ s.address _ (subst (IsValid m.conditions) e v.status).in_use);
        others = old.others;
      }

  module _ (m : Memory k) (routes : Arena (StoredRoute k)) (p : Place)
      (in_use : p.address < routes.next) (valid : IsRoute k f m (load (no_route k) routes p)) where
    copied :
        RouteCopied k f m (load (no_route k) routes p) (copy_route k m (load (no_route k) routes p))
    copied = copy_route-Copied k f m (load (no_route k) routes p) valid

    pointer :
        let (m', routes', c) = deep_copy_route k m routes (some p) in
        IsCopiedPlace (copy_route k) (no_route k) m routes p m' routes' c
    unfolding deep_copy_route
    pointer = new_copy-IsCopiedPlace (copy_route k) (no_route k) m routes p in_use

    -- Suppose that the pointer and what the route refers to are in use. `ZoneRoute.DeepCopy` returns a
    -- pointer to a new variable. What stands there reads as the original in every field, nil slices
    -- included, and all that was in use before is as it was.
    pub deep_copy_route-View :
        let (m', routes', c) = deep_copy_route k m routes (some p) in
        (q : Place) × (c ≡ some q)
        × (routes.next ≤ q.address)
        × (view_route k f m' (load (no_route k) routes' q)
            ≡ view_route k f m (load (no_route k) routes p))
        × MemoryGrows k f m m'
        × Grows routes routes'
    deep_copy_route-View = (
      pointer.place,
      pointer.is_returned,
      pointer.is_new,
      (λ i. view_route k f (pointer.state i) (pointer.value i)) ∙ copied.same,
      subst (MemoryGrows k f m) (sym pointer.state) copied.grows,
      pointer.grows,
    )

    copy_at :
        (q : Place)
        → (deep_copy_route k m routes (some p)).2 ≡ some q
        → load (no_route k) (deep_copy_route k m routes (some p)).1 q
          ≡ (copy_route k m (load (no_route k) routes p)).1
    copy_at q e =
        let returned : some pointer.place ≡ some q = sym pointer.is_returned ∙ e in
        let same_place : pointer.place ≡ q = cc in
        ap (λ c. load (no_route k) (deep_copy_route k m routes (some p)).1 c) (sym same_place)
        ∙ pointer.value

    -- Suppose that the pointer and what the route refers to are in use, and that `ZoneRoute.DeepCopy`
    -- returned `q`. Whatever is then written to the arrays of zones, upstreams and conditions of the
    -- route behind `q`, every route that was in use before the copy reads as it did.
    pub deep_copy_route-others_same :
        (q : Place) (after : Memory k) (o : StoredRoute k)
        → (deep_copy_route k m routes (some p)).2 ≡ some q
        → Writes
            (load (no_route k) (deep_copy_route k m routes (some p)).1 q)
            (deep_copy_route k m routes (some p)).0
            after
        → IsRoute k f m o
        → view_route k f after o ≡ view_route k f m o
    deep_copy_route-others_same q after o e w v =
        let r = (copy_route k m (load (no_route k) routes p)).1 in
        let moved =
          subst (λ (x : StoredRoute k). Writes x (deep_copy_route k m routes (some p)).0 after)
            (copy_at q e) w in
        let grown = subst (MemoryGrows k f m) (sym pointer.state) copied.grows in
        view_route-Grows k f m after o v (Writes-MemoryGrows m r _ after copied.new grown moved)

    -- Suppose that the pointer and what the route refers to are in use, and that `ZoneRoute.DeepCopy`
    -- returned `q`. Whatever is then written to the arrays of a route that was in use before the
    -- copy, the original among them, the route behind `q` reads as the original did when it was
    -- copied.
    pub deep_copy_route-copy_same :
        (q : Place) (after : Memory k) (o : StoredRoute k)
        → (deep_copy_route k m routes (some p)).2 ≡ some q
        → IsRoute k f m o
        → Writes o (deep_copy_route k m routes (some p)).0 after
        → view_route k f after (load (no_route k) (deep_copy_route k m routes (some p)).1 q)
          ≡ view_route k f m (load (no_route k) routes p)
    deep_copy_route-copy_same q after o e v w =
        let r = (copy_route k m (load (no_route k) routes p)).1 in
        ap (view_route k f after) (copy_at q e)
        ∙ view_route-NewSame k f m (deep_copy_route k m routes (some p)).0 after r copied.new
            (Writes-NewSame m o _ after v w)
        ∙ ap (λ (x : Memory k). view_route k f x r) pointer.state
        ∙ copied.same
