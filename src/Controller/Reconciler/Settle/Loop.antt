-- ===== src/Controller/Reconciler/Settle/Loop.antt =====
-- What the loop of status updates leaves behind when no update fails: every object with the
-- conditions that are wanted of it.
use zoneroute.Base.Maps.{map-map, map-mem}
use zoneroute.Controller.Reconciler.Settle.{
  settle, settle-name, refresh, refresh-routes, refresh-maps, updated,
}
use mathlib.Core.List.{
  Mem, Nodup, Nodup-cons, mem-cons, mem-cons_self, mem-cons_of_mem, mem-map_of_mem, not-mem-nil,
}
use mathlib.Core.Logic.Or
use native.Mathlib.Decide.{ℕ_discrete}
use mathlib.Core.List.{Perm}
use mathlib.Core.List.Perm
use zoneroute.Base.Maps.{map-id}
use zoneroute.Base.{List, [], ◌∷◌, ◌++◌, map, ◌≡◌, ◌≢◌, refl, ◌∙◌, ap, sym, subst, arith}
use zoneroute.Result.{ok}
use zoneroute.Text.{Text}
use zoneroute.Text.Order.{same_iff, same_refl}
use zoneroute.Dict.{Dict}
use zoneroute.Caddyfile.{Caddyfile, IsFinite}
use zoneroute.Api.{ZoneRoute}
use zoneroute.Conflict.{Decision}
use zoneroute.Corefile.{Inspection}
use zoneroute.Controller.Status.{PublishState}
use zoneroute.Controller.Reconciler.{refresh_all}
use zoneroute.Controller.Client.{Client}
use zoneroute.Controller.Reconciler.Lawful.{IsLawful, item_names}

module _ (c : Caddyfile) (finite : IsFinite c) (k : Client) (lawful : IsLawful k) (domain : Text)
    (decisions : Dict Decision) (inspected : Inspection) (state : PublishState) where
  open k use {World, Conditions, get_config_map, list_routes}

  abbrev settle_one : ZoneRoute Conditions → ZoneRoute Conditions
  settle_one obj = settle c finite k lawful domain decisions inspected state obj

  abbrev update_one : ZoneRoute Conditions → ZoneRoute Conditions → ZoneRoute Conditions
  update_one obj x = updated c finite k lawful domain decisions inspected state obj x

  abbrev refresh_one : ZoneRoute Conditions → World → List Text × World
  refresh_one obj w = refresh c finite k lawful domain decisions inspected state obj w

  -- What the loop leaves of an object in the list.
  updates : List (ZoneRoute Conditions) → ZoneRoute Conditions → ZoneRoute Conditions
  updates [] x = x
  updates (obj ∷ objs) x = updates objs (update_one obj x)

  loop : List (ZoneRoute Conditions) → World → List Text × World
  loop objs w = refresh_all c finite k domain decisions inspected state objs w

  loop-nil : (w : World) → loop [] w ≡ ([], w)
  unfolding loop refresh_all
  loop-nil w = refl

  loop-cons :
      (obj : ZoneRoute Conditions) (objs : List (ZoneRoute Conditions)) (w : World)
      → loop (obj ∷ objs) w ≡ (
        (refresh_one obj w).0 ++ (loop objs (refresh_one obj w).1).0,
        (loop objs (refresh_one obj w).1).1,
      )
  unfolding loop refresh refresh_all
  loop-cons obj objs w = refl

  no_errors : (a b : List Text) → a ++ b ≡ [] → (a ≡ []) × (b ≡ [])
  no_errors [] b h = (refl, h)
  no_errors (x ∷ a) b h = cc

  loop-maps :
      (objs : List (ZoneRoute Conditions)) (w : World) (n : Text)
      → get_config_map n (loop objs w).1 ≡ get_config_map n w
  loop-maps [] w n = ap (λ (r : List Text × World). get_config_map n r.1) (loop-nil w)
  loop-maps (obj ∷ objs) w n =
      ap (λ (r : List Text × World). get_config_map n r.1) (loop-cons obj objs w)
      ∙ loop-maps objs (refresh_one obj w).1 n
      ∙ refresh-maps c finite k lawful domain decisions inspected state obj w n

  loop-updates :
      (objs : List (ZoneRoute Conditions)) (w : World) (l : List (ZoneRoute Conditions))
      → (loop objs w).0 ≡ []
      → list_routes w ≡ ok l
      → list_routes (loop objs w).1 ≡ ok (map (updates objs) l)
  unfolding updates
  loop-updates [] w l done listed =
      ap (λ (r : List Text × World). list_routes r.1) (loop-nil w)
      ∙ listed
      ∙ ap ok (sym (map-id (λ x. x) l (λ x. refl)))
  loop-updates (obj ∷ objs) w l done listed =
      let (first, rest) =
        no_errors _ _ (sym (ap (λ (r : List Text × World). r.0) (loop-cons obj objs w)) ∙ done) in
      ap (λ (r : List Text × World). list_routes r.1) (loop-cons obj objs w)
      ∙ loop-updates objs (refresh_one obj w).1 (map (update_one obj) l) rest
          (refresh-routes c finite k lawful domain decisions inspected state obj w l first listed)
      ∙ ap ok (map-map (updates objs) (update_one obj) l)

  updated_self : (obj : ZoneRoute Conditions) → update_one obj obj ≡ settle_one obj
  unfolding updated settle
  updated_self obj = ground (arith, same_refl obj.name)

  updated-name : (obj x : ZoneRoute Conditions) → (update_one obj x).name ≡ x.name
  unfolding updated
  updated-name obj x = ground arith

  updated-other : (obj x : ZoneRoute Conditions) → x.name ≢ obj.name → update_one obj x ≡ x
  unfolding updated settle
  updated-other obj x ne = ground (arith, same_iff x.name obj.name)

  updates-other :
      (objs : List (ZoneRoute Conditions)) (x : ZoneRoute Conditions)
      → ¬ Mem x.name (item_names objs)
      → updates objs x ≡ x
  unfolding updates
  updates-other [] x h = refl
  updates-other (obj ∷ objs) x h =
      ap (updates objs) (
        updated-other obj x
          (λ e. h (subst (λ t. Mem t (item_names (obj ∷ objs))) (sym e) mem-cons_self)))
      ∙ updates-other objs x (λ m. h (mem-cons_of_mem _ m))

  updates-settle :
      IsSet (ZoneRoute Conditions)
      → (objs : List (ZoneRoute Conditions)) → Nodup (item_names objs)
      → (x : ZoneRoute Conditions) → Mem x objs
      → updates objs x ≡ settle_one x
  unfolding updates
  updates-settle is_set [] d x m = absurd (not-mem-nil m)
  updates-settle is_set (obj ∷ objs) d x m =
      let (fresh, d') = Nodup-cons.0 d in
      Or.elim (is_set _ _) (mem-cons.0 m)
        (λ e.
          subst (λ y. updates objs (update_one obj y) ≡ settle_one y) (sym e)
            (ap (updates objs) (updated_self obj)
              ∙ updates-other objs (settle_one obj) (λ n. fresh (
                  subst (λ t. Mem t (item_names objs))
                    (settle-name c finite k lawful domain decisions inspected state obj) n))))
        (λ r.
          ap (updates objs) (
            updated-other obj x (λ e. fresh (
              subst (λ t. Mem t (item_names objs)) e
                (mem-map_of_mem (λ (y : ZoneRoute Conditions). y.name) r))))
          ∙ updates-settle is_set objs d' x r)

  -- The list of the server after the loop over its items, in whatever order, without a failure.
  pub refresh_all-settle :
      (items : List (ZoneRoute Conditions)) (w : World) (l : List (ZoneRoute Conditions))
      → Perm items l
      → (refresh_all c finite k domain decisions inspected state items w).0 ≡ []
      → list_routes w ≡ ok l
      → list_routes (refresh_all c finite k domain decisions inspected state items w).1
        ≡ ok (map settle_one l)
  unfolding loop
  refresh_all-settle items w l p done listed =
      let distinct =
        Perm.nodup (Perm.symm (Perm.map (λ (y : ZoneRoute Conditions). y.name) p))
          (lawful.names_distinct w l listed) in
      loop-updates items w l done listed
      ∙ ap ok (
          map-mem (updates items) settle_one l λ x m.
            updates-settle (hlevel (ℕ_discrete, lawful.conditions_set)) items distinct x
              ((Perm.mem_iff p).1 m))

  pub refresh_all-maps :
      (items : List (ZoneRoute Conditions)) (w : World) (n : Text)
      → get_config_map n (refresh_all c finite k domain decisions inspected state items w).1
        ≡ get_config_map n w
  unfolding loop
  refresh_all-maps items w n = loop-maps items w n
