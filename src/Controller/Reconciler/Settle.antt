-- ===== src/Controller/Reconciler/Settle.antt =====
-- What a status update leaves behind when it does not fail: the object with the conditions that are
-- wanted of it, on which it would write nothing more.
pub mod Loop
pub mod Inputs
use mathlib.Core.List.{
  Mem, Nodup, Nodup-cons, mem-cons, mem-cons_self, mem-cons_of_mem, mem-map_of_mem, not-mem-nil,
}
use mathlib.Core.Logic.Or
use mathlib.Core.Path.{fun_ext}
use native.Mathlib.Decide.{ℕ_discrete}
use mathlib.Core.List.{Perm}
use mathlib.Core.List.Perm
use zoneroute.Base.Maps.{map-id}
use zoneroute.Base.{
  Bool, true, false, not, List, [], ◌∷◌, ◌++◌, map, Option, none, some, ◌≡◌, ◌≢◌, refl, ◌∙◌, ap,
  sym, subst, inl, inr, arith, Bool-cases, if◌then◌else◌,
}
use zoneroute.Result.{ok}
use zoneroute.Text.{Text}
use zoneroute.Text.Order.{same_iff, same_refl}
use zoneroute.Dict.{Dict}
use zoneroute.Caddyfile.{Caddyfile, IsFinite}
use zoneroute.Api.{ZoneRoute}
use zoneroute.Conflict.{Decision}
use zoneroute.Corefile.{Inspection}
use zoneroute.Controller.Status.{PublishState, accepted_condition, published_condition}
use zoneroute.Controller.Status.Truth.{
  accepted_condition-type, published_condition-type, types_apart,
}
use zoneroute.Controller.Reconciler.{
  decision_of, status_outcome, refreshed, refresh_status, refresh_all,
}
use zoneroute.Controller.Client.{Client}
use zoneroute.Controller.Reconciler.Writes.{refresh_status-current}
use zoneroute.Controller.Reconciler.Lawful.{IsLawful, item_names, written}

module _ (c : Caddyfile) (finite : IsFinite c) (k : Client) (lawful : IsLawful k) (domain : Text)
    (decisions : Dict Decision) (inspected : Inspection) (state : PublishState) where
  open k use {World, Conditions, get_config_map, list_routes, update_status, set_status_condition}

  -- What `updateStatus` makes of the object's status.
  unfoldable pub wanted : ZoneRoute Conditions → Bool × Conditions
  wanted obj = refreshed c finite k domain obj (decision_of decisions obj.name) inspected state

  -- The object with its status up to date.
  unfoldable pub settle : ZoneRoute Conditions → ZoneRoute Conditions
  unfolding wanted
  settle obj =
      if not (wanted obj).0
      then obj
      else record obj { conditions = (wanted obj).1; observed_generation = obj.generation }

  refreshed_again :
      (obj : ZoneRoute Conditions) (d : Decision)
      → let xs = (refreshed c finite k domain obj d inspected state).1 in
        (refreshed c finite k domain
          (record obj { conditions = xs; observed_generation = obj.generation })
          d
          inspected
          state).0
        ≡ false
  unfolding refreshed
  refreshed_again obj d =
      let acc = accepted_condition d inspected.unresolved_imports domain obj.generation in
      let pubd = published_condition d.accepted state inspected.wired obj.generation in
      let ys = (set_status_condition acc obj.conditions).1 in
      let xs = (set_status_condition pubd ys).1 in
      let apart : acc.type ≢ pubd.type = λ e. types_apart (
        sym (accepted_condition-type d inspected.unresolved_imports domain obj.generation)
        ∙ e
        ∙ published_condition-type d.accepted state inspected.wired obj.generation) in
      let acc_there =
        lawful.find-set_other acc.type pubd ys apart ∙ lawful.find-set acc obj.conditions in
      let acc_kept = lawful.set-current acc xs acc_there in
      let pubd_kept = lawful.set-current pubd xs (lawful.find-set pubd ys) in
      rw acc_kept (rw pubd_kept (ground arith))

  settle-current : (obj : ZoneRoute Conditions) → (wanted obj).0 ≡ false → settle obj ≡ obj
  unfolding settle
  settle-current obj e = rw e refl

  settle-changed :
      (obj : ZoneRoute Conditions)
      → (wanted obj).0 ≡ true
      → settle obj
        ≡ record obj { conditions = (wanted obj).1; observed_generation = obj.generation }
  unfolding settle
  settle-changed obj e = rw e refl

  pub settle-name : (obj : ZoneRoute Conditions) → (settle obj).name ≡ obj.name
  unfolding settle
  settle-name obj = ground arith

  pub settle-wanted :
      (obj : ZoneRoute Conditions)
      → (refreshed c finite k domain
          (settle obj)
          (decision_of decisions (settle obj).name)
          inspected
          state).0
        ≡ false
  unfolding wanted
  settle-wanted obj = elim (Bool-cases (wanted obj).0) [
    | inr e ↦ subst (λ x. (wanted x).0 ≡ false) (sym (settle-current obj e)) e
    | inl e ↦
        subst (λ x. (wanted x).0 ≡ false) (sym (settle-changed obj e))
          (refreshed_again obj (decision_of decisions obj.name))
  ]

  unfoldable pub refresh : ZoneRoute Conditions → World → List Text × World
  refresh obj w =
      refresh_status c finite k domain obj (decision_of decisions obj.name) inspected state w

  refresh-current :
      (obj : ZoneRoute Conditions) (w : World) → (wanted obj).0 ≡ false → refresh obj w ≡ ([], w)
  unfolding refresh wanted
  refresh-current obj w e =
      refresh_status-current c finite k domain obj (decision_of decisions obj.name) inspected state
        w e

  refresh-changed :
      (obj : ZoneRoute Conditions) (w : World)
      → (wanted obj).0 ≡ true
      → refresh obj w ≡ status_outcome c finite k obj.name (update_status (settle obj) w)
  unfolding refresh refresh_status
  refresh-changed obj w e = rw (settle-changed obj e) (unfold wanted in rw e refl)

  outcome-done :
      (name : Text) (o : Option k.ApiError × World)
      → (status_outcome c finite k name o).0 ≡ []
      → o.0 ≡ none
  unfolding status_outcome
  outcome-done name (none, w) h = refl
  outcome-done name (some e, w) h = cc

  outcome-world :
      (name : Text) (o : Option k.ApiError × World) → (status_outcome c finite k name o).1 ≡ o.1
  unfolding status_outcome
  outcome-world name (none, w) = refl
  outcome-world name (some e, w) = refl

  -- What the update of an object leaves of an object in the list.
  unfoldable pub updated : ZoneRoute Conditions → ZoneRoute Conditions → ZoneRoute Conditions
  updated obj x = if (wanted obj).0 then written (settle obj) x else x

  updated-changed :
      (obj : ZoneRoute Conditions)
      → (wanted obj).0 ≡ true
      → (x : ZoneRoute Conditions) → written (settle obj) x ≡ updated obj x
  unfolding updated
  updated-changed obj e x = rw e refl

  pub refresh-routes :
      (obj : ZoneRoute Conditions) (w : World) (l : List (ZoneRoute Conditions))
      → (refresh obj w).0 ≡ []
      → list_routes w ≡ ok l
      → list_routes (refresh obj w).1 ≡ ok (map (updated obj) l)
  refresh-routes obj w l done listed = elim (Bool-cases (wanted obj).0) [
    | inr e ↦
        ap (λ (r : List Text × World). list_routes r.1) (refresh-current obj w e)
        ∙ listed
        ∙ ap ok (sym (map-id (updated obj) l (λ x. unfold updated in rw e refl)))
    | inl e ↦
        let shown = refresh-changed obj w e in
        let stored =
          outcome-done obj.name (update_status (settle obj) w)
            (sym (ap (λ (r : List Text × World). r.0) shown) ∙ done) in
        ap (λ (r : List Text × World). list_routes r.1) shown
        ∙ ap list_routes (outcome-world obj.name (update_status (settle obj) w))
        ∙ lawful.update_routes (settle obj) w l stored listed
        ∙ ap (λ f. ok (map f l)) (fun_ext (updated-changed obj e))
  ]

  pub refresh-maps :
      (obj : ZoneRoute Conditions) (w : World) (n : Text)
      → get_config_map n (refresh obj w).1 ≡ get_config_map n w
  refresh-maps obj w n = elim (Bool-cases (wanted obj).0) [
    | inr e ↦ ap (λ (r : List Text × World). get_config_map n r.1) (refresh-current obj w e)
    | inl e ↦
        ap (λ (r : List Text × World). get_config_map n r.1) (refresh-changed obj w e)
        ∙ ap (get_config_map n) (outcome-world obj.name (update_status (settle obj) w))
        ∙ lawful.update_maps (settle obj) w n
  ]
