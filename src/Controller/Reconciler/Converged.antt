-- ===== src/Controller/Reconciler/Converged.antt =====
-- A reconcile that succeeds has converged: with an API server that keeps its promises the next one
-- finds nothing to do.
use mathlib.Core.List.{mem-map}
use mathlib.Core.Bool.{Bool-set}
use mathlib.Core.Logic.{∥∥₁_elim}
use zoneroute.Base.{
  false, List, [], ◌∷◌, ◌++◌, map, Option, none, ◌≡◌, ◌≢◌, refl, ◌∙◌, ap, subst, arith,
}
use zoneroute.Result.{Result}
use zoneroute.Text.{Text}
use zoneroute.Sort.Unique.{sort-perm}
use zoneroute.Dict.{Dict}
use zoneroute.Caddyfile.{Caddyfile, IsFinite}
use zoneroute.Api.{ZoneRoute}
use zoneroute.Conflict.{Decision, resolve}
use zoneroute.Corefile.{Inspection}
use zoneroute.Render.{render}
use zoneroute.Controller.Status.{PublishState}
use zoneroute.Controller.Convert.{to_conflict_routes, to_render_routes, to_existing}
use zoneroute.Controller.Predicates.{corefile_config_map, integration_config_map}
use zoneroute.Controller.Reconciler.{
  index_decisions, accepted_set, decision_of, refreshed, publish, publish_errors, refresh_all,
  join_errors, act, item_less, reconcile, read_custom,
}
use zoneroute.Controller.Client.{Client, ReconcileError}
use zoneroute.Controller.Reconciler.Lawful.{IsLawful}
use zoneroute.Controller.Reconciler.Settle.{settle, settle-wanted}
use zoneroute.Controller.Reconciler.Settle.Loop.{refresh_all-settle, refresh_all-maps}
use zoneroute.Controller.Reconciler.Reads.{
  Inputs, items_of, Reads, reconcile-Reads, Reads-reconcile,
}
use zoneroute.Controller.Reconciler.Republish.{
  Repeats, publish-Repeats, publish-routes, publish-maps,
}
use zoneroute.Controller.Reconciler.Writes.{refresh_all-current}
use zoneroute.Controller.Reconciler.Settle.Inputs.{
  settled, settled-conflict_routes, settled-render_routes, settled-sort,
}

module _ (c : Caddyfile) (finite : IsFinite c) (k : Client) (lawful : IsLawful k)
    (domain : Text) where
  open k use {World, Conditions, ApiError, list_routes, get_config_map}

  -- What a reconcile acts on, in parts.
  abbrev drawn : Inputs k → Result Text Text
  drawn i = render c (to_render_routes (items_of c finite k domain i) (accepted_set i.decisions))

  abbrev sent : Inputs k → World → PublishState × World
  sent i w = publish c finite k i.custom (drawn i) w

  abbrev shown : Inputs k → World → List Text × World
  shown i w =
      refresh_all c finite k domain (index_decisions i.decisions []) i.inspected (sent i w).0
        (items_of c finite k domain i) (sent i w).1

  abbrev acted : Inputs k → World → Option (ReconcileError ApiError) × World
  acted i w =
      act c finite k domain (items_of c finite k domain i) i.custom i.inspected i.decisions w

  no_errors : (a b : List Text) → join_errors c finite k (a ++ b) ≡ none → (a ≡ []) × (b ≡ [])
  unfolding join_errors
  no_errors [] [] h = (refl, refl)
  no_errors [] (x ∷ b) h = cc
  no_errors (x ∷ a) b h = cc

  acted-done :
      (i : Inputs k) (w w' : World)
      → acted i w ≡ (none, w')
      → (publish_errors c finite k (sent i w).0 ≡ []) × ((shown i w).0 ≡ []) × ((shown i w).1 ≡ w')
  unfolding act
  acted-done i w w' h =
      let (a, b) =
        no_errors (publish_errors c finite k (sent i w).0) (shown i w).0
          (ap (λ (r : Option (ReconcileError ApiError) × World). r.0) h) in
      (a, b, ap (λ (r : Option (ReconcileError ApiError) × World). r.1) h)

  done-acted :
      (i : Inputs k) (w : World)
      → publish_errors c finite k (sent i w).0 ≡ []
      → shown i w ≡ ([], w)
      → acted i w ≡ (none, w)
  unfolding act join_errors
  done-acted i w a e =
      ap
        (λ (r : List Text × World).
          (join_errors c finite k (publish_errors c finite k (sent i w).0 ++ r.0), r.1))
        e
      ∙ ap (λ l. (join_errors c finite k (l ++ []), w)) a

  corefile_other : corefile_config_map ≢ integration_config_map
  corefile_other e = ground (arith, e)

  -- The inputs of the next reconcile.
  abbrev next_inputs : Inputs k → World → Option (Dict Text) → Inputs k
  next_inputs i w custom = record i {
    listed =
        map
          (settled c finite k lawful domain (index_decisions i.decisions []) i.inspected
            (sent i w).0)
          i.listed;
    custom = custom;
  }

  next_items :
      (i : Inputs k) (w : World) (custom : Option (Dict Text))
      → items_of c finite k domain (next_inputs i w custom)
        ≡ map
            (settled c finite k lawful domain
              (index_decisions i.decisions [])
              i.inspected
              (sent i w).0)
            (items_of c finite k domain i)
  next_items i w custom =
      settled-sort c finite k lawful domain (index_decisions i.decisions []) i.inspected
        (sent i w).0 i.listed

  next-Reads :
      (i : Inputs k) (w : World) (custom : Option (Dict Text))
      → Reads c finite k domain w i
      → (shown i w).0 ≡ []
      → Repeats c finite k lawful i.corefile i.custom (drawn i) (sent i w).0 (sent i w).1 custom
      → Reads c finite k domain (shown i w).1 (next_inputs i w custom)
  unfolding settled settle
  next-Reads i w custom r done again =
      let ds = index_decisions i.decisions [] in
      let state = (sent i w).0 in
      let w1 = (sent i w).1 in
      let items = items_of c finite k domain i in
      record {
        routes_read =
            refresh_all-settle c finite k lawful domain ds i.inspected state items w1 i.listed
              (sort-perm (item_less c finite k) i.listed) done
              (publish-routes c finite k lawful i.custom (drawn i) w ∙ r.routes_read);
        coredns_read =
            refresh_all-maps c finite k lawful domain ds i.inspected state items w1
              corefile_config_map
            ∙ publish-maps c finite k lawful i.custom (drawn i) w corefile_config_map corefile_other
            ∙ r.coredns_read;
        corefile_found = r.corefile_found;
        custom_read =
            ap (read_custom c finite k) (
              refresh_all-maps c finite k lawful domain ds i.inspected state items w1
                integration_config_map)
            ∙ again.read_again;
        parsed = again.inspect_again ∙ r.parsed;
        decided =
            ap (λ l. resolve (to_conflict_routes l) (to_existing i.inspected) domain)
              (next_items i w custom)
            ∙ ap (λ rs. resolve rs (to_existing i.inspected) domain)
                (settled-conflict_routes c finite k lawful domain ds i.inspected state items)
            ∙ r.decided;
      }

  next_drawn :
      (i : Inputs k) (w : World) (custom : Option (Dict Text))
      → drawn (next_inputs i w custom) ≡ drawn i
  next_drawn i w custom =
      ap (λ l. render c (to_render_routes l (accepted_set i.decisions))) (next_items i w custom)
      ∙ ap (render c) (
          settled-render_routes c finite k lawful domain (index_decisions i.decisions [])
            i.inspected (sent i w).0 (items_of c finite k domain i) (accepted_set i.decisions))

  -- The statuses are settled, so that the loop writes nothing.
  settled_items-current :
      (ds : Dict Decision) (inspected : Inspection) (state : PublishState)
      (items : List (ZoneRoute Conditions)) (w : World)
      → refresh_all c finite k domain ds inspected state
          (map (settled c finite k lawful domain ds inspected state) items)
          w
        ≡ ([], w)
  settled_items-current ds inspected state items w =
      refresh_all-current c finite k domain ds inspected state
        (map (settled c finite k lawful domain ds inspected state) items) w
        λ obj m. ∥∥₁_elim (mem-map.0 m) (Bool-set _ _) λ (x, _, e).
          subst
            (λ y. (refreshed c finite k domain y (decision_of ds y.name) inspected state).0 ≡ false)
            e (unfold settled in settle-wanted c finite k lawful domain ds inspected state x)

  next_sent :
      (i : Inputs k) (w : World) (custom : Option (Dict Text))
      → Repeats c finite k lawful i.corefile i.custom (drawn i) (sent i w).0 (sent i w).1 custom
      → (w' : World) → sent (next_inputs i w custom) w' ≡ ((sent i w).0, w')
  next_sent i w custom again w' =
      ap (λ d. publish c finite k custom d w') (next_drawn i w custom) ∙ again.publish_again w'

  next_shown :
      (i : Inputs k) (w : World) (custom : Option (Dict Text))
      → Repeats c finite k lawful i.corefile i.custom (drawn i) (sent i w).0 (sent i w).1 custom
      → (w' : World) → shown (next_inputs i w custom) w' ≡ ([], w')
  next_shown i w custom again w' =
      let ds = index_decisions i.decisions [] in
      ap
        (λ (out : PublishState × World).
          refresh_all c finite k domain ds i.inspected out.0
            (items_of c finite k domain (next_inputs i w custom)) out.1)
        (next_sent i w custom again w')
      ∙ ap (λ l. refresh_all c finite k domain ds i.inspected (sent i w).0 l w')
          (next_items i w custom)
      ∙ settled_items-current ds i.inspected (sent i w).0 (items_of c finite k domain i) w'

  -- A reconcile that returns no error has converged. Suppose that the API server keeps its
  -- promises, and that nothing else writes in between: the next reconcile returns no error either
  -- and leaves the world as it is.
  pub reconcile_again :
      (w w' : World)
      → reconcile c finite k domain w ≡ (none, w')
      → reconcile c finite k domain w' ≡ (none, w')
  reconcile_again w w' h =
      let (i, r, ran) = Reads-reconcile c finite k domain w w' h in
      let (published_ok, shown_ok, at_end) = acted-done i w w' ran in
      let (custom, again) =
        publish-Repeats c finite k lawful i.corefile i.custom (drawn i) w r.custom_read
          published_ok in
      let next = next_inputs i w custom in
      let last = (shown i w).1 in
      let no_failure =
        ap (λ (out : PublishState × World). publish_errors c finite k out.0)
          (next_sent i w custom again last)
        ∙ published_ok in
      subst (λ v. reconcile c finite k domain v ≡ (none, v)) at_end
        (reconcile-Reads c finite k domain last next (next-Reads i w custom r shown_ok again)
          ∙ done-acted next last no_failure (next_shown i w custom again last))
