-- ===== src/Controller/Reconciler/Reads.antt =====
-- What a reconcile reads before it acts, as one value.
use zoneroute.Base.{List, Option, none, some, ◌≡◌, refl, ◌∙◌, sym, inl, inr, arith, Option-cases}
use zoneroute.Result.{Result, ok, err, Result-cases}
use zoneroute.Text.{Text}
use zoneroute.Sort.{sort}
use zoneroute.Dict.{Dict, lookup}
use zoneroute.Caddyfile.{Caddyfile, IsFinite}
use zoneroute.Api.{ZoneRoute}
use zoneroute.Conflict.{Decision, resolve}
use zoneroute.Corefile.{Inspection, InspectError, inspect}
use zoneroute.Controller.Convert.{to_conflict_routes, to_existing}
use zoneroute.Controller.Predicates.{corefile_config_map, corefile_key, integration_config_map}
use zoneroute.Controller.Reconciler.{
  act, decide_and_act, read_custom, with_corefile, with_items, item_less, reconcile, servers_of,
}
use zoneroute.Controller.Client.{Client, ReconcileError}

pub record Inputs (k : Client) : Type 0 where
  pub listed : List (ZoneRoute k.Conditions)
  pub entries : Dict Text
  pub corefile : Text
  pub custom : Option (Dict Text)
  pub inspected : Inspection
  pub decisions : List Decision

module _ (c : Caddyfile) (finite : IsFinite c) (k : Client) (domain : Text) where
  open k use {World, Conditions, ApiError, list_routes, get_config_map}

  -- The items in the order in which they are worked on.
  abbrev pub items_of : Inputs k → List (ZoneRoute Conditions)
  items_of i = sort (item_less c finite k) i.listed

  -- The reads succeed, and give these inputs.
  pub record Reads (w : World) (i : Inputs k) : Type 0 where
    pub routes_read : list_routes w ≡ ok i.listed
    pub coredns_read : get_config_map corefile_config_map w ≡ ok i.entries
    pub corefile_found : lookup corefile_key i.entries ≡ some i.corefile
    pub custom_read : read_custom c finite k (get_config_map integration_config_map w) ≡ ok i.custom
    pub parsed : inspect c finite i.corefile (servers_of c finite k i.custom) ≡ ok i.inspected
    pub decided :
        resolve (to_conflict_routes (items_of i)) (to_existing i.inspected) domain
        ≡ some i.decisions

  abbrev acts : Inputs k → World → Option (ReconcileError ApiError) × World
  acts i w = act c finite k domain (items_of i) i.custom i.inspected i.decisions w

  pub reconcile-Reads :
      (w : World) (i : Inputs k) → Reads w i → reconcile c finite k domain w ≡ acts i w
  unfolding reconcile with_items with_corefile decide_and_act
  reconcile-Reads w i r =
      rw (r.routes_read, reconcile)
        (rw (r.coredns_read, with_items)
          (rw (r.corefile_found, with_corefile)
            (rw (r.custom_read, with_corefile)
              (rw (r.parsed, decide_and_act) (rw (r.decided, decide_and_act) refl)))))

  -- The stages of a reconcile without an error: each read has succeeded.
  decide_and_act-decided :
      (items : List (ZoneRoute Conditions)) (custom : Option (Dict Text))
      (r : Result InspectError Inspection) (w w' : World)
      → decide_and_act c finite k domain items custom r w ≡ (none, w')
      → (inspected : Inspection) × (ds : List Decision) × (r ≡ ok inspected)
        × (resolve (to_conflict_routes items) (to_existing inspected) domain ≡ some ds)
  unfolding decide_and_act
  decide_and_act-decided items custom (err x) w w' h = absurd (ground (arith, h))
  decide_and_act-decided items custom (ok inspected) w w' h =
      elim (Option-cases (resolve (to_conflict_routes items) (to_existing inspected) domain)) [
        | inl e ↦ absurd (ground (arith, h, e))
        | inr (ds, e) ↦ (inspected, ds, refl, e)
      ]

  with_corefile-read :
      (items : List (ZoneRoute Conditions)) (o : Option Text) (w w' : World)
      → with_corefile c finite k domain items o w ≡ (none, w')
      → (corefile : Text) × (custom : Option (Dict Text)) × (o ≡ some corefile)
        × (read_custom c finite k (get_config_map integration_config_map w) ≡ ok custom)
        × (decide_and_act c finite k domain items custom
              (inspect c finite corefile (servers_of c finite k custom))
              w
            ≡ (none, w'))
  unfolding with_corefile
  with_corefile-read items none w w' h = absurd (ground (arith, h))
  with_corefile-read items (some corefile) w w' h =
      elim (Result-cases (read_custom c finite k (get_config_map integration_config_map w))) [
        | inr (x, e) ↦ absurd (ground (arith, h, e))
        | inl (custom, e) ↦ (corefile, custom, refl, e, rw (e, with_corefile) at h)
      ]

  with_items-read :
      (items : List (ZoneRoute Conditions)) (w w' : World)
      → with_items c finite k domain items w ≡ (none, w')
      → (m : Dict Text) × (get_config_map corefile_config_map w ≡ ok m)
        × (with_corefile c finite k domain items (lookup corefile_key m) w ≡ (none, w'))
  unfolding with_items
  with_items-read items w w' h = elim (Result-cases (get_config_map corefile_config_map w)) [
    | inr (x, e) ↦ absurd (ground (arith, h, e))
    | inl (m, e) ↦ (m, e, rw (e, with_items) at h)
  ]

  reconcile-read :
      (w w' : World)
      → reconcile c finite k domain w ≡ (none, w')
      → (l : List (ZoneRoute Conditions)) × (list_routes w ≡ ok l)
        × (with_items c finite k domain (sort (item_less c finite k) l) w ≡ (none, w'))
  unfolding reconcile
  reconcile-read w w' h = elim (Result-cases (list_routes w)) [
    | inr (x, e) ↦ absurd (ground (arith, h, e))
    | inl (l, e) ↦ (l, e, rw (e, reconcile) at h)
  ]

  -- A reconcile without an error has read everything, and is what it does then.
  pub Reads-reconcile :
      (w w' : World)
      → reconcile c finite k domain w ≡ (none, w')
      → (i : Inputs k) × Reads w i × (acts i w ≡ (none, w'))
  Reads-reconcile w w' h =
      let (l, e1, h1) = reconcile-read w w' h in
      let (m, e2, h2) = with_items-read (sort (item_less c finite k) l) w w' h1 in
      let (corefile, custom, e3, e4, h3) =
        with_corefile-read (sort (item_less c finite k) l) (lookup corefile_key m) w w' h2 in
      let (inspected, ds, e5, e6) =
        decide_and_act-decided (sort (item_less c finite k) l) custom _ w w' h3 in
      let i : Inputs k = record {
        listed = l;
        entries = m;
        corefile = corefile;
        custom = custom;
        inspected = inspected;
        decisions = ds;
      } in
      let r : Reads w i = record {
        routes_read = e1;
        coredns_read = e2;
        corefile_found = e3;
        custom_read = e4;
        parsed = e5;
        decided = e6;
      } in
      (i, r, sym (reconcile-Reads w i r) ∙ h)
