-- ===== src/Controller/Reconciler/Trace.antt =====
-- All that a reconcile writes: at most one patch of the one entry, with a text that CoreDNS's parser
-- takes, and then status updates of the listed routes.
use mathlib.Core.List.{Mem, mem-cons_self, mem-cons_of_mem}
use mathlib.Core.List.Perm
use zoneroute.Base.{
  List, [], ◌∷◌, Option, none, some, ◌≡◌, ◌≢◌, ◌⊎◌, refl, ap, sym, subst, inl, inr, arith,
  Bool-cases, Option-cases,
}
use zoneroute.Result.{Result, ok, err, Result-cases}
use zoneroute.Text.{Text, codes}
use zoneroute.Sort.{sort}
use zoneroute.Sort.Unique.{sort-perm}
use zoneroute.Dict.{Dict, lookup}
use zoneroute.Caddyfile.{Caddyfile, IsFinite}
use zoneroute.Api.{ZoneRoute}
use zoneroute.Conflict.{Decision, resolve}
use zoneroute.Corefile.{Inspection, managed_key, inspect}
use zoneroute.Render.{render, validate, fragment}
use zoneroute.Controller.Status.{PublishState}
use zoneroute.Controller.Convert.{to_conflict_routes, to_existing, to_render_routes}
use zoneroute.Controller.Predicates.{corefile_config_map, corefile_key, integration_config_map}
use zoneroute.Controller.Reconciler.{
  accepted_set, decision_of, refreshed, refresh_status, refresh_all, publish, publish_rendered,
  publish_fragment, is_current, patch_outcome, status_outcome, act, reconcile, with_items,
  with_corefile, decide_and_act, read_custom, item_less, servers_of,
}
use zoneroute.Controller.Client.{Client}
use zoneroute.Base.Members.{ne_true}
use zoneroute.Controller.Reconciler.Published.{is_current_iff}
use zoneroute.Controller.Reconciler.Republish.{read_custom-some}
use zoneroute.Controller.Reconciler.Reads.{Inputs, items_of, Reads, reconcile-Reads}

-- CoreDNS's parser takes the text as the entry that ZoneRoute owns.
abbrev pub IsParsed : Caddyfile → Text → Type 0
IsParsed c text =
    (blocks : List (List Text)) × (Caddyfile.parse c (codes "zoneroute.server") text ≡ ok blocks)

validate-IsParsed : (c : Caddyfile) (text : Text) → validate c text ≡ none → IsParsed c text
unfolding validate
validate-IsParsed c text h =
    elim (Result-cases (Caddyfile.parse c (codes "zoneroute.server") text)) [
      | inl (blocks, e) ↦ (blocks, e)
      | inr (x, e) ↦ absurd (ground (arith, h, e))
    ]

module _ (c : Caddyfile) (finite : IsFinite c) (k : Client) where
  open k use {
    World, Conditions, ApiError, list_routes, get_config_map, patch_config_map, update_status,
  }

  -- What may have been written, starting in the world `w`, when the routes `l` were listed.
  pub data Written (l : List (ZoneRoute Conditions)) (w : World) : World → Type 0 where
    untouched : Written l w w
    patched :
        (text : Text)
        → IsParsed c text
        → (m : Dict Text) → get_config_map integration_config_map w ≡ ok m
        → lookup managed_key m ≢ some text
        → Written l w (patch_config_map integration_config_map managed_key text w).1
    updated :
        {v : World}
        → Written l w v
        → (x : ZoneRoute Conditions) → Mem x l
        → (cs : Conditions)
        → Written l w
            (update_status (record x { conditions = cs; observed_generation = x.generation }) v).1

  module _ (l : List (ZoneRoute Conditions)) (w : World) where
    patch_outcome-Written :
        (o : Option ApiError × World) → Written l w o.1 → Written l w (patch_outcome c finite k o).1
    unfolding patch_outcome
    patch_outcome-Written (none, v) h = h
    patch_outcome-Written (some e, v) h = h

    status_outcome-Written :
        (name : Text) (o : Option ApiError × World)
        → Written l w o.1
        → Written l w (status_outcome c finite k name o).1
    unfolding status_outcome
    status_outcome-Written name (none, v) h = h
    status_outcome-Written name (some e, v) h = h

    publish-Written :
        (custom : Option (Dict Text)) (rendered : Result Text Text)
        → read_custom c finite k (get_config_map integration_config_map w) ≡ ok custom
        → ((text : Text) → rendered ≡ ok text → IsParsed c text)
        → Written l w (publish c finite k custom rendered w).1
    unfolding publish publish_rendered publish_fragment
    publish-Written none rendered held valid = untouched
    publish-Written (some m) (err e) held valid = untouched
    publish-Written (some m) (ok text) held valid =
        elim (Bool-cases (is_current c finite k text (lookup managed_key m))) [
          | inl q ↦ rw (q, publish_fragment) untouched
          | inr q ↦
              rw (q, publish_fragment)
                (patch_outcome-Written _ (
                  patched text (valid text refl) m (read_custom-some c finite k _ m held) (λ there.
                    ne_true q ((is_current_iff c finite k text (lookup managed_key m)).1 there))))
        ]

    refresh_status-Written :
        (domain : Text) (obj : ZoneRoute Conditions) (d : Decision) (inspected : Inspection)
        (state : PublishState) (v : World)
        → Mem obj l
        → Written l w v
        → Written l w (refresh_status c finite k domain obj d inspected state v).1
    unfolding refresh_status
    refresh_status-Written domain obj d inspected state v m h =
        elim (Bool-cases (refreshed c finite k domain obj d inspected state).0) [
          | inr q ↦ rw (q) h
          | inl q ↦ rw (q) (status_outcome-Written obj.name _ (updated h obj m _))
        ]

    refresh_all-Written :
        (domain : Text) (by_name : Dict Decision) (inspected : Inspection) (state : PublishState)
        (items : List (ZoneRoute Conditions)) (v : World)
        → ((x : ZoneRoute Conditions) → Mem x items → Mem x l)
        → Written l w v
        → Written l w (refresh_all c finite k domain by_name inspected state items v).1
    unfolding refresh_all
    refresh_all-Written domain by_name inspected state [] v sub h = h
    refresh_all-Written domain by_name inspected state (obj ∷ objs) v sub h =
        refresh_all-Written domain by_name inspected state objs _
          (λ x m. sub x (mem-cons_of_mem obj m))
          (refresh_status-Written domain obj (decision_of by_name obj.name) inspected state v
            (sub obj mem-cons_self) h)

  render-IsParsed : (rs : _) (text : Text) → render c rs ≡ ok text → IsParsed c text
  unfolding render
  render-IsParsed rs text h = elim (Option-cases (validate c (fragment rs))) [
    | inl e ↦
        let same_text : fragment rs ≡ text = ground (arith, h, e) in
        subst (IsParsed c) same_text (validate-IsParsed c (fragment rs) e)
    | inr (x, e) ↦ absurd (ground (arith, h, e))
  ]

  module _ (domain : Text) where
    act-Written :
        (i : Inputs k) (w : World)
        → read_custom c finite k (get_config_map integration_config_map w) ≡ ok i.custom
        → Written i.listed w
            (act c finite k domain
              (items_of c finite k domain i)
              i.custom
              i.inspected
              i.decisions
              w).1
    unfolding act
    act-Written i w held =
        let items = items_of c finite k domain i in
        refresh_all-Written i.listed w domain _ i.inspected _ items _
          (λ x m. (Perm.mem_iff (sort-perm (item_less c finite k) i.listed)).0 m)
          (publish-Written i.listed w i.custom _ held
            (render-IsParsed (to_render_routes items (accepted_set i.decisions))))

    -- A reconcile stops before it writes, or reads all its inputs and acts on them.
    pub reconcile-cases :
        (w : World) (l : List (ZoneRoute Conditions))
        → list_routes w ≡ ok l
        → ((reconcile c finite k domain w).1 ≡ w)
          ⊎ ((i : Inputs k) × Reads c finite k domain w i × (i.listed ≡ l))
    unfolding reconcile with_items with_corefile decide_and_act
    reconcile-cases w l e = elim (Result-cases (get_config_map corefile_config_map w)) [
      | inr (x, f) ↦ inl (rw (e, reconcile) (rw (f, with_items) refl))
      | inl (m, f) ↦ elim (Option-cases (lookup corefile_key m)) [
        | inl g ↦ inl (rw (e, reconcile) (rw (f, with_items) (rw (g, with_corefile) refl)))
        | inr (corefile, g) ↦
            elim (Result-cases (read_custom c finite k (get_config_map integration_config_map w))) [
              | inr (x, a) ↦ inl (
                  rw (e, reconcile)
                    (rw (f, with_items) (rw (g, with_corefile) (rw (a, with_corefile) refl))))
              | inl (custom, a) ↦
                  elim (Result-cases (inspect c finite corefile (servers_of c finite k custom))) [
                    | inr (x, b) ↦ inl (
                        rw (e, reconcile)
                          (rw (f, with_items)
                            (rw (g, with_corefile)
                              (rw (a, with_corefile) (rw (b, decide_and_act) refl)))))
                    | inl (inspected, b) ↦
                        elim (Option-cases (
                          resolve (to_conflict_routes (sort (item_less c finite k) l))
                            (to_existing inspected) domain)) [
                              | inl d ↦ inl (
                                  rw (e, reconcile)
                                    (rw (f, with_items)
                                      (rw (g, with_corefile)
                                        (rw (a, with_corefile)
                                          (rw (b, decide_and_act) (rw (d, decide_and_act) refl))))))
                              | inr (decisions, d) ↦ inr (
                                record {
                                  listed = l;
                                  entries = m;
                                  corefile = corefile;
                                  custom = custom;
                                  inspected = inspected;
                                  decisions = decisions;
                                },
                                record {
                                  routes_read = e;
                                  coredns_read = f;
                                  corefile_found = g;
                                  custom_read = a;
                                  parsed = b;
                                  decided = d;
                                },
                                refl,
                              )
                            ]
                  ]
            ]
      ]
    ]

    -- A reconcile that has listed the routes `l` writes at most this: first a patch of the entry
    -- zoneroute.server of coredns-custom, if the ConfigMap is there and holds another text or none,
    -- with a text that CoreDNS's parser takes; and then status updates of routes of `l`, which set the conditions and make the observed generation the current one.
    pub reconcile-Written :
        (w : World) (l : List (ZoneRoute Conditions))
        → list_routes w ≡ ok l
        → Written l w (reconcile c finite k domain w).1
    reconcile-Written w l e = elim (reconcile-cases w l e) [
      | inl same ↦ subst (Written l w) (sym same) untouched
      | inr (i, r, q) ↦
          subst (λ (m : List (ZoneRoute Conditions)). Written m w (reconcile c finite k domain w).1)
            q
            (subst (Written i.listed w)
              (sym (ap (λ out. out.1) (reconcile-Reads c finite k domain w i r)))
              (act-Written i w r.custom_read))
    ]
