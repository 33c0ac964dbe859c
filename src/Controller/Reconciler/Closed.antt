-- ===== src/Controller/Reconciler/Closed.antt =====
-- internal/controller/reconciler.go: when Reconcile returns before it has decided anything.
use mathlib.Core.Option.{some-injective}
use zoneroute.Base.{
  List, [], ◌∷◌, Option, none, some, ◌≡◌, inl, inr, Option-cases, Bool-cases, subst,
}
use zoneroute.Result.{Result-cases}
use zoneroute.Text.{Text}
use zoneroute.Sort.{sort}
use zoneroute.Dict.{Dict, lookup}
use zoneroute.Caddyfile.{Caddyfile, IsFinite}
use zoneroute.Api.{ZoneRoute}
use zoneroute.Conflict.{resolve}
use zoneroute.Conflict.Decisions.{resolve-none_iff}
use zoneroute.Corefile.{inspect}
use zoneroute.Controller.Convert.{to_conflict_routes, to_existing}
use zoneroute.Controller.Predicates.{corefile_config_map, corefile_key, integration_config_map}
use zoneroute.Controller.Reconciler.{
  join_errors, act, decide_and_act, read_custom, with_corefile, with_items, reconcile, item_less,
  servers_of,
}
use zoneroute.Controller.Client.{
  Client, ReconcileError, listing_failed, reading_failed, no_corefile_key, inspecting_failed,
  empty_cluster_domain, joined,
}
use zoneroute.Controller.Reconciler.Blocked.{
  Blocked, FindsCustom, present, missing, FindsCorefile, no_list, no_coredns, no_key, no_custom,
  no_inspection, no_domain, reconcile-stopped,
}

-- The error is not one of those that are joined after the writes.
abbrev pub IsEarly : {E : Type 0} → ReconcileError E → Type 0
IsEarly (joined es) = ⊥
IsEarly _ = Unit

join_errors-late :
    (c : Caddyfile) (finite : IsFinite c) (k : Client)
    → (es : List Text) (e : ReconcileError (Client.ApiError k)) → join_errors c finite k es ≡ some e
    → ¬ IsEarly e
unfolding join_errors
join_errors-late c finite k [] e h = cc
join_errors-late c finite k (x ∷ xs) (joined es) h = λ early. early
join_errors-late c finite k (x ∷ xs) (listing_failed _) h = cc
join_errors-late c finite k (x ∷ xs) (reading_failed _ _) h = cc
join_errors-late c finite k (x ∷ xs) no_corefile_key h = cc
join_errors-late c finite k (x ∷ xs) (inspecting_failed _) h = cc
join_errors-late c finite k (x ∷ xs) empty_cluster_domain h = cc

module _ (c : Caddyfile) (finite : IsFinite c) (k : Client) (domain : Text) where
  open k use {World, Conditions, ApiError, is_not_found, get_config_map, list_routes}

  -- An early error has its cause.
  decide_and_act-cause :
      (w : World) (corefile : Text) (custom : Option (Dict Text)) (e : ReconcileError ApiError)
      (items : List (ZoneRoute Conditions))
      → FindsCorefile c finite k domain w corefile
      → FindsCustom c finite k domain w custom
      → IsEarly e
      → (decide_and_act c finite k domain items custom
          (inspect c finite corefile (servers_of c finite k custom))
          w).0
        ≡ some e
      → Blocked c finite k domain w e
  unfolding decide_and_act act
  decide_and_act-cause w corefile custom e items f g early h =
      elim (Result-cases (inspect c finite corefile (servers_of c finite k custom))) [
        | inr (x, q) ↦
            subst (Blocked c finite k domain w) (some-injective _ _ (rw (q, decide_and_act) at h))
              (no_inspection corefile custom x f g q)
        | inl (inspected, q) ↦
            elim (Option-cases
              (resolve (to_conflict_routes items) (to_existing inspected) domain)) [
                | inl r ↦
                    subst (Blocked c finite k domain w)
                      (some-injective _ _ (rw (r, decide_and_act) at (rw (q, decide_and_act) at h)))
                      (no_domain corefile custom inspected f g q (
                        (resolve-none_iff (to_conflict_routes items) (to_existing inspected)
                            domain).0
                          r))
                | inr (ds, r) ↦ absurd (
                    join_errors-late c finite k _ e
                      (rw (r, decide_and_act) at (rw (q, decide_and_act) at h)) early)
              ]
      ]

  with_corefile-cause :
      (w : World) (corefile : Text) (e : ReconcileError ApiError)
      (items : List (ZoneRoute Conditions))
      → FindsCorefile c finite k domain w corefile
      → IsEarly e
      → (with_corefile c finite k domain items (some corefile) w).0 ≡ some e
      → Blocked c finite k domain w e
  unfolding with_corefile read_custom
  with_corefile-cause w corefile e items f early h =
      elim (Result-cases (get_config_map integration_config_map w)) [
        | inl (m, q) ↦
            decide_and_act-cause w corefile (some m) e items f (present m q) early
              (rw (q, with_corefile) at h)
        | inr (x, q) ↦ elim (Bool-cases (is_not_found x)) [
          | inl t ↦
              decide_and_act-cause w corefile none e items f (missing x q t) early
                (rw (t) at (rw (q, with_corefile) at h))
          | inr t ↦
              subst (Blocked c finite k domain w)
                (some-injective _ _ (rw (t) at (rw (q, with_corefile) at h)))
                (no_custom corefile x f q t)
        ]
      ]

  -- A reconcile fails closed. It returns the error of the first of these that fails, and has then
  -- written nothing: listing the routes, reading coredns, finding the Corefile in it, reading
  -- coredns-custom, which may be missing, inspecting the two, and having a cluster domain that is
  -- not blank. It returns such an error in no other case.
  pub reconcile-Blocked :
      (w : World) (e : ReconcileError ApiError)
      → IsEarly e
      → (Blocked c finite k domain w e → reconcile c finite k domain w ≡ (some e, w))
        × ((reconcile c finite k domain w).0 ≡ some e → Blocked c finite k domain w e)
  unfolding reconcile with_items with_corefile
  reconcile-Blocked w e early = (
    reconcile-stopped c finite k domain w e,
    λ h. elim (Result-cases (list_routes w)) [
      | inr (x, q) ↦
          subst (Blocked c finite k domain w) (some-injective _ _ (rw (q, reconcile) at h))
            (no_list x q)
      | inl (l, q) ↦ elim (Result-cases (get_config_map corefile_config_map w)) [
        | inr (x, r) ↦
            subst (Blocked c finite k domain w)
              (some-injective _ _ (rw (r, with_items) at (rw (q, reconcile) at h)))
              (no_coredns l x q r)
        | inl (entries, r) ↦ elim (Option-cases (lookup corefile_key entries)) [
          | inl s ↦
              subst (Blocked c finite k domain w)
                (some-injective _ _ (rw (s) at (rw (r, with_items) at (rw (q, reconcile) at h))))
                (no_key l entries q r s)
          | inr (corefile, s) ↦
              with_corefile-cause w corefile e (sort (item_less c finite k) l)
                (record {
                  listed = l;
                  entries = entries;
                  routes_read = q;
                  coredns_read = r;
                  corefile_found = s;
                })
                early (rw (s) at (rw (r, with_items) at (rw (q, reconcile) at h)))
        ]
      ]
    ],
  )
