-- ===== src/Controller/Reconciler/Blocked.antt =====
-- internal/controller/reconciler.go: the early returns of Reconcile.
use zoneroute.Base.{false, List, [], Option, none, some, ◌≡◌, refl, ◌∙◌, true}
use zoneroute.Result.{ok, err}
use zoneroute.Text.{Text, trim_space}
use zoneroute.Sort.{sort}
use zoneroute.Dict.{Dict, lookup}
use zoneroute.Caddyfile.{Caddyfile, IsFinite}
use zoneroute.Api.{ZoneRoute}
use zoneroute.Conflict.Decisions.{resolve-none_iff}
use zoneroute.Corefile.{Inspection, InspectError, inspect}
use zoneroute.Controller.Convert.{to_conflict_routes, to_existing}
use zoneroute.Controller.Predicates.{corefile_config_map, corefile_key, integration_config_map}
use zoneroute.Controller.Reconciler.{
  decide_and_act, read_custom, with_corefile, with_items, reconcile, item_less, servers_of,
}
use zoneroute.Controller.Client.{
  Client, ReconcileError, listing_failed, reading_failed, no_corefile_key, inspecting_failed,
  empty_cluster_domain,
}

module _ (c : Caddyfile) (finite : IsFinite c) (k : Client) (domain : Text) where
  open k use {World, Conditions, ApiError, is_not_found, get_config_map, list_routes}

  -- The read of coredns-custom gives its data, or says that there is no such ConfigMap.
  pub data FindsCustom (w : World) : Option (Dict Text) → Type 0 where
    present :
        (m : Dict Text) → get_config_map integration_config_map w ≡ ok m → FindsCustom w (some m)
    missing :
        (e : ApiError)
        → get_config_map integration_config_map w ≡ err e
        → is_not_found e ≡ true
        → FindsCustom w none

  -- The reads that come first succeed, and give this Corefile.
  pub record FindsCorefile (w : World) (corefile : Text) : Type 0 where
    pub listed : List (ZoneRoute Conditions)
    pub entries : Dict Text
    pub routes_read : list_routes w ≡ ok listed
    pub coredns_read : get_config_map corefile_config_map w ≡ ok entries
    pub corefile_found : lookup corefile_key entries ≡ some corefile

  -- What keeps a reconcile in the world `w` from deciding anything, and the error that says so.
  pub data Blocked (w : World) : ReconcileError ApiError → Type 0 where
    no_list : (e : ApiError) → list_routes w ≡ err e → Blocked w (listing_failed e)
    no_coredns :
        (l : List (ZoneRoute Conditions)) (e : ApiError)
        → list_routes w ≡ ok l
        → get_config_map corefile_config_map w ≡ err e
        → Blocked w (reading_failed corefile_config_map e)
    no_key :
        (l : List (ZoneRoute Conditions)) (entries : Dict Text)
        → list_routes w ≡ ok l
        → get_config_map corefile_config_map w ≡ ok entries
        → lookup corefile_key entries ≡ none
        → Blocked w no_corefile_key
    no_custom :
        (corefile : Text) (e : ApiError)
        → FindsCorefile w corefile
        → get_config_map integration_config_map w ≡ err e
        → is_not_found e ≡ false
        → Blocked w (reading_failed integration_config_map e)
    no_inspection :
        (corefile : Text) (custom : Option (Dict Text)) (e : InspectError)
        → FindsCorefile w corefile
        → FindsCustom w custom
        → inspect c finite corefile (servers_of c finite k custom) ≡ err e
        → Blocked w (inspecting_failed e)
    no_domain :
        (corefile : Text) (custom : Option (Dict Text)) (inspected : Inspection)
        → FindsCorefile w corefile
        → FindsCustom w custom
        → inspect c finite corefile (servers_of c finite k custom) ≡ ok inspected
        → trim_space domain ≡ []
        → Blocked w empty_cluster_domain

  -- The two outcomes of `read_custom`.
  read_custom-found :
      (w : World) (custom : Option (Dict Text))
      → FindsCustom w custom
      → read_custom c finite k (get_config_map integration_config_map w) ≡ ok custom
  unfolding read_custom
  read_custom-found w custom (present m q) = rw (q, read_custom) refl
  read_custom-found w custom (missing e q t) = rw (q, read_custom) (rw (t) refl)

  read_custom-failed :
      (w : World) (e : ApiError)
      → get_config_map integration_config_map w ≡ err e
      → is_not_found e ≡ false
      → read_custom c finite k (get_config_map integration_config_map w) ≡ err e
  unfolding read_custom
  read_custom-failed w e q t = rw (q, read_custom) (rw (t) refl)

  -- With a Corefile, a reconcile goes on with coredns-custom.
  reconcile-FindsCorefile :
      (w : World) (corefile : Text) (f : FindsCorefile w corefile)
      → reconcile c finite k domain w
        ≡ with_corefile c finite k domain (sort (item_less c finite k) f.listed) (some corefile) w
  unfolding reconcile with_items
  reconcile-FindsCorefile w corefile f =
      rw (f.routes_read, reconcile) (rw (f.coredns_read, with_items) (rw f.corefile_found refl))

  reconcile-FindsCustom :
      (w : World) (corefile : Text) (custom : Option (Dict Text)) (f : FindsCorefile w corefile)
      → FindsCustom w custom
      → reconcile c finite k domain w
        ≡ decide_and_act c finite k domain
            (sort (item_less c finite k) f.listed)
            custom
            (inspect c finite corefile (servers_of c finite k custom))
            w
  unfolding with_corefile
  reconcile-FindsCustom w corefile custom f g =
      reconcile-FindsCorefile w corefile f ∙ rw (read_custom-found w custom g, with_corefile) refl

  pub reconcile-stopped :
      (w : World) (e : ReconcileError ApiError)
      → Blocked w e
      → reconcile c finite k domain w ≡ (some e, w)
  unfolding reconcile with_items with_corefile decide_and_act
  reconcile-stopped w e (no_list x q) = rw (q, reconcile) refl
  reconcile-stopped w e (no_coredns l x q r) = rw (q, reconcile) (rw (r, with_items) refl)
  reconcile-stopped w e (no_key l entries q r s) =
      rw (q, reconcile) (rw (r, with_items) (rw (s, with_corefile) refl))
  reconcile-stopped w e (no_custom corefile x f q t) =
      reconcile-FindsCorefile w corefile f ∙ rw (read_custom-failed w x q t, with_corefile) refl
  reconcile-stopped w e (no_inspection corefile custom x f g q) =
      reconcile-FindsCustom w corefile custom f g ∙ rw (q, decide_and_act) refl
  reconcile-stopped w e (no_domain corefile custom inspected f g q blank) =
      reconcile-FindsCustom w corefile custom f g
      ∙ rw (q, decide_and_act)
          (rw
            (
              (resolve-none_iff (to_conflict_routes (sort (item_less c finite k) f.listed))
                    (to_existing inspected) domain).1
                  blank,
              decide_and_act,
            )
            refl)
