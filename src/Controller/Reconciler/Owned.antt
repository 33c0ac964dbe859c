-- ===== src/Controller/Reconciler/Owned.antt =====
-- What no sequence of reconciles touches: all ConfigMaps but coredns-custom, and all entries of it but
-- zoneroute.server.
use zoneroute.Base.{List, ◌≡◌, ◌≢◌, refl, ◌∙◌, subst, sym, inl, inr}
use zoneroute.Result.{Result, ok, err, Result-cases}
use zoneroute.Text.{Text}
use zoneroute.Dict.{Dict, lookup}
use zoneroute.Caddyfile.{Caddyfile, IsFinite}
use zoneroute.Api.{ZoneRoute}
use zoneroute.Corefile.{managed_key}
use zoneroute.Controller.Predicates.{integration_config_map}
use zoneroute.Controller.Reconciler.{reconcile}
use zoneroute.Controller.Client.{Client}
use zoneroute.Controller.Reconciler.Lawful.{IsLawful}
use zoneroute.Controller.Reconciler.Trace.{Written, untouched, patched, updated, reconcile-Written}

module _ (c : Caddyfile) (finite : IsFinite c) (k : Client) where
  open k use {World, Conditions, list_routes, get_config_map, patch_config_map, update_status}

  -- The worlds that reconciles lead to, whatever cluster domain each of them is configured with.
  pub data Runs (w : World) : World → Type 0 where
    at_start : Runs w w
    then_run : {v : World} → Runs w v → (domain : Text) → Runs w (reconcile c finite k domain v).1

  -- The world `v` holds what is not ZoneRoute's as `w` does.
  pub record Keeps (w v : World) : Type 0 where
    pub other_maps :
        (n : Text) → n ≢ integration_config_map → get_config_map n v ≡ get_config_map n w
    pub other_entries :
        (m : Dict Text)
        → get_config_map integration_config_map w ≡ ok m
        → (m' : Dict Text) × (get_config_map integration_config_map v ≡ ok m')
          × ((j : Text) → j ≢ managed_key → lookup j m' ≡ lookup j m)
    pub absent_map :
        (e : k.ApiError)
        → get_config_map integration_config_map w ≡ err e
        → get_config_map integration_config_map v ≡ err e

  Keeps-refl : (w : World) → Keeps w w
  Keeps-refl w = record {
    other_maps = λ n d. refl;
    other_entries = λ m h. (m, h, λ j d. refl);
    absent_map = λ e h. h;
  }

  Keeps-trans : (w v u : World) → Keeps w v → Keeps v u → Keeps w u
  Keeps-trans w v u a b = record {
    other_maps = λ n d. b.other_maps n d ∙ a.other_maps n d;
    other_entries = λ m h.
        let (m', h', same) = a.other_entries m h in
        let (m'', h'', same') = b.other_entries m' h' in (m'', h'', λ j d. same' j d ∙ same j d);
    absent_map = λ e h. b.absent_map e (a.absent_map e h);
  }

  module _ (lawful : IsLawful k) where
    update-Keeps : (obj : ZoneRoute Conditions) (w : World) → Keeps w (update_status obj w).1
    update-Keeps obj w = record {
      other_maps = λ n d. lawful.update_maps obj w n;
      other_entries = λ m h. (m, lawful.update_maps obj w integration_config_map ∙ h, λ j d. refl);
      absent_map = λ e h. lawful.update_maps obj w integration_config_map ∙ h;
    }

    -- The ConfigMap is there when it is patched.
    patch-Keeps :
        (text : Text) (w : World) (m : Dict Text)
        → get_config_map integration_config_map w ≡ ok m
        → Keeps w (patch_config_map integration_config_map managed_key text w).1
    patch-Keeps text w m held = record {
      other_maps = λ n d. lawful.patch_others integration_config_map managed_key text w n d;
      other_entries = λ m0 h0.
          let (m', held', others, own) =
            lawful.patch_entries integration_config_map managed_key text w m0 h0 in
          (m', held', others);
      absent_map = λ e h. absurd (ok_not_err m e (sym held ∙ h));
    }
      where
        ok_not_err : (a : Dict Text) (e : k.ApiError) → ¬ (Result.ok a ≡ err e)
        ok_not_err a e h = cc

    Written-Keeps :
        (l : List (ZoneRoute Conditions)) (w v : World) → Written c finite k l w v → Keeps w v
    Written-Keeps l w _ untouched = Keeps-refl w
    Written-Keeps l w _ (patched text valid m held differs) = patch-Keeps text w m held
    Written-Keeps l w _ (updated {v} h x m cs) =
        Keeps-trans w v _ (Written-Keeps l w v h) (update-Keeps _ v)

    reconcile-Keeps : (domain : Text) (w : World) → Keeps w (reconcile c finite k domain w).1
    unfolding reconcile
    reconcile-Keeps domain w = elim (Result-cases (list_routes w)) [
      | inl (l, e) ↦ Written-Keeps l w _ (reconcile-Written c finite k domain w l e)
      | inr (x, e) ↦ subst (Keeps w) (sym (rw (e, reconcile) refl)) (Keeps-refl w)
    ]

    -- Suppose that the API server keeps its promises. Then reconciles, however many, failing or not,
    -- and with whatever cluster domains, leave all other ConfigMaps and all other entries of
    -- coredns-custom as they were, and do not create that ConfigMap.
    pub Runs-Keeps : (w v : World) → Runs w v → Keeps w v
    Runs-Keeps w _ at_start = Keeps-refl w
    Runs-Keeps w _ (then_run {v} r domain) =
        Keeps-trans w v _ (Runs-Keeps w v r) (reconcile-Keeps domain v)
