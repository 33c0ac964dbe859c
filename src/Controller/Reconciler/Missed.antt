-- ===== src/Controller/Reconciler/Missed.antt =====
-- internal/controller/predicates.go and reconciler.go: what a dropped event cannot hide.
use mathlib.Core.List.{Nodup}
use zoneroute.Base.{
  ◌⊎◌, Option, none, Bool, false, [], some, ◌≡◌, refl, ◌∙◌, ap, sym, inl, inr, arith,
}
use zoneroute.Base.Lists.{any}
use zoneroute.Text.{Text, has_suffix, same}
use zoneroute.Dict.{Dict, lookup}
use zoneroute.Caddyfile.{Caddyfile, IsFinite}
use zoneroute.Api.{ConfigMap, config_map}
use zoneroute.Corefile.{managed_key, text_at}
use zoneroute.Corefile.Foreign.{keys}
use zoneroute.Controller.Predicates.{
  Event, update_event, core_dns_config_map_predicate, core_dns_namespace, integration_config_map,
  corefile_config_map, corefile_key,
}
use zoneroute.Controller.Predicates.Sound.{dropped_update, dropped_corefile_update}
use zoneroute.Controller.Setup.{setup_with_manager, config_maps, same_resource, wakes}
use zoneroute.Controller.Reconciler.{reconcile}
use zoneroute.Controller.Reconciler.Reading.{with_map, reconcile-custom, reconcile-corefile}
use zoneroute.Controller.Client.{Client}

dropped-predicate :
    (generation_changed : Event → Bool) (domain : Text) (e : Event)
    → wakes (setup_with_manager generation_changed domain) config_maps e
      ≡ core_dns_config_map_predicate e
unfolding wakes setup_with_manager same_resource any
dropped-predicate generation_changed domain e = ground arith

-- One of the two is missing, and the other is the empty text.
abbrev pub IsGap : Option Text → Option Text → Type 0
IsGap a b = ((a ≡ none) × (b ≡ some [])) ⊎ ((a ≡ some []) × (b ≡ none))

texts_alike :
    (a b : Option Text)
    → (elim a as (λ _. Text) [ none ↦ [] | some t ↦ t ])
      ≡ (elim b as (λ _. Text) [ none ↦ [] | some t ↦ t ])
    → (a ≡ b) ⊎ IsGap a b
texts_alike none none h = inl refl
texts_alike none (some t) h = inr (inl (refl, ap some (sym h)))
texts_alike (some s) none h = inr (inr (ap some h, refl))
texts_alike (some s) (some t) h = inl (ap some h)

text_at-cases :
    (m n : Dict Text)
    → text_at corefile_key m ≡ text_at corefile_key n
    → (lookup corefile_key m ≡ lookup corefile_key n)
      ⊎ IsGap (lookup corefile_key m) (lookup corefile_key n)
unfolding text_at
text_at-cases m n h = texts_alike (lookup corefile_key m) (lookup corefile_key n) h

module _ (c : Caddyfile) (finite : IsFinite c) (k : Client) where
  open k use {World}

  -- Suppose that coredns-custom in kube-system is updated, its data being maps with distinct keys,
  -- and that no watch of `SetupWithManager` passes the event. Then nothing is missed: `Reconcile`
  -- with the old data in the ConfigMap returns and writes the same as with the new, whatever the
  -- routes, the Corefile and the rest of the world are.
  pub missed_update :
      (generation_changed : Event → Bool) (domain : Text) (old new : ConfigMap)
      → new.namespace ≡ core_dns_namespace
      → new.name ≡ integration_config_map
      → Nodup (keys old.data_entries)
      → Nodup (keys new.data_entries)
      → wakes
          (setup_with_manager generation_changed domain)
          config_maps
          (update_event (some (config_map old)) (some (config_map new)))
        ≡ false
      → (w : World)
      → reconcile c finite (with_map k integration_config_map old.data_entries) domain w
        ≡ reconcile c finite (with_map k integration_config_map new.data_entries) domain w
  unfolding core_dns_config_map_predicate has_suffix same
  missed_update generation_changed domain old new ns nm dold dnew dropped w =
      let (kept, seen) =
        dropped_update c finite old new ns nm dold dnew
          (sym (dropped-predicate generation_changed domain _) ∙ dropped) in
      reconcile-custom c finite k old.data_entries new.data_entries (kept managed_key refl) seen
        domain w

  -- Suppose that coredns in kube-system is updated, and that no watch of `SetupWithManager` passes
  -- the event. Then `Reconcile` with the old data in the ConfigMap returns and writes the same as
  -- with the new, whatever the routes, coredns-custom and the rest of the world are, or one of the
  -- two has no entry Corefile and the other has an empty one.
  pub missed_corefile_update :
      (generation_changed : Event → Bool) (domain : Text) (old new : ConfigMap)
      → new.namespace ≡ core_dns_namespace
      → new.name ≡ corefile_config_map
      → wakes
          (setup_with_manager generation_changed domain)
          config_maps
          (update_event (some (config_map old)) (some (config_map new)))
        ≡ false
      → (w : World)
      → (reconcile c finite (with_map k corefile_config_map old.data_entries) domain w
          ≡ reconcile c finite (with_map k corefile_config_map new.data_entries) domain w)
        ⊎ IsGap (lookup corefile_key old.data_entries) (lookup corefile_key new.data_entries)
  unfolding core_dns_config_map_predicate
  missed_corefile_update generation_changed domain old new ns nm dropped w =
      elim (text_at-cases old.data_entries new.data_entries (
        dropped_corefile_update old new ns nm
          (sym (dropped-predicate generation_changed domain _) ∙ dropped))) [
            | inl e ↦
                inl (reconcile-corefile c finite k old.data_entries new.data_entries e domain w)
            | inr g ↦ inr g
          ]
