-- ===== src/Controller/Reconciler/Published.antt =====
-- What a true Published condition says of the writes that were made.
use zoneroute.Base.{
  ℕ, Bool, true, false, Option, none, some, ◌≡◌, ◌↔◌, ◌⊎◌, inl, inr, refl, arith, Bool-cases,
}
use zoneroute.Base.Members.{ne_true}
use zoneroute.Result.{Result, ok, err}
use zoneroute.Text.{Text}
use zoneroute.Text.Order.{same_iff}
use zoneroute.Dict.{Dict, lookup}
use zoneroute.Caddyfile.{Caddyfile, IsFinite}
use zoneroute.Api.{
  Reason, integration_config_missing, fragment_invalid, write_failed, accepted,
  accepted_with_unresolved_imports, zone_conflict, zone_owned_by_core_dns, reserved_zone, published,
  not_accepted, core_dns_not_wired,
}
use zoneroute.Corefile.{managed_key}
use zoneroute.Controller.Status.{
  PublishState, published_condition, published_reason, published_wired,
}
use zoneroute.Controller.Predicates.{integration_config_map}
use zoneroute.Controller.Reconciler.{
  patch_outcome, is_current, publish_fragment, publish_rendered, publish,
}
use zoneroute.Controller.Client.{Client}

-- The reasons that `publish` gives.
abbrev IsOutcome : Option Reason → Type 0
IsOutcome none = Unit
IsOutcome (some integration_config_missing) = Unit
IsOutcome (some fragment_invalid) = Unit
IsOutcome (some write_failed) = Unit
IsOutcome _ = ⊥

reason-status :
    (o : Option Reason) (detail : Text) (wired : Bool) (g : ℕ)
    → IsOutcome o
    → ((published_reason o detail wired g).status ≡ true) ↔ ((o ≡ none) × (wired ≡ true))
unfolding published_reason published_wired
reason-status none detail true g h = (λ _. (refl, refl), λ _. refl)
reason-status none detail false g h = (λ e. absurd (ground (arith, e)), λ (_, e). e)
reason-status (some integration_config_missing) detail wired g h = ground arith
reason-status (some fragment_invalid) detail wired g h = ground arith
reason-status (some write_failed) detail wired g h = ground arith
reason-status (some accepted) detail wired g h = elim h [ ]
reason-status (some accepted_with_unresolved_imports) detail wired g h = elim h [ ]
reason-status (some zone_conflict) detail wired g h = elim h [ ]
reason-status (some zone_owned_by_core_dns) detail wired g h = elim h [ ]
reason-status (some reserved_zone) detail wired g h = elim h [ ]
reason-status (some published) detail wired g h = elim h [ ]
reason-status (some not_accepted) detail wired g h = elim h [ ]
reason-status (some core_dns_not_wired) detail wired g h = elim h [ ]

condition-status :
    (acc : Bool) (state : PublishState) (wired : Bool) (g : ℕ)
    → IsOutcome state.reason
    → ((published_condition acc state wired g).status ≡ true)
      ↔ ((acc ≡ true) × (state.reason ≡ none) × (wired ≡ true))
unfolding published_condition
condition-status true state wired g h =
    let inner = reason-status state.reason state.detail wired g h in
    (λ e. let (r, v) = inner.0 e in (refl, r, v), λ (_, r, v). inner.1 (r, v))
condition-status false state wired g h = ground arith

module _ (c : Caddyfile) (finite : IsFinite c) (k : Client) where
  open k use {World, ApiError, patch_config_map}

  -- The fragment was rendered and is the entry that ZoneRoute owns, or was written to it.
  abbrev pub IsInPlace : Option (Dict Text) → Result Text Text → World → Type 0
  IsInPlace custom rendered w =
      (m : Dict Text) × (custom ≡ some m)
      × ((fragment : Text) × (rendered ≡ ok fragment)
          × ((lookup managed_key m ≡ some fragment)
              ⊎ ((patch_config_map integration_config_map managed_key fragment w).0 ≡ none)))

  patch_outcome-reason :
      (o : Option ApiError × World)
      → IsOutcome (patch_outcome c finite k o).0.reason
        × (((patch_outcome c finite k o).0.reason ≡ none) ↔ (o.0 ≡ none))
  unfolding patch_outcome
  patch_outcome-reason (none, w) = (tt, (λ _. refl, λ _. refl))
  patch_outcome-reason (some e, w) = (tt, ground arith)

  pub is_current_iff :
      (fragment : Text) (o : Option Text)
      → (is_current c finite k fragment o ≡ true) ↔ (o ≡ some fragment)
  unfolding is_current
  is_current_iff fragment none = ground arith
  is_current_iff fragment (some t) = ground (arith, same_iff t fragment)

  publish-reason :
      (custom : Option (Dict Text)) (rendered : Result Text Text) (w : World)
      → IsOutcome (publish c finite k custom rendered w).0.reason
        × (((publish c finite k custom rendered w).0.reason ≡ none) ↔ IsInPlace custom rendered w)
  unfolding publish publish_rendered publish_fragment
  publish-reason none rendered w =
      (tt, (λ e. absurd (ground (arith, e)), λ (m, e, _). absurd (ground (arith, e))))
  publish-reason (some m) (err e) w =
      (tt, (λ e. absurd (ground (arith, e)), λ (n, e, (f, x, _)). absurd (ground (arith, x))))
  publish-reason (some m) (ok fragment) w =
      elim (Bool-cases (is_current c finite k fragment (lookup managed_key m))) [
        | inl q ↦
            rw (q, publish)
              (
                tt,
                (
                  λ _. (m, refl, (fragment, refl, inl ((is_current_iff fragment _).0 q))),
                  λ _. refl,
                ),
              )
        | inr q ↦
            let (out, same_reason) =
              patch_outcome-reason
                (patch_config_map integration_config_map managed_key fragment w) in
            rw (q, publish)
              (
                out,
                (
                  λ e. (m, refl, (fragment, refl, inr (same_reason.0 e))),
                  λ (n, e, (f, x, written)). same_reason.1 (patched n f e x written q),
                ),
              )
      ]
    where
      patched :
          (n : Dict Text) (f : Text)
          → some m ≡ some n
          → ◌≡◌ {A = Result Text Text} (ok fragment) (ok f)
          → (lookup managed_key n ≡ some f)
            ⊎ ((patch_config_map integration_config_map managed_key f w).0 ≡ none)
          → is_current c finite k fragment (lookup managed_key m) ≡ false
          → (patch_config_map integration_config_map managed_key fragment w).0 ≡ none
      patched n f e x (inl l) q =
          let there : lookup managed_key m ≡ some fragment = cc in
          absurd (ne_true q ((is_current_iff fragment _).1 there))
      patched n f e x (inr r) q = cc

  -- The Published condition of a route is true exactly if the route is accepted, the Corefile is
  -- wired, coredns-custom exists, and the fragment was rendered and is in it: it was there, or
  -- the write went through.
  pub published_condition-IsInPlace :
      (acc : Bool) (custom : Option (Dict Text)) (rendered : Result Text Text) (wired : Bool)
      (g : ℕ) (w : World)
      → ((published_condition acc (publish c finite k custom rendered w).0 wired g).status ≡ true)
        ↔ ((acc ≡ true) × IsInPlace custom rendered w × (wired ≡ true))
  published_condition-IsInPlace acc custom rendered wired g w =
      let (outcome, same_reason) = publish-reason custom rendered w in
      let inner = condition-status acc (publish c finite k custom rendered w).0 wired g outcome in
      (
        λ e. let (a, r, v) = inner.0 e in (a, same_reason.0 r, v),
        λ (a, r, v). inner.1 (a, same_reason.1 r, v),
      )
