-- ===== src/Controller/Reconciler/Republish.antt =====
-- What `publish` leaves behind when it does not fail: data on which it would write nothing more, and
-- in which `Inspect` sees what it saw.
use zoneroute.Base.{
  true, false, [], Option, none, some, ◌≡◌, ◌≢◌, ◌⊎◌, refl, ◌∙◌, ap, sym, subst, inl, inr, arith,
  Bool-cases, Option-cases,
}
use zoneroute.Result.{Result, ok, err}
use zoneroute.Text.{Text}
use zoneroute.Text.Order.{same_iff}
use zoneroute.Dict.{Dict, lookup}
use zoneroute.Caddyfile.{Caddyfile, IsFinite}
use zoneroute.Corefile.{managed_key, is_foreign_server, inspect}
use zoneroute.Corefile.Foreign.{inspect-SameForeign}
use zoneroute.Controller.Status.{PublishState}
use zoneroute.Controller.Predicates.{integration_config_map}
use zoneroute.Controller.Reconciler.{
  patch_outcome, is_current, publish_fragment, publish_rendered, publish, publish_errors,
  read_custom, servers_of, in_place,
}
use zoneroute.Controller.Client.{Client}
use zoneroute.Controller.Reconciler.Lawful.{IsLawful}
use zoneroute.Controller.Reconciler.Published.{is_current_iff}
use zoneroute.Controller.Reconciler.Writes.{publish-current}

module _ (c : Caddyfile) (finite : IsFinite c) (k : Client) where
  open k use {
    World, Conditions, ApiError, list_routes, get_config_map, patch_config_map, is_not_found,
  }

  abbrev pub patched : Text → World → Option ApiError × World
  patched fragment w = patch_config_map integration_config_map managed_key fragment w

  patch_outcome-world : (o : Option ApiError × World) → (patch_outcome c finite k o).1 ≡ o.1
  unfolding patch_outcome
  patch_outcome-world (none, w) = refl
  patch_outcome-world (some e, w) = refl

  -- `publish` leaves the world alone, or patches the one entry.
  pub publish-world :
      (custom : Option (Dict Text)) (rendered : Result Text Text) (w : World)
      → ((publish c finite k custom rendered w).1 ≡ w)
        ⊎ ((fragment : Text) × ((publish c finite k custom rendered w).1 ≡ (patched fragment w).1))
  unfolding publish publish_rendered publish_fragment
  publish-world none rendered w = inl refl
  publish-world (some m) (err e) w = inl refl
  publish-world (some m) (ok fragment) w =
      elim (Bool-cases (is_current c finite k fragment (lookup managed_key m))) [
        | inl q ↦ inl (rw (q, publish_fragment) refl)
        | inr q ↦
            inr (fragment, rw (q, publish_fragment) (patch_outcome-world (patched fragment w)))
      ]

  publish-patched :
      (m : Dict Text) (fragment : Text) (w : World)
      → is_current c finite k fragment (lookup managed_key m) ≡ false
      → publish c finite k (some m) (ok fragment) w ≡ patch_outcome c finite k (patched fragment w)
  unfolding publish publish_rendered publish_fragment
  publish-patched m fragment w q = rw (q, publish_fragment) refl

  patch_outcome-done :
      (o : Option ApiError × World)
      → o.0 ≡ none
      → patch_outcome c finite k o ≡ (in_place c finite k, o.1)
  unfolding patch_outcome
  patch_outcome-done (none, w) h = refl
  patch_outcome-done (some e, w) h = cc

  patch_outcome-failed :
      (o : Option ApiError × World) (e : ApiError)
      → o.0 ≡ some e
      → publish_errors c finite k (patch_outcome c finite k o).0 ≢ []
  unfolding patch_outcome publish_errors
  patch_outcome-failed (none, w) e h = cc
  patch_outcome-failed (some x, w) e h = λ q. cc

  pub read_custom-some :
      (r : Result ApiError (Dict Text)) (m : Dict Text)
      → read_custom c finite k r ≡ ok (some m)
      → r ≡ ok m
  unfolding read_custom
  read_custom-some (ok n) m h = ground (arith, h)
  read_custom-some (err e) m h = absurd (ground (arith, h))

  foreign-ne : (j : Text) → is_foreign_server j ≡ true → j ≢ managed_key
  unfolding is_foreign_server
  foreign-ne j h e = ground (arith, h, (same_iff j managed_key).1 e)

  module _ (lawful : IsLawful k) where
    pub publish-routes :
        (custom : Option (Dict Text)) (rendered : Result Text Text) (w : World)
        → list_routes (publish c finite k custom rendered w).1 ≡ list_routes w
    publish-routes custom rendered w = elim (publish-world custom rendered w) [
      | inl e ↦ ap list_routes e
      | inr (fragment, e) ↦
          ap list_routes e ∙ lawful.patch_routes integration_config_map managed_key fragment w
    ]

    pub publish-maps :
        (custom : Option (Dict Text)) (rendered : Result Text Text) (w : World) (n : Text)
        → n ≢ integration_config_map
        → get_config_map n (publish c finite k custom rendered w).1 ≡ get_config_map n w
    publish-maps custom rendered w n ne = elim (publish-world custom rendered w) [
      | inl e ↦ ap (get_config_map n) e
      | inr (fragment, e) ↦
          ap (get_config_map n) e
          ∙ lawful.patch_others integration_config_map managed_key fragment w n ne
    ]

    -- The data of coredns-custom after a publish without a failure: the publish would make no
    -- further write, and `Inspect` sees what it saw.
    pub record Repeats (corefile : Text) (custom : Option (Dict Text)) (rendered : Result Text Text)
        (state : PublishState) (w : World) (custom' : Option (Dict Text)) : Type 0 where
      pub read_again : read_custom c finite k (get_config_map integration_config_map w) ≡ ok custom'
      pub publish_again : (w' : World) → publish c finite k custom' rendered w' ≡ (state, w')
      pub inspect_again :
          inspect c finite corefile (servers_of c finite k custom')
          ≡ inspect c finite corefile (servers_of c finite k custom)

    patched-Repeats :
        (corefile fragment : Text) (m : Dict Text) (w : World)
        → get_config_map integration_config_map w ≡ ok m
        → (patched fragment w).0 ≡ none
        → (custom' : Option (Dict Text)) × Repeats corefile
            (some m)
            (ok fragment)
            (in_place c finite k)
            (patched fragment w).1
            custom'
    patched-Repeats corefile fragment m w held done =
        let (m', held', others, own) =
          lawful.patch_entries integration_config_map managed_key fragment w m held in
        (
          some m',
          record {
            read_again = ap (read_custom c finite k) held' ∙ (unfold read_custom in refl);
            publish_again = λ w'. publish-current c finite k m' fragment w' (own done);
            inspect_again =
                inspect-SameForeign c finite corefile m' m
                  (lawful.keys_distinct integration_config_map (patched fragment w).1 m' held')
                  (lawful.keys_distinct integration_config_map w m held)
                  (λ j f. others j (foreign-ne j f));
          },
        )

    -- Whatever `publish` has done without a failure, it would not do again.
    Done : Text → Option (Dict Text) → Result Text Text → PublishState × World → Type 0
    Done corefile custom rendered out =
        (custom' : Option (Dict Text)) × Repeats corefile custom rendered out.0 out.1 custom'

    pub publish-Repeats :
        (corefile : Text) (custom : Option (Dict Text)) (rendered : Result Text Text) (w : World)
        → read_custom c finite k (get_config_map integration_config_map w) ≡ ok custom
        → publish_errors c finite k (publish c finite k custom rendered w).0 ≡ []
        → (custom' : Option (Dict Text)) × Repeats corefile custom rendered
            (publish c finite k custom rendered w).0
            (publish c finite k custom rendered w).1
            custom'
    unfolding publish publish_rendered Done
    publish-Repeats corefile none rendered w held done =
        (none, record { read_again = held; publish_again = λ w'. refl; inspect_again = refl })
    publish-Repeats corefile (some m) (err e) w held done =
        (some m, record { read_again = held; publish_again = λ w'. refl; inspect_again = refl })
    publish-Repeats corefile (some m) (ok fragment) w held done =
        elim (Bool-cases (is_current c finite k fragment (lookup managed_key m))) [
          | inl q ↦
              let there = (is_current_iff c finite k fragment (lookup managed_key m)).0 q in
              subst (Done corefile (some m) (ok fragment))
                (sym (publish-current c finite k m fragment w there))
                (
                  some m,
                  record {
                    read_again = held;
                    publish_again = λ w'. publish-current c finite k m fragment w' there;
                    inspect_again = refl;
                  },
                )
          | inr q ↦
              let sent = publish-patched m fragment w q in
              elim (Option-cases (patched fragment w).0) [
                | inl e ↦
                    subst (Done corefile (some m) (ok fragment))
                      (sym (sent ∙ patch_outcome-done (patched fragment w) e))
                      (patched-Repeats corefile fragment m w (read_custom-some _ m held) e)
                | inr (x, e) ↦ absurd (
                    patch_outcome-failed (patched fragment w) x e (
                      sym (ap (λ (r : PublishState × World). publish_errors c finite k r.0) sent)
                      ∙ done))
              ]
        ]
