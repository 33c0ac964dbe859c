-- ===== src/Controller/Sample/Lawful.antt =====
-- The small API server keeps its promises.
use mathlib.Core.HLevel.{hedberg}
use mathlib.Core.List.{Nodup}
use mathlib.Core.Path.{ap}
use native.Mathlib.Decide.{ℕ_discrete}
use zoneroute.Base.{
  true, false, List, [], ◌∷◌, map, Option, none, some, ◌≡◌, ◌≢◌, refl, ◌∙◌, sym, subst, inl, inr,
  arith, Bool-cases,
}
use zoneroute.Result.{Result, ok, err}
use zoneroute.Text.{Text, same}
use zoneroute.Text.Order.{same_iff, same_refl}
use zoneroute.Dict.{Dict, lookup, lookup-insert, contains}
use zoneroute.Dict.Distinct.{distinct, distinct-Nodup}
use zoneroute.Api.{Condition, ZoneRoute}
use zoneroute.Corefile.{managed_key}
use zoneroute.Corefile.Foreign.{keys}
use zoneroute.Controller.Predicates.{corefile_config_map, corefile_key, integration_config_map}
use zoneroute.Caddyfile.{Caddyfile, IsFinite}
use zoneroute.Controller.Reconciler.Live.{IsWritable}
use zoneroute.Controller.Reconciler.Lawful.{IsLawful, item_names, written}
use zoneroute.Controller.Sample.{
  Store, first_name, second_name, routes_of, note, custom_entries, entries_of, patch_entry,
  write_status, Condition-discrete, yes-holds, holds-yes, is_set, set_condition, store_client,
}

is_set-some : (x : Condition) (o : Option Condition) → is_set x o ≡ true → o ≡ some x
is_set-some x none h = cc
is_set-some x (some y) h = ap some (yes-holds (Condition-discrete y x) h)

some-is_set : (x : Condition) (o : Option Condition) → o ≡ some x → is_set x o ≡ true
some-is_set x o e = subst (λ p. is_set x p ≡ true) (sym e) (holds-yes (Condition-discrete x x) refl)

store_find-set :
    (x : Condition) (xs : Dict Condition) → lookup x.type (set_condition x xs).1 ≡ some x
store_find-set x xs = elim (Bool-cases (is_set x (lookup x.type xs))) [
  | inl e ↦ rw (e) (is_set-some x (lookup x.type xs) e)
  | inr e ↦ rw (e, lookup-insert x.type x.type x xs, same_refl x.type) refl
]

store_find-set_other :
    (t : Text) (x : Condition) (xs : Dict Condition)
    → t ≢ x.type
    → lookup t (set_condition x xs).1 ≡ lookup t xs
store_find-set_other t x xs n = ground (arith, n, lookup-insert x.type t x xs, same_iff x.type t)

store_set-current :
    (x : Condition) (xs : Dict Condition)
    → lookup x.type xs ≡ some x
    → set_condition x xs ≡ (false, xs)
store_set-current x xs e = rw (some-is_set x (lookup x.type xs) e) refl

-- What was read, or nothing.
abbrev read_or : {A : Type 0} → List A → Result Text (List A) → List A
read_or d (ok l) = l
read_or d (err e) = d

store_names :
    (w : Store) (l : List (ZoneRoute (Dict Condition)))
    → store_client.list_routes w ≡ ok l
    → Nodup (item_names l)
unfolding distinct contains same
store_names w l h =
    subst (λ m. Nodup (item_names m)) (ap (read_or []) h)
      (distinct-Nodup (first_name ∷ second_name ∷ []) refl)

custom_keys : (o : Option Text) → Nodup (keys (custom_entries o))
unfolding distinct contains same
custom_keys none = distinct-Nodup _ refl
custom_keys (some v) = distinct-Nodup (managed_key ∷ note.0 ∷ []) refl

entries_keys : (n : Text) (w : Store) → Nodup (keys (entries_of n w))
unfolding distinct contains same
entries_keys n w = elim (Bool-cases (same n integration_config_map)) [
  | inl e ↦ rw (e) (custom_keys w.owned)
  | inr e ↦ rw (e) (elim (Bool-cases (same n corefile_config_map)) [
    | inl f ↦ rw (f) (distinct-Nodup (corefile_key ∷ []) refl)
    | inr f ↦ rw (f) (distinct-Nodup [] refl)
  ])
]

patch_entry-routes :
    (n key v : Text) (w : Store) → routes_of (patch_entry n key v w).1 ≡ routes_of w
patch_entry-routes n key v w = ground (arith)

patch_entry-others :
    (n key v : Text) (w : Store) (n' : Text)
    → n' ≢ n
    → entries_of n' (patch_entry n key v w).1 ≡ entries_of n' w
patch_entry-others n key v w n' d =
    ground (arith, d, same_iff n integration_config_map, same_iff n' integration_config_map)

custom_entries-others :
    (v : Text) (o : Option Text) (j : Text)
    → j ≢ managed_key
    → lookup j (custom_entries (some v)) ≡ lookup j (custom_entries o)
unfolding lookup
custom_entries-others v none j d = ground (arith, d, same_iff managed_key j)
custom_entries-others v (some u) j d = ground (arith, d, same_iff managed_key j)

patch_entry-entries :
    (n key v : Text) (w : Store)
    → ((j : Text)
        → j ≢ key
        → lookup j (entries_of n (patch_entry n key v w).1) ≡ lookup j (entries_of n w))
      × ((patch_entry n key v w).0 ≡ none
          → lookup key (entries_of n (patch_entry n key v w).1) ≡ some v)
unfolding same
patch_entry-entries n key v w = elim (Bool-cases (same n integration_config_map)) [
  | inr e ↦ (λ j d. rw (e) refl, λ h. absurd (ground (arith, h, e)))
  | inl e ↦ elim (Bool-cases (same key managed_key)) [
    | inr f ↦ (λ j d. rw (e, f) refl, λ h. absurd (ground (arith, h, e, f)))
    | inl f ↦ (
      λ j d.
          rw (e, f)
            (custom_entries-others v w.owned j (λ q. d (q ∙ sym ((same_iff key managed_key).0 f)))),
      λ h. rw (e, f, (same_iff key managed_key).0 f) (unfold lookup in unfold same in refl),
    )
  ]
]

write_status-maps :
    (obj : ZoneRoute (Dict Condition)) (w : Store) (n : Text)
    → entries_of n (write_status obj w).1 ≡ entries_of n w
write_status-maps obj w n = ground (arith)

write_status-routes :
    (obj : ZoneRoute (Dict Condition)) (w : Store)
    → (write_status obj w).0 ≡ none
    → routes_of (write_status obj w).1 ≡ map (written obj) (routes_of w)
write_status-routes obj w h = elim (Bool-cases (same first_name obj.name)) [
  | inl e ↦ rw (e, sym ((same_iff first_name obj.name).0 e)) (unfold same in refl)
  | inr e ↦ elim (Bool-cases (same second_name obj.name)) [
    | inl f ↦ rw (e, f) refl
    | inr f ↦ rw (e, f) refl
  ]
]

pub store_lawful : IsLawful store_client
store_lawful = record {
  conditions_set = hlevel (hedberg, ℕ_discrete);
  find = lookup;
  find-set = store_find-set;
  find-set_other = store_find-set_other;
  set-current = store_set-current;
  names_distinct = store_names;
  keys_distinct = λ n w m h. subst (λ l. Nodup (keys l)) (ap (read_or []) h) (entries_keys n w);
  patch_routes = λ n key v w. ap ok (patch_entry-routes n key v w);
  patch_others = λ n key v w n' d. ap ok (patch_entry-others n key v w n' d);
  patch_entries = λ n key v w m h.
      let (others, own) = patch_entry-entries n key v w in
      (
        entries_of n (patch_entry n key v w).1,
        refl,
        λ j d. others j d ∙ ap (lookup j) (ap (read_or []) h),
        own,
      );
  update_maps = λ obj w n. ap ok (write_status-maps obj w n);
  update_routes = λ obj w l e h.
      ap ok (write_status-routes obj w e ∙ ap (map (written obj)) (ap (read_or []) h));
}

pub store_writable : (c : Caddyfile) (finite : IsFinite c) → IsWritable c finite store_client
unfolding same
store_writable c finite = record {
  patch_done = λ text w. refl;
  update_done = λ obj w. ground (arith);
}
