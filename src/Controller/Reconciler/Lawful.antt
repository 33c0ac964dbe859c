-- ===== src/Controller/Reconciler/Lawful.antt =====
-- What the controller relies on of the API server and of `meta.SetStatusCondition`: object names
-- and data keys are distinct, a merge patch sets its entry and leaves all else alone, and a
-- status update writes the status of one object.
use mathlib.Core.List.{Nodup}
use zoneroute.Base.{false, List, map, Option, none, some, ◌≡◌, ◌≢◌, if◌then◌else◌}
use zoneroute.Result.{ok}
use zoneroute.Text.{Text, same}
use zoneroute.Dict.{Dict, lookup}
use zoneroute.Api.{Condition, ZoneRoute}
use zoneroute.Corefile.Foreign.{keys}
use zoneroute.Controller.Client.{Client}

-- The names of the objects.
abbrev pub item_names : {C : Type 0} → List (ZoneRoute C) → List Text
item_names {C} l = map (λ (x : ZoneRoute C). x.name) l

-- The object as the server stores it after a status update of `obj`.
abbrev pub written : {C : Type 0} → ZoneRoute C → ZoneRoute C → ZoneRoute C
written obj x =
    if same x.name obj.name
    then record x { observed_generation = obj.observed_generation; conditions = obj.conditions }
    else x

pub record IsLawful (k : Client) : Type 0 where
  pub conditions_set : IsSet k.Conditions
  -- `meta.FindStatusCondition`
  pub find : Text → k.Conditions → Option Condition
  pub find-set :
      (x : Condition) (xs : k.Conditions) → find x.type (k.set_status_condition x xs).1 ≡ some x
  pub find-set_other :
      (t : Text) (x : Condition) (xs : k.Conditions)
      → t ≢ x.type
      → find t (k.set_status_condition x xs).1 ≡ find t xs
  pub set-current :
      (x : Condition) (xs : k.Conditions)
      → find x.type xs ≡ some x
      → k.set_status_condition x xs ≡ (false, xs)
  pub names_distinct :
      (w : k.World) (l : List (ZoneRoute k.Conditions))
      → k.list_routes w ≡ ok l
      → Nodup (item_names l)
  pub keys_distinct :
      (n : Text) (w : k.World) (m : Dict Text) → k.get_config_map n w ≡ ok m → Nodup (keys m)
  pub patch_routes :
      (n key v : Text) (w : k.World)
      → k.list_routes (k.patch_config_map n key v w).1 ≡ k.list_routes w
  pub patch_others :
      (n key v : Text) (w : k.World) (n' : Text)
      → n' ≢ n
      → k.get_config_map n' (k.patch_config_map n key v w).1 ≡ k.get_config_map n' w
  -- Whether the patch fails or not, the other entries stay; if it does not, the entry is set.
  pub patch_entries :
      (n key v : Text) (w : k.World) (m : Dict Text)
      → k.get_config_map n w ≡ ok m
      → (m' : Dict Text) × (k.get_config_map n (k.patch_config_map n key v w).1 ≡ ok m')
        × ((j : Text) → j ≢ key → lookup j m' ≡ lookup j m)
        × ((k.patch_config_map n key v w).0 ≡ none → lookup key m' ≡ some v)
  pub update_maps :
      (obj : ZoneRoute k.Conditions) (w : k.World) (n : Text)
      → k.get_config_map n (k.update_status obj w).1 ≡ k.get_config_map n w
  pub update_routes :
      (obj : ZoneRoute k.Conditions) (w : k.World) (l : List (ZoneRoute k.Conditions))
      → (k.update_status obj w).0 ≡ none
      → k.list_routes w ≡ ok l
      → k.list_routes (k.update_status obj w).1 ≡ ok (map (written obj) l)
