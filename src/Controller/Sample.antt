-- ===== src/Controller/Sample.antt =====
-- A small API server that keeps its promises, on which the tests run: two routes that never go away, a
-- Corefile that imports the fragment, and coredns-custom with a note beside it.
pub mod Lawful
use mathlib.Core.HLevel.{hedberg}
use mathlib.Core.List.{Nodup}
use mathlib.Core.Path.{ap}
use native.Mathlib.Decide.{ℕ_discrete}
use zoneroute.Base.{
  ℕ, Bool, true, false, List, [], ◌∷◌, map, Option, none, some, ◌≡◌, ◌≢◌, refl, ◌∙◌, sym, subst,
  inl, inr, arith, Bool-cases, if◌then◌else◌,
}
use zoneroute.Result.{Result, ok, err}
use zoneroute.Text.{Text, codes, same}
use zoneroute.Text.Order.{same_iff, same_refl}
use zoneroute.Dict.{Dict, lookup, insert, lookup-insert, contains}
use zoneroute.Dict.Distinct.{distinct, distinct-Nodup}
use zoneroute.Api.{Condition, ZoneRoute}
use zoneroute.Corefile.{managed_key}
use zoneroute.Corefile.Foreign.{keys}
use zoneroute.Controller.Predicates.{corefile_config_map, corefile_key, integration_config_map}
use zoneroute.Controller.Client.{Client}
use zoneroute.Caddyfile.{Caddyfile, IsFinite}
use zoneroute.Controller.Reconciler.Live.{IsWritable}
use zoneroute.Controller.Reconciler.Lawful.{IsLawful, item_names, written}

-- The status of a route.
pub record Stored : Type 0 where
  pub observed : ℕ
  pub conditions : Dict Condition

pub record Store : Type 0 where
  pub first : Stored
  pub second : Stored
  -- The entry that ZoneRoute owns.
  pub owned : Option Text

abbrev route_of : Text → Stored → ZoneRoute (Dict Condition)
route_of name s = record {
  name = name;
  generation = 1;
  created = 1;
  spec = record {
    zones = codes "corp" ∷ [];
    upstreams = record { address = codes "10.0.0.1"; port = 53 } ∷ [];
  };
  observed_generation = s.observed;
  conditions = s.conditions;
}

abbrev pub first_name : Text
first_name = codes "a"

abbrev pub second_name : Text
second_name = codes "b"

abbrev pub routes_of : Store → List (ZoneRoute (Dict Condition))
routes_of w = route_of first_name w.first ∷ route_of second_name w.second ∷ []

abbrev pub note : Text × Text
note = (codes "notes", codes "kept by hand")

abbrev custom_entries : Option Text → Dict Text
custom_entries none = note ∷ []
custom_entries (some v) = (managed_key, v) ∷ note ∷ []

abbrev pub corefile_entries : Dict Text
corefile_entries = (corefile_key, codes "import custom/*.server") ∷ []

abbrev entries_of : Text → Store → Dict Text
entries_of n w =
    if same n integration_config_map
    then custom_entries w.owned
    else if same n corefile_config_map
    then corefile_entries
    else []

-- A patch of anything but the one entry is forbidden.
abbrev patch_entry : Text → Text → Text → Store → Option Text × Store
patch_entry n key v w =
    if same n integration_config_map
    then if same key managed_key
      then (none, record w { owned = some v })
      else (some (codes "forbidden"), w)
    else (some (codes "forbidden"), w)

abbrev stored_of : ZoneRoute (Dict Condition) → Stored
stored_of obj = record { observed = obj.observed_generation; conditions = obj.conditions }

-- An update of a route that is not there changes nothing.
abbrev write_status : ZoneRoute (Dict Condition) → Store → Option Text × Store
write_status obj w =
    if same first_name obj.name
    then (none, record w { first = stored_of obj })
    else if same second_name obj.name
    then (none, record w { second = stored_of obj })
    else (none, w)

pub Condition-discrete : Discrete Condition
Condition-discrete = hlevel ℕ_discrete

abbrev is_yes : {A : Type 0} → Dec A → Bool
is_yes (yes p) = true
is_yes (no n) = false

yes-holds : {A : Type 0} (d : Dec A) → is_yes d ≡ true → A
yes-holds (yes p) h = p
yes-holds (no n) h = absurd (ground (arith, h))

holds-yes : {A : Type 0} (d : Dec A) → A → is_yes d ≡ true
holds-yes (yes p) a = refl
holds-yes (no n) a = absurd (n a)

-- Whether the condition is there as it would be set.
abbrev is_set : Condition → Option Condition → Bool
is_set x none = false
is_set x (some y) = is_yes (Condition-discrete y x)

abbrev set_condition : Condition → Dict Condition → Bool × Dict Condition
set_condition x xs = if is_set x (lookup x.type xs) then (false, xs) else (true, insert x.type x xs)

abbrev pub store_client : Client
store_client = record {
  World = Store;
  Conditions = Dict Condition;
  ApiError = Text;
  is_not_found = λ e. false;
  message = λ e. e;
  list_routes = λ w. ok (routes_of w);
  get_config_map = λ n w. ok (entries_of n w);
  patch_config_map = patch_entry;
  update_status = write_status;
  set_status_condition = set_condition;
}
