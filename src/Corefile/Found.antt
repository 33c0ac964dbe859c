-- ===== src/Corefile/Found.antt =====
-- The map from listeners to sources: a listener keeps the source that it was first added with.
use zoneroute.Base.{
  Bool, true, false, ◌||◌, List, [], ◌∷◌, ◌++◌, Option, none, some, ◌≡◌, refl, ◌∙◌, sym, ap, inl,
  inr, arith, Bool-cases, if◌then◌else◌,
}
use zoneroute.Base.Lists.{any}
use zoneroute.Result.{ok, Result-cases}
use zoneroute.Text.{Text}
use zoneroute.Text.Order.{same_iff}
use zoneroute.Corefile.{Listeners, listed, add_listener, add_keys}
use zoneroute.Corefile.Key.{Listener, same_listener, parse_key}

-- The source that the map gives for a listener.
unfoldable pub source_of : Listener → Listeners → Option Text
source_of l [] = none
source_of l ((k, s) ∷ ls) = if same_listener k l then some s else source_of l ls

-- Of sources and the listeners that each defines, the first that defines this one.
unfoldable pub first_source : Listener → List (Text × List Listener) → Option Text
first_source l [] = none
first_source l ((source, ls) ∷ rest) =
    if any (λ k. same_listener k l) ls then some source else first_source l rest

-- The listeners are those that the keys stand for, one for each.
abbrev pub Parses : List Text → List Listener → Type 0
Parses [] [] = Unit
Parses (key ∷ keys) (l ∷ ls) = (parse_key key ≡ ok l) × Parses keys ls
Parses _ _ = ⊥

abbrev pub or_else : Option Text → Option Text → Option Text
or_else (some s) o = some s
or_else none o = o

abbrev is_found : Option Text → Bool
is_found none = false
is_found (some s) = true

source_of-append :
    (l : Listener) (ls ms : Listeners)
    → source_of l (ls ++ ms) ≡ or_else (source_of l ls) (source_of l ms)
unfolding source_of
source_of-append l [] ms = refl
source_of-append l ((k, s) ∷ ls) ms = elim (Bool-cases (same_listener k l)) [
  | inl e ↦ rw (e) refl
  | inr e ↦ rw (e) (source_of-append l ls ms)
]

listed-is_found : (l : Listener) (ls : Listeners) → listed l ls ≡ is_found (source_of l ls)
unfolding source_of listed
listed-is_found l [] = refl
listed-is_found l ((k, s) ∷ ls) = elim (Bool-cases (same_listener k l)) [
  | inl e ↦ rw (e) refl
  | inr e ↦ rw (e) (listed-is_found l ls)
]

same_listener-eq : (a b : Listener) → same_listener a b ≡ true → a ≡ b
unfolding same_listener
same_listener-eq a b h =
    let t = (same_iff a.transport b.transport).0 (ground (arith, h)) in
    let z = (same_iff a.zone b.zone).0 (ground (arith, h)) in
    let p : a.port ≡ b.port = ground (arith, h) in
    λ i. record { transport = t i; zone = z i; port = p i }

or_else-found : (a b : Option Text) → is_found a ≡ true → or_else a b ≡ a
or_else-found none b h = cc
or_else-found (some s) b h = refl

pub or_else-none : (a : Option Text) → or_else a none ≡ a
or_else-none none = refl
or_else-none (some s) = refl

-- A listener that is listed keeps its source, and else it gets this one.
source_of-add_listener :
    (l k : Listener) (source : Text) (ls : Listeners)
    → source_of l (add_listener source k ls)
      ≡ or_else (source_of l ls) (if same_listener k l then some source else none)
unfolding add_listener source_of
source_of-add_listener l k source ls = elim (Bool-cases (listed k ls)) [
  | inl e ↦ rw (e) (elim (Bool-cases (same_listener k l)) [
    | inl q ↦
        let found =
          sym (listed-is_found l ls) ∙ ap (λ x. listed x ls) (sym (same_listener-eq k l q)) ∙ e in
        sym (or_else-found (source_of l ls) _ found)
    | inr q ↦ rw (q) (sym (or_else-none (source_of l ls)))
  ])
  | inr e ↦ rw (e) (source_of-append l ls ((k, source) ∷ []))
]

abbrev pub offered : Text → List Listener → Listener → Option Text
offered source ls l = if any (λ k. same_listener k l) ls then some source else none

or_else-offered :
    (a : Option Text) (x y : Bool) (source : Text)
    → or_else (or_else a (if x then some source else none)) (if y then some source else none)
      ≡ or_else a (if x || y then some source else none)
or_else-offered (some s) x y source = refl
or_else-offered none true y source = refl
or_else-offered none false y source = refl

-- What the keys of one source add.
pub record KeysAdded (source : Text) (keys : List Text) (ls ls' : Listeners) : Type 0 where
  pub parsed : List Listener
  pub parses : Parses keys parsed
  pub sources :
      (l : Listener) → source_of l ls' ≡ or_else (source_of l ls) (offered source parsed l)

pub add_keys-KeysAdded :
    (source : Text) (keys : List Text) (ls ls' : Listeners)
    → add_keys source keys ls ≡ ok ls'
    → KeysAdded source keys ls ls'
unfolding add_keys any
add_keys-KeysAdded source [] ls ls' h =
    let same_list : ls ≡ ls' = ground (arith, h) in
    record {
      parsed = [];
      parses = tt;
      sources = λ l. ap (source_of l) (sym same_list) ∙ sym (or_else-none (source_of l ls));
    }
add_keys-KeysAdded source (key ∷ keys) ls ls' h = elim (Result-cases (parse_key key)) [
  | inr (x, e) ↦ absurd (ground (arith, h, e))
  | inl (k, e) ↦
      let rest =
        add_keys-KeysAdded source keys (add_listener source k ls) ls' (rw (e, add_keys) at h) in
      record {
        parsed = k ∷ rest.parsed;
        parses = (e, rest.parses);
        sources = λ l.
            rest.sources l
            ∙ ap (λ o. or_else o (offered source rest.parsed l))
                (source_of-add_listener l k source ls)
            ∙ or_else-offered (source_of l ls) (same_listener k l)
                (any (λ j. same_listener j l) rest.parsed) source;
      }
]

pub or_else_assoc : (a b d : Option Text) → or_else (or_else a b) d ≡ or_else a (or_else b d)
or_else_assoc none b d = refl
or_else_assoc (some s) b d = refl

pub first_source-cons :
    (l : Listener) (source : Text) (ls : List Listener) (rest : List (Text × List Listener))
    → first_source l ((source, ls) ∷ rest) ≡ or_else (offered source ls l) (first_source l rest)
unfolding first_source
first_source-cons l source ls rest = elim (Bool-cases (any (λ k. same_listener k l) ls)) [
  | inl e ↦ rw (e) refl
  | inr e ↦ rw (e) refl
]
