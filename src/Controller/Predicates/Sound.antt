-- ===== src/Controller/Predicates/Sound.antt =====
-- An update that the predicate drops changes nothing that a reconcile reads.
use mathlib.Core.List
use mathlib.Core.List.{
  Mem, Nodup, Perm, Subset, mem-cons, mem-cons_self, mem-cons_of_mem, not-mem-nil,
}
use mathlib.Core.List.Nodup
use mathlib.Core.List.Perm
use mathlib.Core.List.Subperm
use mathlib.Core.Nat
use zoneroute.Base.{
  suc, Bool, true, false, not, List, [], ◌∷◌, Option, none, some, ◌≡◌, refl, ◌∙◌, ap, sym, subst,
  inl, inr, arith, Bool-cases,
}
use zoneroute.Base.Lists.{filter, length}
use zoneroute.Base.Members.{Pairwise-filter, eq_false, ne_true}
use zoneroute.Text.{Text, same, has_suffix}
use zoneroute.Text.Order.{same_iff}
use zoneroute.Dict.{Dict, lookup}
use zoneroute.Caddyfile.{Caddyfile, IsFinite}
use zoneroute.Corefile.{server_suffix, is_foreign_server, inspect, text_at}
use zoneroute.Corefile.Foreign.{keys, inspect-SameForeign, is_key, mem→is_key, is_key→mem}
use zoneroute.Controller.Predicates.{
  server_entries, holds, covered, maps_equal, config_map_data_changed, integration_config_map,
  core_dns_namespace, corefile_config_map, corefile_key,
}
use zoneroute.Api.{ConfigMap, config_map}

lookup-server_entries :
    (m : Dict Text) (k : Text)
    → has_suffix k server_suffix ≡ true
    → lookup k (server_entries m) ≡ lookup k m
unfolding lookup server_entries filter
lookup-server_entries [] k h = refl
lookup-server_entries ((j, v) ∷ m) k h =
    let rest = lookup-server_entries m k h in
    elim (Bool-cases (has_suffix j server_suffix)) [
      | inl e ↦ rw e (ground (arith, rest))
      | inr e ↦ rw e (ground (arith, rest, same_suffix e))
    ]
  where
    same_suffix : has_suffix j server_suffix ≡ false → same j k ≡ false
    same_suffix e = eq_false (same j k) (λ t.
        ne_true e (subst (λ w. has_suffix w server_suffix ≡ true) (sym ((same_iff j k).0 t)) h))

keys-server_entries :
    (m : Dict Text) → keys (server_entries m) ≡ filter (λ k. has_suffix k server_suffix) (keys m)
unfolding server_entries filter
keys-server_entries [] = refl
keys-server_entries ((j, v) ∷ m) = ground (arith, keys-server_entries m)

holds-some : (v : Text) (o : Option Text) → holds v o ≡ true → o ≡ some v
holds-some v none h = cc
holds-some v (some w) h = ap some (sym ((same_iff v w).0 h))

covered-lookup :
    (m n : Dict Text)
    → covered m n ≡ true
    → (k : Text) → is_key (lookup k m) ≡ true
    → lookup k m ≡ lookup k n
unfolding covered lookup
covered-lookup [] n h k i = cc
covered-lookup ((j, v) ∷ m) n h k i = elim (Bool-cases (same j k)) [
  | inl e ↦ rw e (
      sym (
        ap (λ w. lookup w n) (sym ((same_iff j k).0 e)) ∙ holds-some v (lookup j n) (ground arith)))
  | inr e ↦ rw e (covered-lookup m n (ground arith) k (rw e at i))
]

same_length :
    {A : Type 0} (xs ys : List A) → length xs ≡ length ys → List.length xs ≡ List.length ys
same_length [] [] h = refl
same_length [] (y ∷ ys) h = absurd (omega (arith, h))
same_length (x ∷ xs) [] h = absurd (omega (arith, h))
same_length (x ∷ xs) (y ∷ ys) h = ap Nat.suc (same_length xs ys (omega (arith, h)))

-- A Nodup list whose members all lie in a list of the same length holds all of that list.
mem_of_same_length :
    (xs ys : List Text)
    → Nodup xs
    → ((k : Text) → Mem k xs → Mem k ys)
    → length xs ≡ length ys
    → (k : Text) → Mem k ys
    → Mem k xs
mem_of_same_length xs ys d sub e k m =
    (Perm.mem_iff (
        Subperm.perm_of_length_le (Nodup.subperm d sub)
          (Nat.le_of_eq (sym (same_length xs ys e))))).1
      m

length-keys : (m : Dict Text) → length (keys m) ≡ length m
length-keys [] = refl
length-keys (e ∷ m) = ap suc (length-keys m)

no_key : (m : Dict Text) (k : Text) → is_key (lookup k m) ≡ false → lookup k m ≡ none
no_key m k h = ground arith

-- `maps.Equal` compares maps by their lookups.
pub maps_equal-lookup :
    (m n : Dict Text)
    → Nodup (keys m)
    → maps_equal m n ≡ true
    → (k : Text) → lookup k m ≡ lookup k n
unfolding maps_equal
maps_equal-lookup m n d h k = elim (Bool-cases (is_key (lookup k m))) [
  | inl e ↦ covered-lookup m n all k e
  | inr e ↦ no_key m k e ∙ sym (no_key n k (eq_false _ λ t. ne_true e (back t)))
]
  where
    all : covered m n ≡ true
    all = ground (arith, h)

    sizes : length m ≡ length n
    sizes = ground (arith, h)

    into : (j : Text) → Mem j (keys m) → Mem j (keys n)
    into j mj =
        let i = mem→is_key m j mj in
        is_key→mem n j (ap is_key (sym (covered-lookup m n all j i)) ∙ i)

    back : is_key (lookup k n) ≡ true → is_key (lookup k m) ≡ true
    back t = mem→is_key m k (
        mem_of_same_length (keys m) (keys n) d into (length-keys m ∙ sizes ∙ sym (length-keys n)) k
          (is_key→mem n k t))

server_entries-Nodup : (m : Dict Text) → Nodup (keys m) → Nodup (keys (server_entries m))
server_entries-Nodup m d =
    rw keys-server_entries (Pairwise-filter (λ k. has_suffix k server_suffix) d)

is_foreign_server-suffix :
    (k : Text) → is_foreign_server k ≡ true → has_suffix k server_suffix ≡ true
unfolding is_foreign_server
is_foreign_server-suffix k h = ground (arith, h)

not-false : {b : Bool} → not b ≡ false → b ≡ true
not-false {b} h = ground (arith, h)

integration_change :
    (old new : ConfigMap)
    → new.namespace ≡ core_dns_namespace
    → new.name ≡ integration_config_map
    → config_map_data_changed (some (config_map old)) (some (config_map new))
      ≡ not (maps_equal (server_entries old.data_entries) (server_entries new.data_entries))
unfolding config_map_data_changed same
integration_change old new ns nm = rw (ns, nm)

corefile_change :
    (old new : ConfigMap)
    → new.namespace ≡ core_dns_namespace
    → new.name ≡ corefile_config_map
    → config_map_data_changed (some (config_map old)) (some (config_map new))
      ≡ not (same (text_at corefile_key old.data_entries) (text_at corefile_key new.data_entries))
unfolding config_map_data_changed same
corefile_change old new ns nm = rw (ns, nm)

-- Suppose that coredns-custom in kube-system is updated, its data being maps with distinct keys,
-- and that the predicate drops the event. Then every entry under a key that ends in ".server" is
-- as before, ZoneRoute's own included, and `Inspect` finds the same in the new data as in the
-- old, whatever the Corefile.
pub dropped_update :
    (c : Caddyfile) (finite : IsFinite c) (old new : ConfigMap)
    → new.namespace ≡ core_dns_namespace
    → new.name ≡ integration_config_map
    → Nodup (keys old.data_entries)
    → Nodup (keys new.data_entries)
    → config_map_data_changed (some (config_map old)) (some (config_map new)) ≡ false
    → ((k : Text)
        → has_suffix k server_suffix ≡ true
        → lookup k old.data_entries ≡ lookup k new.data_entries)
      × ((corefile : Text)
          → inspect c finite corefile old.data_entries ≡ inspect c finite corefile new.data_entries)
dropped_update c finite old new ns nm dold dnew h = (
  kept,
  λ corefile.
      inspect-SameForeign c finite corefile old.data_entries new.data_entries dold dnew
        (λ k f. kept k (is_foreign_server-suffix k f)),
)
  where
    equal : maps_equal (server_entries old.data_entries) (server_entries new.data_entries) ≡ true
    equal = not-false (sym (integration_change old new ns nm) ∙ h)

    kept :
        (k : Text)
        → has_suffix k server_suffix ≡ true
        → lookup k old.data_entries ≡ lookup k new.data_entries
    kept k t =
        sym (lookup-server_entries old.data_entries k t)
        ∙ maps_equal-lookup (server_entries old.data_entries) (server_entries new.data_entries)
            (server_entries-Nodup old.data_entries dold) equal k
        ∙ lookup-server_entries new.data_entries k t

-- Suppose that the ConfigMap coredns in kube-system is updated and that the predicate drops the
-- event. Then the value under the key "Corefile" is as before, where a missing one counts as
-- empty.
pub dropped_corefile_update :
    (old new : ConfigMap)
    → new.namespace ≡ core_dns_namespace
    → new.name ≡ corefile_config_map
    → config_map_data_changed (some (config_map old)) (some (config_map new)) ≡ false
    → text_at corefile_key old.data_entries ≡ text_at corefile_key new.data_entries
dropped_corefile_update old new ns nm h =
    (same_iff _ _).0 (not-false (sym (corefile_change old new ns nm) ∙ h))
