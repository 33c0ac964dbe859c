-- ===== src/Corefile/Foreign.antt =====
-- `Inspect` reads the server entries of others and nothing else.
use mathlib.Core.List.{
  Mem, Nodup, mem-cons, mem-cons_self, mem-cons_of_mem, not-mem-nil, perm_ext_iff_of_Nodup,
}
use mathlib.Core.Bool.{Bool-set}
use mathlib.Core.List.Perm
use mathlib.Core.Logic.Or
use zoneroute.Base.{
  Bool, true, false, List, [], ◌∷◌, map, Option, none, some, ◌≡◌, refl, ◌∙◌, ap, sym, subst, inl,
  inr, arith, Bool-cases,
}
use zoneroute.Base.Lists.{filter, mem-filter}
use zoneroute.Base.Members.{Pairwise-filter}
use zoneroute.Text.{Text, same}
use zoneroute.Text.Order.{lt, same_iff}
use zoneroute.Sort.Unique.{sort-perm, sort_unique}
use zoneroute.Dict.{Dict, lookup, Text-set}
use zoneroute.Caddyfile.{Caddyfile, IsFinite}
use zoneroute.Conflict.Zones.{lt-StrictOrder, lt-Separates}
use zoneroute.Result.{ok, err}
use zoneroute.Corefile.{
  Inspection, text_at, is_foreign_server, server_keys, inspect_source, inspect_keys, inspect,
  corefile_source, empty_inspection,
}

abbrev pub keys : Dict Text → List Text
keys m = map (λ (e : Text × Text). e.0) m

abbrev pub is_key : Option Text → Bool
is_key none = false
is_key (some v) = true

-- A key is in the map exactly when it has a value.
pub mem→is_key : (m : Dict Text) (k : Text) → Mem k (keys m) → is_key (lookup k m) ≡ true
unfolding lookup
mem→is_key [] k h = absurd (not-mem-nil h)
mem→is_key ((j, v) ∷ m) k h =
    Or.elim (Bool-set _ _) (mem-cons.0 h) (λ e. rw ((same_iff j k).1 (sym e)))
      (λ r. ground (arith, mem→is_key m k r))

pub is_key→mem : (m : Dict Text) (k : Text) → is_key (lookup k m) ≡ true → Mem k (keys m)
unfolding lookup
is_key→mem [] k h = cc
is_key→mem ((j, v) ∷ m) k h = elim (Bool-cases (same j k)) [
  | inl e ↦ subst (λ t. Mem k (t ∷ keys m)) (sym ((same_iff j k).0 e)) mem-cons_self
  | inr e ↦ mem-cons_of_mem j (is_key→mem m k (rw e at h))
]

-- Two maps hold the same server entries but for the one that ZoneRoute owns.
abbrev pub SameForeign : Dict Text → Dict Text → Type 0
SameForeign m n = (k : Text) → is_foreign_server k ≡ true → lookup k m ≡ lookup k n

foreign_keys : Dict Text → List Text
foreign_keys m = filter is_foreign_server (keys m)

foreign_keys-Nodup : (m : Dict Text) → Nodup (keys m) → Nodup (foreign_keys m)
unfolding foreign_keys
foreign_keys-Nodup m d = Pairwise-filter is_foreign_server d

foreign_keys-mem :
    (m n : Dict Text)
    → SameForeign m n
    → (k : Text) → Mem k (foreign_keys m)
    → Mem k (foreign_keys n)
unfolding foreign_keys
foreign_keys-mem m n s k h =
    let (mk, f) = (mem-filter is_foreign_server (keys m)).0 h in
    (mem-filter is_foreign_server (keys n)).1
      (is_key→mem n k (ap is_key (sym (s k f)) ∙ mem→is_key m k mk), f)

server_keys-SameForeign :
    (m n : Dict Text)
    → Nodup (keys m)
    → Nodup (keys n)
    → SameForeign m n
    → server_keys m ≡ server_keys n
server_keys-SameForeign m n dm dn s =
    unfold server_keys foreign_keys in
    sort_unique lt lt-StrictOrder Text-set
      ((perm_ext_iff_of_Nodup (foreign_keys-Nodup m dm) (foreign_keys-Nodup n dn)).1
        λ k. (foreign_keys-mem m n s k, foreign_keys-mem n m (λ j f. sym (s j f)) k))
      (lt-Separates _)

server_keys-foreign :
    (m : Dict Text) (k : Text) → Mem k (server_keys m) → is_foreign_server k ≡ true
unfolding server_keys
server_keys-foreign m k h =
    ((mem-filter is_foreign_server (keys m)).0
      ((Perm.mem_iff (sort-perm lt (filter is_foreign_server (keys m)))).0 h)).1

module _ (c : Caddyfile) (finite : IsFinite c) where
  inspect_keys-SameForeign :
      (m n : Dict Text)
      → SameForeign m n
      → (ks : List Text) → ((k : Text) → Mem k ks → is_foreign_server k ≡ true)
      → (res : Inspection) → inspect_keys c finite m ks res ≡ inspect_keys c finite n ks res
  unfolding inspect_keys
  inspect_keys-SameForeign m n s [] f res = refl
  inspect_keys-SameForeign m n s (k ∷ ks) f res =
      let same_text : text_at k m ≡ text_at k n =
        unfold text_at in
        ap (λ (o : Option Text). elim o [ none ↦ [] | some t ↦ t ]) (s k (f k mem-cons_self)) in
      let rest = inspect_keys-SameForeign m n s ks (λ j h. f j (mem-cons_of_mem k h)) in
      λ i. elim (inspect_source c finite k (same_text i) res) [
        | err e ↦ err e
        | ok out ↦ rest out.1 i
      ]

-- `Inspect` sees no difference between two states of coredns-custom, maps with distinct keys,
-- that hold the same entries under keys ending in ".server" other than "zoneroute.server":
-- neither ZoneRoute's own entry, nor any other key, nor the order of a map matters.
pub inspect-SameForeign :
    (c : Caddyfile) (finite : IsFinite c) (corefile : Text) (m n : Dict Text)
    → Nodup (keys m)
    → Nodup (keys n)
    → SameForeign m n
    → inspect c finite corefile m ≡ inspect c finite corefile n
unfolding inspect
inspect-SameForeign c finite corefile m n dm dn s = λ i.
    elim (inspect_source c finite corefile_source corefile empty_inspection) [
      | err e ↦ err e
      | ok out ↦ inspect_keys_all (record (out.1) { wired = out.0 }) i
    ]
  where
    inspect_keys_all :
        (res : Inspection)
        → inspect_keys c finite m (server_keys m) res ≡ inspect_keys c finite n (server_keys n) res
    inspect_keys_all res =
        inspect_keys-SameForeign c finite m n s (server_keys m) (server_keys-foreign m) res
        ∙ ap (λ (ks : List Text). inspect_keys c finite n ks res)
            (server_keys-SameForeign m n dm dn s)
