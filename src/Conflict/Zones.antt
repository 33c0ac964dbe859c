-- ===== src/Conflict/Zones.antt =====
-- `canonicalZones`: the sorted set of a route's canonical names.
use mathlib.Core.List.{Mem, Nodup, Nodup-cons, Nodup-nil, perm_ext_iff_of_Nodup}
use mathlib.Core.List.Perm
use zoneroute.Base.{
  not, ◌&&◌, List, [], ◌∷◌, map, ◌≡◌, refl, ◌∙◌, sym, ◌↔◌, inl, inr, arith, Bool-cases,
}
use zoneroute.Text.{Text}
use zoneroute.Text.Order.{lt, lt_asym, lt_cotrans, lt_connected, same_iff, same_refl}
use zoneroute.Sort.{StrictOrder, Separates}
use zoneroute.Sort.Unique.{sort-perm, sort_unique}
use zoneroute.Dict.{contains, contains→mem, mem→contains, Text-set}
use zoneroute.Dnsname.{canonical}
use zoneroute.Conflict.{dedupe, canonical_zones}

pub lt-StrictOrder : StrictOrder lt
lt-StrictOrder = record { asym = lt_asym; cotrans = lt_cotrans }

pub lt-Separates : (l : List Text) → Separates lt l
lt-Separates l a b _ _ = lt_connected a b

-- What the loop collects, given what it has seen.
contains-dedupe :
    (zs seen : List Text) (z : Text)
    → contains (dedupe seen zs) z ≡ (contains (map canonical zs) z && not (contains seen z))
unfolding dedupe contains
contains-dedupe [] seen z = refl
contains-dedupe (w ∷ zs) seen z = ground (
  arith,
  contains-dedupe zs seen z,
  contains-dedupe zs (canonical w ∷ seen) z,
  same_iff (canonical w) z,
)

fresh_tail : (c : Text) (zs seen : List Text) → ¬ Mem c (dedupe (c ∷ seen) zs)
fresh_tail c zs seen m =
    let found = mem→contains (dedupe (c ∷ seen) zs) c m in
    let kept = contains-dedupe zs (c ∷ seen) c in
    unfold contains in ground (arith, found, kept, same_refl c)

dedupe-Nodup : (zs seen : List Text) → Nodup (dedupe seen zs)
unfolding dedupe
dedupe-Nodup [] seen = Nodup-nil
dedupe-Nodup (w ∷ zs) seen = elim (Bool-cases (contains seen (canonical w))) [
  | inl e ↦ rw (e, dedupe) (dedupe-Nodup zs seen)
  | inr e ↦
      rw (e, dedupe)
        (Nodup-cons.1 (fresh_tail (canonical w) zs seen, dedupe-Nodup zs (canonical w ∷ seen)))
]

pub canonical_zones-Nodup : (zs : List Text) → Nodup (canonical_zones zs)
unfolding canonical_zones
canonical_zones-Nodup zs = Perm.nodup (Perm.symm (sort-perm lt (dedupe [] zs))) (dedupe-Nodup zs [])

dedupe_kept :
    (zs : List Text) (z : Text) → contains (map canonical zs) z ≡ contains (dedupe [] zs) z
dedupe_kept zs z = let e = contains-dedupe zs [] z in unfold contains in ground (arith, e)

mem-dedupe : (zs : List Text) (z : Text) → Mem z (dedupe [] zs) ↔ Mem z (map canonical zs)
mem-dedupe zs z = (
  λ m. contains→mem _ z (dedupe_kept zs z ∙ mem→contains _ z m),
  λ m. contains→mem _ z (sym (dedupe_kept zs z) ∙ mem→contains _ z m),
)

-- A zone is among the canonical zones exactly when it is the canonical form of a listed name.
pub mem-canonical_zones :
    (zs : List Text) (z : Text) → Mem z (canonical_zones zs) ↔ Mem z (map canonical zs)
unfolding canonical_zones
mem-canonical_zones zs z =
    let permuted = Perm.mem_iff (sort-perm lt (dedupe [] zs)) in
    (λ m. (mem-dedupe zs z).0 (permuted.0 m), λ m. permuted.1 ((mem-dedupe zs z).1 m))

-- Two lists of names with the same canonical forms have the same canonical zones: spelling,
-- order and repetition of the names leave no trace.
pub canonical_zones_unique :
    (xs ys : List Text)
    → ((z : Text) → Mem z (map canonical xs) ↔ Mem z (map canonical ys))
    → canonical_zones xs ≡ canonical_zones ys
unfolding canonical_zones
canonical_zones_unique xs ys h =
    sort_unique lt lt-StrictOrder Text-set
      ((perm_ext_iff_of_Nodup (dedupe-Nodup xs []) (dedupe-Nodup ys [])).1 λ z. (
        λ m. (mem-dedupe ys z).1 ((h z).0 ((mem-dedupe xs z).0 m)),
        λ m. (mem-dedupe xs z).1 ((h z).1 ((mem-dedupe ys z).0 m)),
      ))
      (lt-Separates _)
