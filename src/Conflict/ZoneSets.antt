-- ===== src/Conflict/ZoneSets.antt =====
-- The zones of a route as a set: `canonicalZones` picks one list for each set of names.
use mathlib.Core.Equiv.{IsEquiv, iso_to_equiv}
use mathlib.Core.HLevel.{Σ_prop_path}
use mathlib.Core.List
use mathlib.Core.List.{Mem, Mem-prop, mem-map}
use mathlib.Core.Logic.{∥∥₁_elim}
use mathlib.Core.Quot
use mathlib.Core.Quot.{Quot, Quot-set}
use zoneroute.Base.{List, map, ◌≡◌, ◌↔◌, ◌∙◌, sym, ap, subst}
use zoneroute.Text.{Text}
use zoneroute.Dict.{Text-set}
use zoneroute.Dnsname.{canonical}
use zoneroute.Dnsname.Canonical.{canonical_idem}
use zoneroute.Conflict.{canonical_zones}
use zoneroute.Conflict.Zones.{mem-canonical_zones, canonical_zones_unique}

-- The lists name the same zones, whatever the spelling, the order and the repetitions.
abbrev pub SameZones : List Text → List Text → Type 0
SameZones xs ys = (z : Text) → Mem z (map canonical xs) ↔ Mem z (map canonical ys)

-- Sets of zones.
abbrev pub ZoneSet : Type 0
ZoneSet = Quot SameZones

-- The lists that `canonicalZones` leaves as they are.
abbrev pub NormalZones : Type 0
NormalZones = (l : List Text) × (canonical_zones l ≡ l)

canonical_fixed : (xs : List Text) (y : Text) → Mem y (map canonical xs) → canonical y ≡ y
canonical_fixed xs y m =
    ∥∥₁_elim (mem-map.0 m) (Text-set _ _) λ (w, mw, e). ap canonical (sym e) ∙ canonical_idem w ∙ e

-- The canonical zones name the zones that they were made of.
canonical_zones-SameZones : (xs : List Text) → SameZones (canonical_zones xs) xs
canonical_zones-SameZones xs z = (
  λ m. ∥∥₁_elim (mem-map.0 m) Mem-prop λ (y, my, e).
      let listed = (mem-canonical_zones xs y).0 my in
      subst (λ t. Mem t (map canonical xs)) (sym (canonical_fixed xs y listed) ∙ e) listed,
  λ m. mem-map.1 ∣ (z, (mem-canonical_zones xs z).1 m, canonical_fixed xs z m) ∣₁,
)

zones-set : IsSet (List Text)
zones-set = List.is_set Text-set

NormalZones-set : IsSet NormalZones
NormalZones-set = hlevel zones-set

-- The one list of a set of zones that `canonicalZones` leaves as it is.
pub normal_zones : ZoneSet → NormalZones
normal_zones =
    Quot.lift NormalZones-set
      (λ xs. (
        canonical_zones xs,
        canonical_zones_unique (canonical_zones xs) xs (canonical_zones-SameZones xs),
      ))
      (λ xs ys h. Σ_prop_path (λ l. zones-set _ _) (canonical_zones_unique xs ys h))

-- `canonicalZones` picks one list for each set of zones: names that differ in spelling, order and
-- repetition only are one set, and each set has exactly one list that `canonicalZones` leaves as it
-- is.
pub normal_zones-IsEquiv : IsEquiv normal_zones
unfolding normal_zones
normal_zones-IsEquiv =
    (iso_to_equiv (record {
      fun = normal_zones;
      inv = λ n. Quot.mk n.0;
      rinv = λ n. Σ_prop_path (λ l. zones-set _ _) n.1;
      linv = Quot.ind (λ q. Quot-set _ _) (λ xs. Quot.sound (canonical_zones-SameZones xs));
    })).1
