-- ===== src/Api/Schema/Unique.antt =====
-- The schema's rule on unique zones and the controller's canonical names.
use mathlib.Core.List.{
  Mem, Nodup, Nodup-cons, Nodup-nil, Perm, mem-cons, mem-cons_self, mem-cons_of_mem, mem-map,
  not-mem-nil, append_cancel_right, perm_ext_iff_of_Nodup,
}
use mathlib.Core.List.Perm
use mathlib.Core.Logic.Or
use mathlib.Core.Bool.{Bool-set}
use mathlib.Core.Logic.{∥∥₁_elim}
use mathlib.Core.HLevel.{⊥_prop}
use zoneroute.Base.{
  ℕ, Bool, true, List, [], ◌∷◌, ◌++◌, map, ◌≡◌, ◌↔◌, refl, ◌∙◌, ap, sym, subst, arith, ◌==◌,
}
use zoneroute.Base.Lists.{filter, length}
use zoneroute.Base.Counts.{ℕ-set, count, Once-Nodup, Nodup-Once}
use zoneroute.Text.{Text, same}
use zoneroute.Text.Order.{same_iff}
use zoneroute.Dnsname.{dot, canonical}
use zoneroute.Dnsname.Trim.{canonical-cut}
use zoneroute.Conflict.{canonical_zones}
use zoneroute.Conflict.Zones.{mem-canonical_zones, canonical_zones-Nodup}
use zoneroute.Api.Schema.{all, normalized, unique_zones}

pub all_iff :
    {A : Type 0} (p : A → Bool) (l : List A) → (all p l ≡ true) ↔ ((x : A) → Mem x l → p x ≡ true)
unfolding all
all_iff p [] = (λ h x m. absurd (not-mem-nil m), λ h. refl)
all_iff p (y ∷ l) = (
  λ h x m.
      let here : p y ≡ true = ground (arith, h) in
      let there : all p l ≡ true = ground (arith, h) in
      Or.elim (Bool-set _ _) (mem-cons.0 m) (λ e. ap p e ∙ here) ((all_iff p l).0 there x),
  λ h.
      let rest = (all_iff p l).1 (λ x m. h x (mem-cons_of_mem y m)) in
      ground (arith, h y mem-cons_self, rest),
)

is_one : (n : ℕ) → n == 1 ≡ true → n ≡ 1
is_one n h = ground (arith, h)

-- The rule "all items are unique by their keys", for keys of any type.
module _ {A B : Type 0} (eq : A → A → Bool) (eq_iff : (a b : A) → (eq a b ≡ true) ↔ (a ≡ b))
    (key : B → A) where
  abbrev pub unique_rule : List B → Bool
  unique_rule l = all (λ i. length (filter (λ j. eq (key j) (key i)) l) == 1) l

  matches-count :
      (k : A) (l : List B) → length (filter (λ j. eq (key j) k) l) ≡ count eq eq_iff k (map key l)
  unfolding count filter mathlib.Core.List.filter_map
  matches-count k [] = refl
  matches-count k (z ∷ l) = ground (arith, matches-count k l)

  pub unique_rule-Nodup : (l : List B) → (unique_rule l ≡ true) ↔ Nodup (map key l)
  unique_rule-Nodup l =
      let rule = all_iff (λ i. length (filter (λ j. eq (key j) (key i)) l) == 1) l in
      (
        λ h. Once-Nodup eq eq_iff (map key l) λ k m.
            ∥∥₁_elim (mem-map.0 m) (ℕ-set _ _) λ (z, mz, e).
              subst (λ t. count eq eq_iff t (map key l) ≡ 1) e
                (sym (matches-count (key z) l) ∙ is_one _ (rule.0 h z mz)),
        λ d. rule.1 λ z mz.
            let once =
              matches-count (key z) l
              ∙ Nodup-Once eq eq_iff (map key l) d (key z) (mem-map.1 ∣ (z, mz, refl) ∣₁) in
            ground (arith, once),
      )

unique_zones-Nodup :
    (zones : List Text) → (unique_zones zones ≡ true) ↔ Nodup (map normalized zones)
unfolding unique_zones
unique_zones-Nodup zones = unique_rule-Nodup same same_iff normalized zones

pub canonical-normalized : (z : Text) → canonical z ≡ normalized z ++ dot
unfolding normalized
canonical-normalized z = canonical-cut z

Nodup-transfer :
    (f g : Text → Text) (l : List Text)
    → ((x y : Text) → f x ≡ f y → g x ≡ g y)
    → Nodup (map g l)
    → Nodup (map f l)
Nodup-transfer f g [] h d = Nodup-nil
Nodup-transfer f g (x ∷ l) h d =
    let (fresh, rest) = Nodup-cons.0 d in
    Nodup-cons.1 (
      λ m. ∥∥₁_elim (mem-map.0 m) ⊥_prop λ (y, my, e). fresh (mem-map.1 ∣ (y, my, h y x e) ∣₁),
      Nodup-transfer f g l h rest,
    )

-- Equal canonical names are equal normalized names, and the other way round.
Nodup-canonical : (zones : List Text) → Nodup (map normalized zones) ↔ Nodup (map canonical zones)
Nodup-canonical zones = (
  Nodup-transfer canonical normalized zones (λ x y e.
      append_cancel_right _ _ dot (sym (canonical-normalized x) ∙ e ∙ canonical-normalized y)),
  Nodup-transfer normalized canonical zones
      (λ x y e. canonical-normalized x ∙ ap (λ t. t ++ dot) e ∙ sym (canonical-normalized y)),
)

-- The schema takes a list of zones, as far as its rule on unique zones goes, exactly when
-- `canonicalZones` drops none of them: when its result is the canonical names of all of them, in
-- some order.
pub unique_zones-Perm :
    (zones : List Text)
    → (unique_zones zones ≡ true) ↔ Perm (canonical_zones zones) (map canonical zones)
unique_zones-Perm zones = (
  λ h.
      let distinct = (Nodup-canonical zones).0 ((unique_zones-Nodup zones).0 h) in
      (perm_ext_iff_of_Nodup (canonical_zones-Nodup zones) distinct).1 (mem-canonical_zones zones),
  λ p.
      (unique_zones-Nodup zones).1
        ((Nodup-canonical zones).1 (Perm.nodup p (canonical_zones-Nodup zones))),
)
