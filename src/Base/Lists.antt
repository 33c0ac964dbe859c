-- ===== src/Base/Lists.antt =====
-- Lists measured by native numbers, filters by a Boolean test, and predicates over lists.
use mathlib.Core.List.{filter_map, Mem, Mem-prop, Perm, mem-filter_map}
use mathlib.Core.List.Perm
use mathlib.Core.Logic.{∥∥₁_elim}
use mathlib.Core.HLevel.{×_prop}
use mathlib.Core.Bool.{Bool-set}
use zoneroute.Base.{
  ℕ, suc, ◌+◌, Bool, true, false, ◌||◌, List, [], ◌∷◌, ◌++◌, ◌≡◌, subst, ◌↔◌, Option, none, some,
  arith, if◌then◌else◌,
}

module _ {ℓ} {A : Type ℓ} where
  abbrev pub length : List A → ℕ
  length [] = 0
  length (x ∷ xs) = suc (length xs)

  pub length-append : (xs ys : List A) → length (xs ++ ys) ≡ length xs + length ys
  length-append [] ys = omega arith
  length-append (x ∷ xs) ys = omega (arith, length-append xs ys)

  abbrev pub keep_if : (A → Bool) → A → Option A
  keep_if p x = if p x then some x else none

  -- The items that pass the test, in their order.
  unfoldable pub filter : (A → Bool) → List A → List A
  unfolding filter_map
  filter p = filter_map (keep_if p)

  unfoldable pub any : (A → Bool) → List A → Bool
  any p [] = false
  any p (x ∷ xs) = p x || any p xs

  -- `len(xs) > 0`
  unfoldable pub nonempty : List A → Bool
  nonempty [] = false
  nonempty (x ∷ xs) = true

  abbrev pub All {κ} : (A → Type κ) → List A → Type κ
  All P [] = Unit
  All P (x ∷ xs) = P x × All P xs

module _ {ℓ} {A : Type ℓ} (p : A → Bool) where
  keep_if-some : (a x : A) → keep_if p a ≡ some x → (a ≡ x) × (p a ≡ true)
  keep_if-some a x h = ground arith

  filter-mem : (l : List A) {x : A} → Mem x (filter p l) → Mem x l × (p x ≡ true)
  unfolding filter
  filter-mem l {x} m =
      ∥∥₁_elim ((mem-filter_map (keep_if p) l).0 m) (×_prop Mem-prop (Bool-set _ _)) λ (a, ma, e).
        let (q, t) = keep_if-some a x e in (subst (λ y. Mem y l) q ma, subst (λ y. p y ≡ true) q t)

  pub mem-filter : (l : List A) {x : A} → Mem x (filter p l) ↔ (Mem x l × (p x ≡ true))
  unfolding filter
  mem-filter l {x} = (filter-mem l, λ (m, t). (mem-filter_map (keep_if p) l).1 ∣ (x, m, rw t) ∣₁)

  pub filter-perm : {l m : List A} → Perm l m → Perm (filter p l) (filter p m)
  unfolding filter
  filter-perm h = Perm.filter_map (keep_if p) h
