-- ===== src/Sort.antt =====
-- `sort.Strings`, `sort.Slice` and `sort.SliceStable`: a stable sort by a Boolean `less`. The
-- result of a stable sort is unique, so insertion stands for the algorithm of package `sort`.
pub mod Unique
pub mod Map
use mathlib.Core.List.{Mem}
use zoneroute.Base.{Bool, true, false, List, [], ◌∷◌, ◌≡◌, ◌⊎◌, if◌then◌else◌}

-- A strict weak order.
pub record StrictOrder {ℓ} {A : Type ℓ} (less : A → A → Bool) : Type ℓ where
  pub asym : (a b : A) → less a b ≡ true → less b a ≡ false
  pub cotrans : (a c b : A) → less a c ≡ true → (less a b ≡ true) ⊎ (less b c ≡ true)

module _ {ℓ} {A : Type ℓ} (less : A → A → Bool) where
  -- `x` goes before its equals, which stood behind it.
  unfoldable pub insert : A → List A → List A
  insert x [] = x ∷ []
  insert x (y ∷ ys) = let rest = insert x ys in if less y x then y ∷ rest else x ∷ y ∷ ys

  unfoldable pub sort : List A → List A
  sort [] = []
  sort (x ∷ xs) = insert x (sort xs)

  -- `less` tells the two apart, or they are one.
  abbrev pub Comparable : A → A → Type ℓ
  Comparable a b = less a b ≡ false → less b a ≡ false → a ≡ b

  -- `less` tells the items of the list apart.
  abbrev pub Separates : List A → Type ℓ
  Separates l = (a b : A) → Mem a l → Mem b l → Comparable a b

  -- No item is less than one before it.
  pub data IsSorted : List A → Type ℓ where
    nil : IsSorted []
    one : (x : A) → IsSorted (x ∷ [])
    more : {x y : A} {l : List A} → less y x ≡ false → IsSorted (y ∷ l) → IsSorted (x ∷ y ∷ l)
