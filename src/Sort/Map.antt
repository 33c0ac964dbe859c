-- ===== src/Sort/Map.antt =====
-- Sorting commutes with a function that keeps the order.
use zoneroute.Base.{Bool, List, [], ◌∷◌, map, ◌≡◌, refl, ◌∙◌, ap, inl, inr, Bool-cases}
use zoneroute.Sort.{insert, sort}

module _ {ℓ} {A : Type ℓ} (less : A → A → Bool) (f : A → A)
    (kept : (a b : A) → less (f a) (f b) ≡ less a b) where
  insert-map : (x : A) (l : List A) → insert less (f x) (map f l) ≡ map f (insert less x l)
  unfolding insert
  insert-map x [] = refl
  insert-map x (y ∷ l) = elim (Bool-cases (less y x)) [
    | inl e ↦ rw (kept y x, insert) (rw (e, insert) (ap (◌∷◌ (f y)) (insert-map x l)))
    | inr e ↦ rw (kept y x, insert) (rw (e, insert) refl)
  ]

  pub sort-map : (l : List A) → sort less (map f l) ≡ map f (sort less l)
  unfolding sort
  sort-map [] = refl
  sort-map (x ∷ l) = ap (insert less (f x)) (sort-map l) ∙ insert-map x (sort less l)
