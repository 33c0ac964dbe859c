-- ===== src/Sort/Unique.antt =====
-- The sort permutes its input, orders it, and does not depend on the order of its input where
-- `less` tells the items apart.
use mathlib.Core.Logic.{∥∥₁_elim}
use mathlib.Core.List.{
  Perm, Permᴰ, Pairwise, Mem, mem-cons, mem-cons_self, mem-cons_of_mem, not-mem-nil,
}
use mathlib.Core.Logic.Or
use mathlib.Core.Bool.{Bool-set}
use mathlib.Core.List.Perm
use zoneroute.Base.{
  Bool, true, List, [], ◌∷◌, ◌≡◌, refl, sym, subst, false, ◌∙◌, inl, inr, arith, Bool-cases,
}
use zoneroute.Sort.{StrictOrder, insert, sort, Comparable, Separates, IsSorted, nil, one, more}

module _ {ℓ} {A : Type ℓ} (less : A → A → Bool) where
  insert-perm : (x : A) (l : List A) → Perm (insert less x l) (x ∷ l)
  unfolding insert
  insert-perm x [] = Perm.refl (x ∷ [])
  insert-perm x (y ∷ ys) = elim (Bool-cases (less y x)) [
    | inl h ↦ rw h (Perm.trans (Perm.cons y (insert-perm x ys)) (Perm.swap x y ys))
    | inr h ↦ rw h (Perm.refl (x ∷ y ∷ ys))
  ]

  pub sort-perm : (l : List A) → Perm (sort less l) l
  unfolding sort
  sort-perm [] = Perm.refl []
  sort-perm (x ∷ xs) = Perm.trans (insert-perm x (sort less xs)) (Perm.cons x (sort-perm xs))

module _ {ℓ} {A : Type ℓ} (less : A → A → Bool) (o : StrictOrder less) where
  IsSorted-insert_cons :
      (x y : A) (l : List A)
      → less y x ≡ true
      → IsSorted less (y ∷ l)
      → IsSorted less (insert less x l)
      → IsSorted less (y ∷ insert less x l)
  unfolding insert
  IsSorted-insert_cons x y [] h s t = more (o.asym y x h) t
  IsSorted-insert_cons x y (z ∷ l) h (more k s) t = elim (Bool-cases (less z x)) [
    | inl e ↦ rw e (more k (rw e at t))
    | inr e ↦ rw e (more (o.asym y x h) (rw e at t))
  ]

  IsSorted-tail : {x : A} {l : List A} → IsSorted less (x ∷ l) → IsSorted less l
  IsSorted-tail (one x) = nil
  IsSorted-tail (more h s) = s

  insert-IsSorted : (x : A) (l : List A) → IsSorted less l → IsSorted less (insert less x l)
  unfolding insert
  insert-IsSorted x [] s = one x
  insert-IsSorted x (y ∷ ys) s = elim (Bool-cases (less y x)) [
    | inl h ↦ rw h (IsSorted-insert_cons x y ys h s (insert-IsSorted x ys (IsSorted-tail s)))
    | inr h ↦ rw h (more h s)
  ]

  pub sort-IsSorted : (l : List A) → IsSorted less (sort less l)
  unfolding sort
  sort-IsSorted [] = nil
  sort-IsSorted (x ∷ xs) = insert-IsSorted x (sort less xs) (sort-IsSorted xs)

  insert_comm :
      (x y : A) (l : List A)
      → Comparable less x y
      → insert less x (insert less y l) ≡ insert less y (insert less x l)
  unfolding insert
  insert_comm x y [] c = ground (arith, o.asym x y, o.asym y x)
  insert_comm x y (z ∷ l) c =
      ground (arith, insert_comm x y l c, o.asym x y, o.asym y x, o.cotrans z x y, o.cotrans z y x)

  Separates-tail : {x : A} {l : List A} → Separates less (x ∷ l) → Separates less l
  Separates-tail t a b ma mb = t a b (mem-cons_of_mem _ ma) (mem-cons_of_mem _ mb)

  sort-Permᴰ : {l m : List A} → Permᴰ l m → Separates less l → sort less l ≡ sort less m
  unfolding sort
  sort-Permᴰ Permᴰ.nil t = refl
  sort-Permᴰ (Permᴰ.cons {a} e p) t = cc (e, sort-Permᴰ p (Separates-tail t))
  sort-Permᴰ (Permᴰ.swap {a} {b} {l} e f) t =
      insert_comm a b (sort less l) (t a b mem-cons_self (mem-cons_of_mem _ mem-cons_self))
      ∙ cc (e, f)
  sort-Permᴰ (Permᴰ.trans p q) t =
      sort-Permᴰ p t
      ∙ sort-Permᴰ q (λ a b ma mb. t a b ((Perm.mem_iff ∣ p ∣₁).1 ma) ((Perm.mem_iff ∣ p ∣₁).1 mb))

  -- Lists that hold the same items in any order sort to the same list.
  pub sort_unique :
      IsSet A → {l m : List A} → Perm l m → Separates less l → sort less l ≡ sort less m
  sort_unique is_set p t = ∥∥₁_elim p (hlevel is_set) (λ q. sort-Permᴰ q t)

-- In a sorted list no item is less than any before it.
IsSorted-Pairwise_cons {ℓ} :
    {A : Type ℓ} (less : A → A → Bool) (o : StrictOrder less) (l : List A) (x : A)
    → IsSorted less (x ∷ l)
    → (y : A) → Mem y l
    → less y x ≡ false
IsSorted-Pairwise_cons less o [] x s y m = absurd (not-mem-nil m)
IsSorted-Pairwise_cons less o (z ∷ l) x (more h s) y m =
    Or.elim (Bool-set _ _) (mem-cons.0 m) (λ e. subst (λ w. less w x ≡ false) (sym e) h)
      (λ r.
        let k = IsSorted-Pairwise_cons less o l z s y r in ground (arith, h, k, o.cotrans y x z))

pub IsSorted-Pairwise {ℓ} :
    {A : Type ℓ} (less : A → A → Bool) (o : StrictOrder less) (l : List A)
    → IsSorted less l
    → Pairwise (λ a b. less b a ≡ false) l
IsSorted-Pairwise less o [] s = Pairwise.nil
IsSorted-Pairwise less o (x ∷ l) s =
    Pairwise.cons (IsSorted-Pairwise_cons less o l x s)
      (IsSorted-Pairwise less o l (IsSorted-tail less o s))
