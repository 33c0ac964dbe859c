-- ===== src/Base/Items.antt =====
-- Items of a list by their index, with native numbers.
use zoneroute.Base.{ℕ, zero, suc, ◌+◌, ◌≤◌, List, [], ◌∷◌, ◌++◌, ◌≡◌, refl, ap, arith}
use zoneroute.Base.Lists.{length}

module _ {ℓ} {A : Type ℓ} where
  unfoldable pub take : ℕ → List A → List A
  take zero l = []
  take (suc n) [] = []
  take (suc n) (x ∷ l) = x ∷ take n l

  unfoldable pub drop : ℕ → List A → List A
  drop zero l = l
  drop (suc n) [] = []
  drop (suc n) (x ∷ l) = drop n l

  unfoldable pub replicate : ℕ → A → List A
  replicate zero a = []
  replicate (suc n) a = a ∷ replicate n a

  unfoldable pub get_or : List A → ℕ → A → A
  get_or [] i d = d
  get_or (x ∷ l) zero d = x
  get_or (x ∷ l) (suc i) d = get_or l i d

  -- A write out of range changes nothing.
  unfoldable pub set : List A → ℕ → A → List A
  set [] i v = []
  set (x ∷ l) zero v = v ∷ l
  set (x ∷ l) (suc i) v = x ∷ set l i v

  -- `copy(dst, src)`: the items of `src` in place of the first of `dst`, as many as both have.
  unfoldable pub overwrite : List A → List A → List A
  overwrite dst [] = dst
  overwrite [] (y ∷ src) = []
  overwrite (x ∷ dst) (y ∷ src) = y ∷ overwrite dst src

  pub length-replicate : (n : ℕ) (a : A) → length (replicate n a) ≡ n
  unfolding replicate
  length-replicate zero a = refl
  length-replicate (suc n) a = ap suc (length-replicate n a)

  pub overwrite_all : (dst src : List A) → length dst ≡ length src → overwrite dst src ≡ src
  unfolding overwrite
  overwrite_all [] [] h = refl
  overwrite_all [] (y ∷ src) h = absurd (omega (arith, h))
  overwrite_all (x ∷ dst) [] h = absurd (omega (arith, h))
  overwrite_all (x ∷ dst) (y ∷ src) h = ap (◌∷◌ y) (overwrite_all dst src (omega (arith, h)))

  pub length-take : (n : ℕ) (l : List A) → n ≤ length l → length (take n l) ≡ n
  unfolding take
  length-take zero l h = refl
  length-take (suc n) [] h = absurd (omega (arith, h))
  length-take (suc n) (x ∷ l) h = ap suc (length-take n l (omega (arith, h)))

  pub length-drop : (n : ℕ) (l : List A) → n ≤ length l → length (drop n l) + n ≡ length l
  unfolding drop
  length-drop zero l h = omega arith
  length-drop (suc n) [] h = absurd (omega (arith, h))
  length-drop (suc n) (x ∷ l) h = omega (arith, length-drop n l)

  pub take_all : (l : List A) → take (length l) l ≡ l
  unfolding take
  take_all [] = refl
  take_all (x ∷ l) = ap (◌∷◌ x) (take_all l)

  -- The item after `front`.
  pub get_or-append :
      (front : List A) (x : A) (l : List A) (d : A) → get_or (front ++ x ∷ l) (length front) d ≡ x
  unfolding get_or
  get_or-append [] x l d = refl
  get_or-append (y ∷ front) x l d = get_or-append front x l d

  pub set-append :
      (front : List A) (x : A) (l : List A) (v : A)
      → set (front ++ x ∷ l) (length front) v ≡ front ++ v ∷ l
  unfolding set
  set-append [] x l v = refl
  set-append (y ∷ front) x l v = ap (◌∷◌ y) (set-append front x l v)

  pub length-set : (l : List A) (i : ℕ) (v : A) → length (set l i v) ≡ length l
  unfolding set
  length-set [] i v = refl
  length-set (x ∷ l) zero v = refl
  length-set (x ∷ l) (suc i) v = ap suc (length-set l i v)
