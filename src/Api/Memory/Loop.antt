-- ===== src/Api/Memory/Loop.antt =====
-- What the loop over a slice leaves in the new array: the copies of the items, in their order.
use zoneroute.Base.{ℕ, suc, ◌+◌, List, [], ◌∷◌, ◌++◌, ◌≡◌, ◌≢◌, refl, ◌∙◌, sym, ap, subst, arith}
use zoneroute.Base.Lists.{length, length-append}
use zoneroute.Base.Items.{replicate, get_or, set, length-replicate, get_or-append, set-append}
use zoneroute.Api.Memory.{Arena, Slice, put, alloc, items, make, store, copy_each}
use zoneroute.Api.Memory.Slices.{
  Grows, IsWithinBlock, Grows-alloc, alloc-at, put-at, put-other, items-block, items_whole,
  length-items,
}
use mathlib.Core.List.{append_assoc}

module _ {A S : Type 0} (into : S → A → S × A) where
  -- The copies of a list of values, one after the other.
  unfoldable pub copy_list : S → List A → S × List A
  copy_list s [] = (s, [])
  copy_list s (x ∷ l) = let (s', v) = into s x in let (s'', vs) = copy_list s' l in (s'', v ∷ vs)

  pub length-copy_list : (s : S) (l : List A) → length (copy_list s l).1 ≡ length l
  unfolding copy_list
  length-copy_list s [] = refl
  length-copy_list s (x ∷ l) = ap suc (length-copy_list (into s x).0 l)

  -- One array is filled, and nothing else is touched.
  pub record IsFilled (ar ar' : Arena A) (a : ℕ) (l : List A) : Type 0 where
    pub next : ar'.next ≡ ar.next
    pub filled : ar'.block a ≡ l
    pub others : (p : ℕ) → p ≢ a → ar'.block p ≡ ar.block p

  store-block :
      (ar : Arena A) (to : Slice) (done zeros : List A) (z v : A) (i : ℕ)
      → to.offset ≡ 0
      → length done ≡ i
      → ar.block to.address ≡ done ++ z ∷ zeros
      → (store ar to i v).block to.address ≡ done ++ v ∷ zeros
  unfolding store
  store-block ar to done zeros z v i o at fill =
      let index : to.offset + i ≡ length done = omega (arith, o, at) in
      put-at ar to.address _
      ∙ ap (λ l. set l (to.offset + i) v) fill
      ∙ ap (λ n. set (done ++ z ∷ zeros) n v) index
      ∙ set-append done z zeros v

  IsFilled-store :
      (ar : Arena A) (to : Slice) (i : ℕ) (v : A) {ar' : Arena A} {l : List A}
      → IsFilled (store ar to i v) ar' to.address l
      → IsFilled ar ar' to.address l
  unfolding store put
  IsFilled-store ar to i v f = record {
    next = f.next;
    filled = f.filled;
    others = λ p h. f.others p h ∙ put-other ar to.address _ p h;
  }

  items-store :
      (ar : Arena A) (to from : Slice) (i : ℕ) (v : A)
      → from.address ≢ to.address
      → items (store ar to i v) from ≡ items ar from
  unfolding store
  items-store ar to from i v apart =
      items-block ar _ from (put-other ar to.address _ from.address apart)

  -- The loop from the index `i` on, where `front` has been copied to `done`.
  copy_each-IsFilled :
      (zero_value : A) (s : S) (ar : Arena A) (to from : Slice) (i : ℕ)
      (front done rest zeros : List A)
      → to.offset ≡ 0
      → from.address ≢ to.address
      → items ar from ≡ front ++ rest
      → length front ≡ i
      → length done ≡ i
      → length zeros ≡ length rest
      → ar.block to.address ≡ done ++ zeros
      → ((copy_each into zero_value s ar to from i (length rest)).0 ≡ (copy_list s rest).0)
        × IsFilled ar
            (copy_each into zero_value s ar to from i (length rest)).1
            to.address
            (done ++ (copy_list s rest).1)
  unfolding copy_each copy_list
  copy_each-IsFilled zero_value s ar to from i front done [] [] o apart whole read at zeros fill =
      (refl, record { next = refl; filled = fill; others = λ p h. refl })
  copy_each-IsFilled zero_value s ar to from i front done [] (z ∷ zs) o apart whole read at zeros
        fill =
      absurd (omega (arith, zeros))
  copy_each-IsFilled zero_value s ar to from i front done (x ∷ rest) [] o apart whole read at zeros
        fill =
      absurd (omega (arith, zeros))
  copy_each-IsFilled zero_value s ar to from i front done (x ∷ rest) (z ∷ zs) o apart whole read at
        zeros fill =
      let item : get_or (items ar from) i zero_value ≡ x =
        ap (λ l. get_or l i zero_value) whole
        ∙ ap (λ n. get_or (front ++ x ∷ rest) n zero_value) (sym read)
        ∙ get_or-append front x rest zero_value in
      let v = (into s x).1 in
      let next_ar = store ar to i v in
      let (states, f) =
        copy_each-IsFilled zero_value (into s x).0 next_ar to from (suc i) (front ++ x ∷ [])
          (done ++ v ∷ []) rest zs o apart
          (items-store ar to from i v apart ∙ whole ∙ sym (append_assoc front (x ∷ []) rest))
          (length-append front (x ∷ []) ∙ omega (arith, read))
          (length-append done (v ∷ []) ∙ omega (arith, at)) (omega (arith, zeros))
          (store-block ar to done zs z v i o at fill ∙ sym (append_assoc done (v ∷ []) zs)) in
      rw (item, copy_each)
        (
          states,
          IsFilled-store ar to i v (
              subst (IsFilled next_ar _ to.address)
                (append_assoc done (v ∷ []) (copy_list (into s x).0 rest).1) f),
        )

  module _ (zero_value : A) (s : S) (ar : Arena A) (from : Slice)
      (valid : IsWithinBlock ar from) where
    -- The array of zero values, and the slice of it.
    abbrev fresh : Arena A
    fresh = alloc ar (replicate from.count zero_value)

    abbrev to : Slice
    to = record { address = ar.next; offset = 0; count = from.count }

    loop-IsFilled :
        ((copy_each into zero_value s fresh to from 0 from.count).0
          ≡ (copy_list s (items ar from)).0)
        × IsFilled fresh
            (copy_each into zero_value s fresh to from 0 from.count).1
            to.address
            (copy_list s (items ar from)).1
    loop-IsFilled =
        let old = items ar from in
        subst
          (λ k.
            ((copy_each into zero_value s fresh to from 0 k).0 ≡ (copy_list s old).0)
            × IsFilled fresh (copy_each into zero_value s fresh to from 0 k).1 to.address
                (copy_list s old).1)
          (length-items ar from valid)
          (copy_each-IsFilled zero_value s fresh to from 0 [] [] old
            (replicate from.count zero_value) refl (omega (arith, valid.in_use))
            (items-block ar fresh from ((Grows-alloc ar _).same from.address valid.in_use)) refl
            refl (length-replicate from.count zero_value ∙ sym (length-items ar from valid))
            (alloc-at ar _))

    -- `make` and the loop, on a slice that is in use: the new slice holds the copies.
    pub copy_each-make :
        let (fresh, to) = make zero_value ar from.count in
        let done = copy_each into zero_value s fresh to from 0 from.count in
        (done.0 ≡ (copy_list s (items ar from)).0)
        × (items done.1 to ≡ (copy_list s (items ar from)).1)
        × Grows ar done.1
        × IsWithinBlock done.1 to
    unfolding make alloc
    copy_each-make =
        let (states, f) = loop-IsFilled in
        let size = length-copy_list s (items ar from) ∙ length-items ar from valid in
        (
          states,
          items_whole _ to _ refl (sym size) f.filled,
          record {
            further = omega (arith, f.next);
            same = λ p h. f.others p (omega (arith, h)) ∙ (Grows-alloc ar _).same p h;
          },
          record {
            in_use = omega (arith, f.next);
            in_range = omega (arith, size, ap (λ (l : List A). length l) f.filled);
          },
        )
