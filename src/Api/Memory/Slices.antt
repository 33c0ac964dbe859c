-- ===== src/Api/Memory/Slices.antt =====
-- What a slice reads as memory grows, and what `make` and `copy` return.
use mathlib.Core.Option
use zoneroute.Base.{ℕ, ◌+◌, ◌≤◌, ◌<◌, List, Option, none, some, ◌≡◌, ◌≢◌, refl, ◌∙◌, ap, arith}
use zoneroute.Base.Lists.{length}
use zoneroute.Base.Items.{take, drop, length-take, length-drop, take_all}
use zoneroute.Api.Memory.{Arena, Slice, put, alloc, items}

-- The slice's array stands at the address `floor` or above.
abbrev pub IsAbove : ℕ → Option Slice → Type 0
IsAbove floor none = Unit
IsAbove floor (some s) = floor ≤ s.address

pub IsAbove-le : (m n : ℕ) (s : Option Slice) → m ≤ n → IsAbove n s → IsAbove m s
IsAbove-le m n none h a = tt
IsAbove-le m n (some s) h a = omega (arith, h, a)

module _ {A : Type 0} where
  -- What was in use is still there, as it was.
  pub record Grows (ar ar' : Arena A) : Type 0 where
    pub further : ar.next ≤ ar'.next
    pub same : (p : ℕ) → p < ar.next → ar'.block p ≡ ar.block p

  -- What is in use from the address `floor` on is as it was.
  pub record SameAbove (floor : ℕ) (ar ar' : Arena A) : Type 0 where
    pub same : (p : ℕ) → floor ≤ p → ar'.block p ≡ ar.block p

  -- The slice lies in an array that is in use.
  pub record IsWithinBlock (ar : Arena A) (s : Slice) : Type 0 where
    pub in_use : s.address < ar.next
    pub in_range : s.offset + s.count ≤ length (ar.block s.address)

  abbrev pub IsValid : Arena A → Option Slice → Type 0
  IsValid ar none = Unit
  IsValid ar (some s) = IsWithinBlock ar s

  -- The items of a slice; `none` is the nil slice.
  abbrev pub read : Arena A → Option Slice → Option (List A)
  read ar s = Option.map (items ar) s

  pub Grows-refl : (ar : Arena A) → Grows ar ar
  Grows-refl ar = record { further = omega arith; same = λ p h. refl }

  pub Grows-trans : (a b c : Arena A) → Grows a b → Grows b c → Grows a c
  Grows-trans a b c g h = record {
    further = omega (arith, g.further, h.further);
    same = λ p l. h.same p (omega (arith, l, g.further)) ∙ g.same p l;
  }

  pub items-block :
      (ar ar' : Arena A) (s : Slice)
      → ar'.block s.address ≡ ar.block s.address
      → items ar' s ≡ items ar s
  unfolding items
  items-block ar ar' s e = ap (λ l. take s.count (drop s.offset l)) e

  pub read-Grows :
      (ar ar' : Arena A) (s : Option Slice) → IsValid ar s → Grows ar ar' → read ar' s ≡ read ar s
  read-Grows ar ar' none v g = refl
  read-Grows ar ar' (some s) v g = ap some (items-block ar ar' s (g.same s.address v.in_use))

  pub IsValid-Grows :
      (ar ar' : Arena A) (s : Option Slice) → IsValid ar s → Grows ar ar' → IsValid ar' s
  IsValid-Grows ar ar' none v g = tt
  IsValid-Grows ar ar' (some s) v g = record {
    in_use = omega (arith, v.in_use, g.further);
    in_range = omega (arith, v.in_range, ap (λ (l : List A). length l) (g.same s.address v.in_use));
  }

  pub read-SameAbove :
      (floor : ℕ) (ar ar' : Arena A) (s : Option Slice)
      → IsAbove floor s
      → SameAbove floor ar ar'
      → read ar' s ≡ read ar s
  read-SameAbove floor ar ar' none a h = refl
  read-SameAbove floor ar ar' (some s) a h = ap some (items-block ar ar' s (h.same s.address a))

  pub length-items : (ar : Arena A) (s : Slice) → IsWithinBlock ar s → length (items ar s) ≡ s.count
  unfolding items
  length-items ar s v =
      let block = ar.block s.address in
      length-take s.count (drop s.offset block)
        (omega (arith, v.in_range, length-drop s.offset block (omega (arith, v.in_range))))

  -- A whole array, read through the slice that `make` returned.
  pub items_whole :
      (ar : Arena A) (s : Slice) (l : List A)
      → s.offset ≡ 0
      → s.count ≡ length l
      → ar.block s.address ≡ l
      → items ar s ≡ l
  unfolding items drop
  items_whole ar s l o c e =
      ap (λ n. take s.count (drop n (ar.block s.address))) o
      ∙ ap (λ k. take s.count k) e
      ∙ ap (λ n. take n l) c
      ∙ take_all l

  pub put-at : (ar : Arena A) (a : ℕ) (l : List A) → (put ar a l).block a ≡ l
  unfolding put
  put-at ar a l = ground arith

  pub put-other :
      (ar : Arena A) (a : ℕ) (l : List A) (p : ℕ) → p ≢ a → (put ar a l).block p ≡ ar.block p
  unfolding put
  put-other ar a l p h = ground (arith, h)

  pub Grows-alloc : (ar : Arena A) (l : List A) → Grows ar (alloc ar l)
  unfolding alloc
  Grows-alloc ar l = record {
    further = omega arith;
    same = λ p h. put-other ar ar.next l p (omega (arith, h));
  }

  pub alloc-at : (ar : Arena A) (l : List A) → (alloc ar l).block ar.next ≡ l
  unfolding alloc
  alloc-at ar l = put-at ar ar.next l

  -- An array above the floor is written; nothing below changes.
  pub Grows-put :
      (a b : Arena A) (p : ℕ) (l : List A) → a.next ≤ p → Grows a b → Grows a (put b p l)
  unfolding put
  Grows-put a b p l h g = record {
    further = g.further;
    same = λ q lt. put-other b p l q (omega (arith, h, lt)) ∙ g.same q lt;
  }

  -- An array below the floor is written; nothing above changes.
  pub SameAbove-put :
      (floor : ℕ) (ar : Arena A) (p : ℕ) (l : List A) → p < floor → SameAbove floor ar (put ar p l)
  SameAbove-put floor ar p l h = record { same = λ q le. put-other ar p l q (omega (arith, h, le)) }

  pub SameAbove-refl : (floor : ℕ) (ar : Arena A) → SameAbove floor ar ar
  SameAbove-refl floor ar = record { same = λ p h. refl }

  pub SameAbove-trans :
      (floor : ℕ) (a b c : Arena A)
      → SameAbove floor a b
      → SameAbove floor b c
      → SameAbove floor a c
  SameAbove-trans floor a b c g h = record { same = λ p l. h.same p l ∙ g.same p l }
