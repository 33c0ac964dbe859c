-- ===== src/Api/Copies/Pointers.antt =====
-- `DeepCopy`: a pointer to a new variable, which holds what `DeepCopyInto` makes of the value behind
-- the old one.
use zoneroute.Base.{◌≤◌, ◌<◌, [], ◌∷◌, Option, some, ◌≡◌, refl, ◌∙◌, ap, arith}
use zoneroute.Base.Items.{get_or, set}
use zoneroute.Api.Memory.{Arena, Place, alloc, load, assign, new_copy}
use zoneroute.Api.Memory.Slices.{Grows, Grows-alloc, Grows-put, alloc-at, put-at}

-- `DeepCopy` of a pointer that is not nil.
pub record IsCopiedPlace {A S : Type 0} (into : S → A → S × A) (zero_value : A) (s : S)
    (ar : Arena A) (p : Place) (s' : S) (ar' : Arena A) (c : Option Place) : Type 0 where
  pub place : Place
  pub is_returned : c ≡ some place
  pub is_new : ar.next ≤ place.address
  pub state : s' ≡ (into s (load zero_value ar p)).0
  pub value : load zero_value ar' place ≡ (into s (load zero_value ar p)).1
  pub grows : Grows ar ar'

load-Grows :
    {A : Type 0} (zero_value : A) (ar ar' : Arena A) (p : Place)
    → p.address < ar.next
    → Grows ar ar'
    → load zero_value ar' p ≡ load zero_value ar p
unfolding load
load-Grows zero_value ar ar' p h g = ap (λ l. get_or l p.offset zero_value) (g.same p.address h)

load-assign :
    {A : Type 0} (zero_value : A) (ar : Arena A) (p : Place) (v : A)
    → ar.block p.address ≡ zero_value ∷ []
    → p.offset ≡ 0
    → load zero_value (assign ar p v) p ≡ v
unfolding load assign get_or set
load-assign zero_value ar p v e o =
    (λ i. get_or (put-at ar p.address (set (ar.block p.address) p.offset v) i) p.offset zero_value)
    ∙ (λ i. get_or (set (e i) (o i) v) (o i) zero_value)

pub new_copy-IsCopiedPlace :
    {A S : Type 0} (into : S → A → S × A) (zero_value : A) (s : S) (ar : Arena A) (p : Place)
    → p.address < ar.next
    → let (s', ar', c) = new_copy into zero_value s ar (some p) in
      IsCopiedPlace into zero_value s ar p s' ar' c
unfolding new_copy
new_copy-IsCopiedPlace {A} into zero_value s ar p h =
    let grown = Grows-alloc ar (zero_value ∷ []) in
    let fresh = alloc ar (zero_value ∷ []) in
    let source = load-Grows zero_value ar fresh p h grown in
    let out : Place = record { address = ar.next; offset = 0 } in
    record {
      place = out;
      is_returned = refl;
      is_new = omega arith;
      state = ap (λ (v : A). (into s v).0) source;
      value =
          load-assign zero_value fresh out (into s (load zero_value fresh p)).1 (alloc-at ar _) refl
          ∙ ap (λ (v : A). (into s v).1) source;
      grows = Grows-put ar fresh ar.next _ (omega arith) grown;
    }
