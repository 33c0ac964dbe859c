-- ===== src/Dict.antt =====
-- Go maps with string keys, as association lists: a key that is written again keeps its place.
pub mod Distinct
use mathlib.Core.Bool.{Bool-set}
use mathlib.Core.List.{Mem, mem-cons, mem-cons_self, mem-cons_of_mem, not-mem-nil}
use mathlib.Core.Logic.Or
use native.Mathlib.Decide.{ℕ_discrete}
use zoneroute.Base.{
  subst, sym, inl, inr, Bool-cases, true, Bool, false, ◌||◌, List, [], ◌∷◌, ◌≡◌, refl, Option, none,
  some, arith, if◌then◌else◌,
}
use zoneroute.Text.{Text, same}
use zoneroute.Text.Order.{same_iff}

abbrev pub Dict {ℓ} : Type ℓ → Type ℓ
Dict V = List (Text × V)

module _ {ℓ} {V : Type ℓ} where
  -- `v, ok := m[k]`
  unfoldable pub lookup : Text → Dict V → Option V
  lookup k [] = none
  lookup k ((j, v) ∷ m) = if same j k then some v else lookup k m

  -- `m[k] = v`
  unfoldable pub insert : Text → V → Dict V → Dict V
  insert k v [] = (k, v) ∷ []
  insert k v ((j, w) ∷ m) = if same j k then (j, v) ∷ m else (j, w) ∷ insert k v m

  pub lookup-insert :
      (k j : Text) (v : V) (m : Dict V)
      → lookup j (insert k v m) ≡ (if same k j then some v else lookup j m)
  unfolding lookup insert
  lookup-insert k j v [] = refl
  lookup-insert k j v ((i, w) ∷ m) =
      ground (arith, same_iff k j, same_iff i k, same_iff i j, lookup-insert k j v m)

-- `seen[k]` of a set that is kept as a map into `bool`.
unfoldable pub contains : List Text → Text → Bool
contains [] k = false
contains (j ∷ l) k = same j k || contains l k

pub Text-set : IsSet Text
Text-set = hlevel ℕ_discrete

pub contains→mem : (l : List Text) (k : Text) → contains l k ≡ true → Mem k l
unfolding contains
contains→mem [] k h = cc
contains→mem (j ∷ l) k h = elim (Bool-cases (same j k)) [
  | inl e ↦ subst (λ (t : Text). Mem k (t ∷ l)) (sym ((same_iff j k).0 e)) mem-cons_self
  | inr e ↦ mem-cons_of_mem j (contains→mem l k (rw e at h))
]

pub mem→contains : (l : List Text) (k : Text) → Mem k l → contains l k ≡ true
unfolding contains
mem→contains [] k m = absurd (not-mem-nil m)
mem→contains (j ∷ l) k m =
    Or.elim (Bool-set _ _) (mem-cons.0 m) (λ e. rw ((same_iff j k).1 (sym e)))
      (λ r. ground (arith, mem→contains l k r))
