-- ===== src/Base/Members.antt =====
-- Members of lists: tests on all of them, distinct keys, and sorted lists.
use mathlib.Core.Bool.{Bool-set, false≢true}
use mathlib.Core.List.{
  Mem, Pairwise, Nodup, mem-cons, mem-cons_self, mem-cons_of_mem, mem-map_of_mem, not-mem-nil,
}
use mathlib.Core.Logic.Or
use zoneroute.Base.{
  Bool, true, false, List, [], ◌∷◌, map, ◌≡◌, refl, ◌∙◌, ap, sym, subst, inl, inr, arith,
  Bool-cases,
}
use zoneroute.Base.Lists.{any, filter, mem-filter}

pub eq_false : (b : Bool) → ¬ (b ≡ true) → b ≡ false
eq_false true h = absurd (h refl)
eq_false false h = refl

pub ne_true : {b : Bool} → b ≡ false → ¬ (b ≡ true)
ne_true e t = false≢true (sym e ∙ t)

module _ {ℓ} {A : Type ℓ} where
  pub any-false : (p : A → Bool) (l : List A) → any p l ≡ false → (x : A) → Mem x l → p x ≡ false
  unfolding any
  any-false p [] h x m = absurd (not-mem-nil m)
  any-false p (y ∷ l) h x m =
      Or.elim (Bool-set _ _) (mem-cons.0 m) (λ e. subst (λ z. p z ≡ false) (sym e) (ground arith))
        (any-false p l (ground arith) x)

  pub false-any : (p : A → Bool) (l : List A) → ((x : A) → Mem x l → p x ≡ false) → any p l ≡ false
  unfolding any
  false-any p [] h = refl
  false-any p (y ∷ l) h = rw (h y mem-cons_self) (false-any p l (λ x m. h x (mem-cons_of_mem y m)))

  pub Pairwise-filter {κ} :
      {R : A → A → Type κ} (p : A → Bool) {l : List A} → Pairwise R l → Pairwise R (filter p l)
  unfolding filter
  Pairwise-filter p Pairwise.nil = Pairwise.nil
  Pairwise-filter p (Pairwise.cons {a} {l} h t) = elim (Bool-cases (p a)) [
    | inl e ↦ rw e (Pairwise.cons (λ b m. h b ((mem-filter p l).0 m).0) (Pairwise-filter p t))
    | inr e ↦ rw e (Pairwise-filter p t)
  ]

-- Among items with distinct keys the key tells which item it is.
pub unique_by {ℓ κ} :
    {A : Type ℓ} {K : Type κ} (key : A → K) (l : List A)
    → IsSet A
    → Nodup (map key l)
    → {a b : A} → Mem a l
    → Mem b l
    → key a ≡ key b
    → a ≡ b
unique_by key [] is_set d ma mb e = absurd (not-mem-nil ma)
unique_by key (x ∷ l) is_set (Pairwise.cons first d) {a} {b} ma mb e =
    Or.elim (is_set _ _) (mem-cons.0 ma)
      (λ p.
        Or.elim (is_set _ _) (mem-cons.0 mb) (λ q. p ∙ sym q)
          (λ m. absurd (first (key b) (mem-map_of_mem key m) (sym (ap key p) ∙ e))))
      (λ m.
        Or.elim (is_set _ _) (mem-cons.0 mb)
          (λ q. absurd (first (key a) (mem-map_of_mem key m) (sym (ap key q) ∙ sym e)))
          (λ n. unique_by key l is_set d m n e))
