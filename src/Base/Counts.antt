-- ===== src/Base/Counts.antt =====
-- How often an item is in a list, by a Boolean test of equality.
use mathlib.Core.List.{
  Mem, Nodup, Nodup-cons, Nodup-nil, mem-cons, mem-cons_self, mem-cons_of_mem, not-mem-nil,
}
use mathlib.Core.Logic.Or
use mathlib.Core.HLevel.{⊥_prop, hedberg}
use native.Mathlib.Decide.{ℕ_discrete}
use zoneroute.Base.{
  ℕ, suc, Bool, true, false, List, [], ◌∷◌, ◌≡◌, ◌↔◌, refl, ◌∙◌, ap, sym, subst, inl, inr, arith,
  Bool-cases,
}
use zoneroute.Base.Lists.{filter, length}
use zoneroute.Base.Members.{eq_false, ne_true}

pub ℕ-set : IsSet ℕ
ℕ-set = hedberg ℕ_discrete

module _ {A : Type 0} (eq : A → A → Bool) (eq_iff : (a b : A) → (eq a b ≡ true) ↔ (a ≡ b)) where
  refl_test : (a : A) → eq a a ≡ true
  refl_test a = (eq_iff a a).1 refl

  -- How often the item is in the list.
  unfoldable pub count : A → List A → ℕ
  count k l = length (filter (λ j. eq j k) l)

  count_miss : (k j : A) (l : List A) → eq j k ≡ false → count k (j ∷ l) ≡ count k l
  unfolding count filter mathlib.Core.List.filter_map
  count_miss k j l e = rw (e) refl

  count_hit : (k : A) (l : List A) → count k (k ∷ l) ≡ suc (count k l)
  unfolding count filter mathlib.Core.List.filter_map
  count_hit k l = rw (refl_test k) refl

  count_absent : (k : A) (l : List A) → ¬ Mem k l → count k l ≡ 0
  unfolding count filter mathlib.Core.List.filter_map
  count_absent k [] n = refl
  count_absent k (j ∷ l) n = elim (Bool-cases (eq j k)) [
    | inl e ↦ absurd (n (subst (λ t. Mem k (t ∷ l)) (sym ((eq_iff j k).0 e)) mem-cons_self))
    | inr e ↦ rw (e) (count_absent k l (λ m. n (mem-cons_of_mem j m)))
  ]

  count-absent : (k : A) (l : List A) → count k l ≡ 0 → ¬ Mem k l
  count-absent k [] h m = not-mem-nil m
  count-absent k (j ∷ l) h m = elim (Bool-cases (eq j k)) [
    | inl e ↦
        let hit : count k (j ∷ l) ≡ suc (count k l) =
          subst (λ t. count k (t ∷ l) ≡ suc (count k l)) (sym ((eq_iff j k).0 e)) (count_hit k l) in
        omega (arith, h, hit)
    | inr e ↦
        Or.elim ⊥_prop (mem-cons.0 m) (λ q. ne_true e ((eq_iff j k).1 (sym q)))
          (count-absent k l (sym (count_miss k j l e) ∙ h))
  ]

  -- Every item of the list is there once.
  abbrev pub Once : List A → Type 0
  Once l = (k : A) → Mem k l → count k l ≡ 1

  apart : (k j : A) (l : List A) → ¬ Mem k l → Mem j l → eq k j ≡ false
  apart k j l n m = eq_false _ λ e. n (subst (λ t. Mem t l) (sym ((eq_iff k j).0 e)) m)

  pub Once-Nodup : (l : List A) → Once l → Nodup l
  Once-Nodup [] h = Nodup-nil
  Once-Nodup (k ∷ l) h =
      let fresh = count-absent k l (omega (arith, h k mem-cons_self, count_hit k l)) in
      Nodup-cons.1 (
        fresh,
        Once-Nodup l
            λ j m. sym (count_miss j k l (apart k j l fresh m)) ∙ h j (mem-cons_of_mem k m),
      )

  pub Nodup-Once : (l : List A) → Nodup l → Once l
  Nodup-Once [] d k m = absurd (not-mem-nil m)
  Nodup-Once (j ∷ l) d k m =
      let (fresh, rest) = Nodup-cons.0 d in
      Or.elim (ℕ-set _ _) (mem-cons.0 m)
        (λ e.
          subst (λ t. count t (j ∷ l) ≡ 1) (sym e)
            (count_hit j l ∙ ap suc (count_absent j l fresh)))
        (λ r. count_miss k j l (apart j k l fresh r) ∙ Nodup-Once l rest k r)
