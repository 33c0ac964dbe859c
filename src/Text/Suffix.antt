-- ===== src/Text/Suffix.antt =====
-- `HasSuffix` and `TrimSuffix` undo and detect appending.
use zoneroute.Base.{
  ℕ, ◌<◌, true, false, [], ◌∷◌, ◌++◌, ◌≡◌, refl, ap, sym, ◌↔◌, inl, inr, arith, Bool-cases,
}
use zoneroute.Base.Lists.{length, length-append}
use zoneroute.Text.{Text, same, has_suffix, trim_suffix}
use zoneroute.Text.Order.{same_iff}

same_longer : (s t : Text) → length t < length s → same s t ≡ false
same_longer s t h = elim (Bool-cases (same s t)) [
  | inl e ↦ absurd (omega (arith, ap (length {A = ℕ}) ((same_iff s t).0 e)))
  | inr e ↦ e
]

-- What was appended is cut off.
pub trim_suffix-append : (s t : Text) (c : ℕ) → trim_suffix (s ++ (c ∷ t)) (c ∷ t) ≡ s
unfolding trim_suffix
trim_suffix-append [] t c = rw ((same_iff (c ∷ t) (c ∷ t)).1 refl)
trim_suffix-append (x ∷ s) t c =
    rw (same_longer (x ∷ (s ++ (c ∷ t))) (c ∷ t) (omega (arith, length-append s (c ∷ t))))
      (ap (◌∷◌ x) (trim_suffix-append s t c))

-- A text with the suffix is what is left of it with the suffix behind.
pub trim_suffix-has_suffix : (s t : Text) → has_suffix s t ≡ true → trim_suffix s t ++ t ≡ s
unfolding trim_suffix has_suffix
trim_suffix-has_suffix [] t h = sym ((same_iff [] t).0 h)
trim_suffix-has_suffix (x ∷ s) t h = elim (Bool-cases (same (x ∷ s) t)) [
  | inl e ↦ rw e (sym ((same_iff (x ∷ s) t).0 e))
  | inr e ↦ rw e (ap (◌∷◌ x) (trim_suffix-has_suffix s t (rw e at h)))
]

pub has_suffix-append : (s t : Text) → has_suffix (s ++ t) t ≡ true
unfolding has_suffix
has_suffix-append [] [] = unfold same in refl
has_suffix-append [] (x ∷ t) = rw ((same_iff (x ∷ t) (x ∷ t)).1 refl)
has_suffix-append (x ∷ s) t = ground (arith, has_suffix-append s t)

-- `HasSuffix` holds exactly of the texts that end in the suffix.
pub has_suffix_iff : (s t : Text) → (has_suffix s t ≡ true) ↔ ((p : Text) × (s ≡ p ++ t))
has_suffix_iff s t = (
  λ h. (trim_suffix s t, sym (trim_suffix-has_suffix s t h)),
  λ (p, e). rw e (has_suffix-append p t),
)
