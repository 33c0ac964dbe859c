-- ===== src/Dnsname/Trim.antt =====
-- The final dot of a name and the case of its letters do not touch each other.
use zoneroute.Base.{
  ℕ, true, false, ◌&&◌, ◌||◌, [], ◌∷◌, ◌++◌, ◌≡◌, refl, ap, arith, ◌==◌, inl, inr, Bool-cases, sym,
  ◌∙◌, if◌then◌else◌,
}
use zoneroute.Text.{Text, same, has_suffix, trim_suffix, lower_byte, to_lower, drop_last}
use zoneroute.Dnsname.{dot, canonical}

lower_byte-dot : (c : ℕ) → (lower_byte c == b'.') ≡ (c == b'.')
unfolding lower_byte
lower_byte-dot c = ground arith

same-to_lower-dot : (s : Text) → same (to_lower s) dot ≡ same s dot
unfolding same to_lower
same-to_lower-dot [] = refl
same-to_lower-dot (c ∷ []) = ap (λ b. b && true) (lower_byte-dot c)
same-to_lower-dot (c ∷ d ∷ s) = ap (λ b. b && false) (lower_byte-dot c)

pub has_suffix-to_lower : (s : Text) → has_suffix (to_lower s) dot ≡ has_suffix s dot
unfolding has_suffix to_lower
has_suffix-to_lower [] = refl
has_suffix-to_lower (c ∷ s) = λ i. same-to_lower-dot (c ∷ s) i || has_suffix-to_lower s i

pub trim_suffix-absent : (s t : Text) → has_suffix s t ≡ false → trim_suffix s t ≡ s
unfolding has_suffix trim_suffix
trim_suffix-absent [] t h = refl
trim_suffix-absent (c ∷ s) t h =
    let tail : has_suffix s t ≡ false = ground (arith, h) in
    let rest = trim_suffix-absent s t tail in ground (arith, h, rest)

trim_suffix-to_lower : (s : Text) → trim_suffix (to_lower s) dot ≡ to_lower (trim_suffix s dot)
unfolding trim_suffix to_lower
trim_suffix-to_lower [] = refl
trim_suffix-to_lower (c ∷ s) = elim (Bool-cases (same (c ∷ s) dot)) [
  | inl e ↦ rw (same-to_lower-dot (c ∷ s), e) refl
  | inr e ↦ rw (same-to_lower-dot (c ∷ s), e) (ap (◌∷◌ (lower_byte c)) (trim_suffix-to_lower s))
]

-- `substring(0, size - 1)` cuts a final dot off.
pub drop_last-dot : (s : Text) → has_suffix s dot ≡ true → drop_last s ≡ trim_suffix s dot
unfolding drop_last trim_suffix has_suffix same
drop_last-dot [] h = refl
drop_last-dot (c ∷ []) h = ground (arith, h)
drop_last-dot (c ∷ d ∷ s) h =
    let tail : has_suffix (d ∷ s) dot ≡ true = ground (arith, h) in
    let rest = drop_last-dot (d ∷ s) tail in ground (arith, rest)

-- The canonical form is the lower-case name without a final dot, and a dot.
pub canonical-cut :
    (z : Text)
    → canonical z
      ≡ (if has_suffix (to_lower z) dot then drop_last (to_lower z) else to_lower z) ++ dot
unfolding canonical
canonical-cut z =
    ap (λ t. t ++ dot)
      (sym (trim_suffix-to_lower z) ∙ elim (Bool-cases (has_suffix (to_lower z) dot)) [
        | inl e ↦ rw (e) (sym (drop_last-dot (to_lower z) e))
        | inr e ↦ rw (e) (trim_suffix-absent (to_lower z) dot e)
      ])
