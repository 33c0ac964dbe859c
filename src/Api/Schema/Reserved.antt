-- ===== src/Api/Schema/Reserved.antt =====
-- The schema's rule on reserved zones, and the test by which Resolve keeps routes out of a domain.
use mathlib.Core.List.{Mem, append_cancel_right}
use zoneroute.Base.{
  ℕ, Bool, true, false, not, ◌||◌, List, [], ◌∷◌, ◌++◌, map, ◌≡◌, ◌↔◌, refl, ◌∙◌, ap, sym, inl, inr,
  arith, Bool-cases, if◌then◌else◌,
}
use zoneroute.Base.Members.{eq_false, ne_true, any-false, false-any}
use zoneroute.Base.Lists.{any}
use zoneroute.Text.{Text, codes, same, has_suffix, to_lower, drop_last}
use zoneroute.Text.Order.{same_iff}
use zoneroute.Text.Suffix.{has_suffix_iff, has_suffix-append, trim_suffix-has_suffix}
use zoneroute.Dict.{contains}
use zoneroute.Dnsname.{dot, canonical}
use zoneroute.Dnsname.Trim.{drop_last-dot}
use zoneroute.Conflict.{is_reserved}
use zoneroute.Conflict.Spec.{IsWithin, is_reserved-IsWithin}
use zoneroute.Api.Schema.{normalized, reserved_names, has_reserved_name, no_reserved_zones}
use zoneroute.Api.Schema.Unique.{all_iff, canonical-normalized}

not-true : {b : Bool} → not b ≡ true → b ≡ false
not-true {b} h = ground (arith, h)

-- Two tests that hold of the same are one.
Bool-ext : (a b : Bool) → (a ≡ true → b ≡ true) → (b ≡ true → a ≡ true) → a ≡ b
Bool-ext a b f g = ground (arith, f, g)

append_assoc : (a b c : Text) → (a ++ b) ++ c ≡ a ++ (b ++ c)
append_assoc [] b c = refl
append_assoc (x ∷ a) b c = ap (◌∷◌ x) (append_assoc a b c)

same-append : (a b t : Text) → same (a ++ t) (b ++ t) ≡ same a b
same-append a b t =
    Bool-ext _ _
      (λ h. (same_iff a b).1 (append_cancel_right _ _ t ((same_iff (a ++ t) (b ++ t)).0 h)))
      (λ h. (same_iff (a ++ t) (b ++ t)).1 (ap (λ s. s ++ t) ((same_iff a b).0 h)))

has_suffix-append_both : (s e t : Text) → has_suffix (s ++ t) (e ++ t) ≡ has_suffix s e
has_suffix-append_both s e t =
    Bool-ext _ _
      (λ h.
        let (p, q) = (has_suffix_iff (s ++ t) (e ++ t)).0 h in
        (has_suffix_iff s e).1 (p, append_cancel_right _ _ t (q ∙ sym (append_assoc p e t))))
      (λ h.
        let (p, q) = (has_suffix_iff s e).0 h in
        (has_suffix_iff (s ++ t) (e ++ t)).1 (p, ap (λ x. x ++ t) q ∙ append_assoc p e t))

-- Whether a text ends in a dot is seen from its end.
has_suffix-dot :
    (p : Text) (c : ℕ) (d : Text) → has_suffix (p ++ (c ∷ d)) dot ≡ has_suffix (c ∷ d) dot
unfolding has_suffix same
has_suffix-dot [] c d = refl
has_suffix-dot (x ∷ []) c d = ground (arith)
has_suffix-dot (x ∷ y ∷ p) c d = ground (arith, has_suffix-dot (y ∷ p) c d)

-- The name, behind a dot.
abbrev below : Text → Text
below name = b'.' ∷ name

-- Both spellings of the test for a name, on the zone in lower case.
ends_below :
    (name low : Text)
    → has_suffix (below name) dot ≡ false
    → has_suffix (if has_suffix low dot then drop_last low else low) (below name)
      ≡ (has_suffix low (below name) || has_suffix low (below name ++ dot))
ends_below name low plain = elim (Bool-cases (has_suffix low dot)) [
  | inl e ↦
      let cut = drop_last low in
      let whole : cut ++ dot ≡ low =
        ap (λ s. s ++ dot) (drop_last-dot low e) ∙ trim_suffix-has_suffix low dot e in
      let bare : has_suffix low (below name) ≡ false = eq_false _ λ h.
        let (p, q) = (has_suffix_iff low (below name)).0 h in
        ne_true plain (sym (has_suffix-dot p b'.' name) ∙ ap (λ s. has_suffix s dot) (sym q) ∙ e) in
      let dotted : has_suffix low (below name ++ dot) ≡ has_suffix cut (below name) =
        ap (λ s. has_suffix s (below name ++ dot)) (sym whole)
        ∙ has_suffix-append_both cut (below name) dot in
      rw (e, bare) (sym dotted)
  | inr e ↦
      let dotted : has_suffix low (below name ++ dot) ≡ false = eq_false _ λ h.
        let (p, q) = (has_suffix_iff low (below name ++ dot)).0 h in
        ne_true e (
          ap (λ s. has_suffix s dot) (q ∙ sym (append_assoc p (below name) dot))
          ∙ has_suffix-append (p ++ below name) dot) in
      rw (e, dotted) (ground (arith))
]

-- The rule for one name is Resolve's test for the name as a domain.
name-is_reserved :
    (name z : Text)
    → has_suffix (below name) dot ≡ false
    → is_reserved (name ++ dot) (canonical z) ≡ (
        same (normalized z) name
        || (has_suffix (to_lower z) (below name) || has_suffix (to_lower z) (below name ++ dot)))
unfolding is_reserved normalized
name-is_reserved name z plain =
    let named =
      ap (λ c. same c (name ++ dot)) (canonical-normalized z)
      ∙ same-append (normalized z) name dot in
    let inside =
      ap (λ c. has_suffix c (below name ++ dot)) (canonical-normalized z)
      ∙ has_suffix-append_both (normalized z) (below name) dot
      ∙ ends_below name (to_lower z) plain in
    λ i. named i || inside i

same_comm : (a b : Text) → same a b ≡ same b a
same_comm a b =
    Bool-ext _ _ (λ h. (same_iff b a).1 (sym ((same_iff a b).0 h)))
      (λ h. (same_iff a b).1 (sym ((same_iff b a).0 h)))

abbrev pub reserved_domains : List Text
reserved_domains = map (λ n. n ++ dot) reserved_names

regroup :
    (a b c p p' q q' r r' : Bool)
    → (a || (b || (c || false))) || (p || (p' || (q || (q' || (r || r')))))
      ≡ (a || (p || p')) || ((b || (q || q')) || ((c || (r || r')) || false))
regroup true b c p p' q q' r r' = refl
regroup false true c p p' q q' r r' = ground arith
regroup false false c p p' q q' r r' = ground arith

one_name :
    (name z : Text)
    → has_suffix (below name) dot ≡ false
    → (same name (normalized z)
        || (has_suffix (to_lower z) (below name) || has_suffix (to_lower z) (below name ++ dot)))
      ≡ is_reserved (name ++ dot) (canonical z)
one_name name z plain =
    ap
      (λ b.
        b || (has_suffix (to_lower z) (below name) || has_suffix (to_lower z) (below name ++ dot)))
      (same_comm name (normalized z))
    ∙ sym (name-is_reserved name z plain)

no_dots :
    (has_suffix (below (codes "localhost")) dot ≡ false)
    × (has_suffix (below (codes "in-addr.arpa")) dot ≡ false)
    × (has_suffix (below (codes "ip6.arpa")) dot ≡ false)
unfolding has_suffix same
no_dots = (refl, refl, refl)

has_reserved_name-any :
    (z : Text) → has_reserved_name z ≡ any (λ d. is_reserved d (canonical z)) reserved_domains
unfolding has_reserved_name any contains
has_reserved_name-any z =
    let (first, second, third) = no_dots in
    let named = λ (n : Text). same n (normalized z) in
    let ends = λ (n : Text). has_suffix (to_lower z) (below n) in
    let ends_dotted = λ (n : Text). has_suffix (to_lower z) (below n ++ dot) in
    regroup (named (codes "localhost")) (named (codes "in-addr.arpa")) (named (codes "ip6.arpa"))
      (ends (codes "localhost")) (ends_dotted (codes "localhost")) (ends (codes "in-addr.arpa"))
      (ends_dotted (codes "in-addr.arpa")) (ends (codes "ip6.arpa"))
      (ends_dotted (codes "ip6.arpa"))
    ∙ (λ i.
        one_name (codes "localhost") z first i
        || (one_name (codes "in-addr.arpa") z second i
            || (one_name (codes "ip6.arpa") z third i || false)))

-- A list of zones passes the schema's rule on reserved zones exactly when no zone of it, in its
-- canonical form, is localhost., in-addr.arpa. or ip6.arpa., or lies within one of them.
pub no_reserved_zones-IsWithin :
    (zones : List Text)
    → (no_reserved_zones zones ≡ true) ↔ (
        (z : Text) → Mem z zones → (d : Text) → Mem d reserved_domains → ¬ IsWithin d (canonical z))
unfolding no_reserved_zones
no_reserved_zones-IsWithin zones =
    let rule = all_iff (λ z. not (has_reserved_name z)) zones in
    (
      λ h z m d md w.
          let clear : has_reserved_name z ≡ false = not-true (rule.0 h z m) in
          ne_true
            (any-false (λ x. is_reserved x (canonical z)) reserved_domains
              (sym (has_reserved_name-any z) ∙ clear) d md)
            ((is_reserved-IsWithin d (canonical z)).1 w),
      λ h. rule.1 λ z m.
          let clear =
            has_reserved_name-any z
            ∙ false-any (λ x. is_reserved x (canonical z)) reserved_domains
                λ d md. eq_false _ λ e. h z m d md ((is_reserved-IsWithin d (canonical z)).0 e) in
          ap not clear,
    )
