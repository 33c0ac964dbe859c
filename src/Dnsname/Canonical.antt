-- ===== src/Dnsname/Canonical.antt =====
-- What `Canonical` identifies.
use mathlib.Core.List.{append_cancel_right}
use zoneroute.Base.{[], ◌∷◌, ◌++◌, ◌≡◌, refl, ap, ◌↔◌, arith}
use zoneroute.Text.{Text, to_lower, trim_suffix}
use zoneroute.Text.Suffix.{trim_suffix-append}
use zoneroute.Dnsname.{dot, canonical}

to_lower_idem : (s : Text) → to_lower (to_lower s) ≡ to_lower s
unfolding to_lower
to_lower_idem [] = refl
to_lower_idem (c ∷ s) = ground (arith, to_lower_idem s)

-- Canonical form is a fixed point: normalising a normalised name changes nothing.
pub canonical_idem : (name : Text) → canonical (canonical name) ≡ canonical name
unfolding canonical
canonical_idem name = rw trim_suffix-append (rw to_lower_idem)

-- Two names have one canonical form exactly when they agree up to the case of their letters and
-- one trailing dot.
pub canonical-eq_iff :
    (a b : Text)
    → (canonical a ≡ canonical b) ↔ (to_lower (trim_suffix a dot) ≡ to_lower (trim_suffix b dot))
unfolding canonical
canonical-eq_iff a b = (λ e. append_cancel_right _ _ dot e, λ e. ap (λ (t : Text). t ++ dot) e)
