-- ===== src/Text/Split.antt =====
-- `Split` at a byte and `Join` undo each other, and `TrimSuffix` of a dot cuts only the end.
use zoneroute.Base.{
  ℕ, true, false, List, [], ◌∷◌, ◌++◌, ◌≡◌, refl, ◌∙◌, sym, ap, inl, inr, arith, ◌==◌, Bool-cases,
}
use zoneroute.Text.{Text, same, has_suffix, trim_suffix, split, join}
use zoneroute.Net.{has_byte}
use zoneroute.Dnsname.{dot}

pub split-absent : (b : ℕ) (s : Text) → has_byte b s ≡ false → split s b ≡ s ∷ []
unfolding split has_byte
split-absent b [] h = refl
split-absent b (c ∷ s) h =
    let rest = split-absent b s (ground (arith, h)) in
    let other : (c == b) ≡ false = ground (arith, h) in rw (other, rest) refl

pub split-append :
    (b : ℕ) (l s : Text) → has_byte b l ≡ false → split (l ++ (b ∷ s)) b ≡ l ∷ split s b
unfolding split has_byte
split-append b [] s h = let hit : (b == b) ≡ true = ground arith in rw hit refl
split-append b (c ∷ l) s h =
    let rest = split-append b l s (ground (arith, h)) in
    let other : (c == b) ≡ false = ground (arith, h) in rw (other, rest) refl

pub no_dot-at_end : (s : Text) → has_byte b'.' s ≡ false → has_suffix s dot ≡ false
unfolding has_suffix has_byte same
no_dot-at_end [] h = refl
no_dot-at_end (c ∷ s) h = let rest = no_dot-at_end s (ground (arith, h)) in ground (arith, h, rest)

-- Only the end is cut.
pub trim-append :
    (u : Text) (c : ℕ) (s : Text) → trim_suffix (u ++ (c ∷ s)) dot ≡ u ++ trim_suffix (c ∷ s) dot
unfolding trim_suffix same
trim-append [] c s = refl
trim-append (x ∷ []) c s = ground arith
trim-append (x ∷ y ∷ u) c s = let rest = trim-append (y ∷ u) c s in ground (arith, rest)

pub split_cons : (b : ℕ) (s : Text) → (h : Text) × (t : List Text) × (split s b ≡ h ∷ t)
unfolding split
split_cons b [] = ([], [], refl)
split_cons b (c ∷ s) =
    let (h, t, e) = split_cons b s in
    elim (Bool-cases (c == b)) [
      | inl q ↦ ([], split s b, rw q refl)
      | inr q ↦ (c ∷ h, t, rw (q, e) refl)
    ]

join-cons :
    (c : ℕ) (h : Text) (t : List Text) (sep : Text) → join ((c ∷ h) ∷ t) sep ≡ c ∷ join (h ∷ t) sep
unfolding join
join-cons c h [] sep = refl
join-cons c h (s ∷ t) sep = refl

pub join-split : (b : ℕ) (s : Text) → join (split s b) (b ∷ []) ≡ s
unfolding split join
join-split b [] = refl
join-split b (c ∷ s) =
    let (h, t, e) = split_cons b s in
    let sep = b ∷ [] in
    let whole : join (h ∷ t) sep ≡ s = ap (λ l. join l sep) (sym e) ∙ join-split b s in
    elim (Bool-cases (c == b)) [
      | inl q ↦ let same_byte : b ≡ c = ground (arith, q) in rw (q, e) (λ i. same_byte i ∷ whole i)
      | inr q ↦ rw (q, e) (join-cons c h t sep ∙ ap (◌∷◌ c) whole)
    ]
