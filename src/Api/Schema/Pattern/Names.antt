-- ===== src/Api/Schema/Pattern/Names.antt =====
-- The pattern of a zone describes names of labels between dots.
use mathlib.Core.List.{append_assoc, append-nil}
use zoneroute.Base.{
  ℕ, true, false, ◌&&◌, List, [], ◌∷◌, ◌++◌, ◌≡◌, ◌↔◌, refl, ◌∙◌, sym, ap, inl, inr, arith, ◌==◌,
  Bool-cases, subst,
}
use zoneroute.Base.Lists.{All}
use zoneroute.Text.{Text, lower_byte, has_suffix, trim_suffix, split, join}
use zoneroute.Text.Suffix.{trim_suffix-append, trim_suffix-has_suffix}
use zoneroute.Text.Split.{
  split-absent, split-append, no_dot-at_end, trim-append, split_cons, join-split,
}
use zoneroute.Net.{has_byte}
use zoneroute.Dnsname.{dot}
use zoneroute.Dnsname.Trim.{trim_suffix-absent}
use zoneroute.Api.Schema.{all}
use zoneroute.Api.Schema.Pattern.{
  byte_in, ◌⊙◌, optional, Matches, concat, is_alnum, is_ldh, is_dot, label_pattern, zone_pattern,
  tail_ok, is_label, is_zone_name,
}
use zoneroute.Api.Schema.Pattern.Labels.{label_iff}

alnum_byte : (c : ℕ) → is_alnum c ≡ true → is_ldh c ≡ true
unfolding is_ldh
alnum_byte c h = ground (arith, h)

module _ (b : ℕ) (other : (c : ℕ) → is_ldh c ≡ true → (c == b) ≡ false) where
  tail_ok-without : (s : Text) → tail_ok s ≡ true → has_byte b s ≡ false
  unfolding tail_ok has_byte
  tail_ok-without [] h = refl
  tail_ok-without (c ∷ []) h = ground (arith, other c (alnum_byte c h))
  tail_ok-without (c ∷ d ∷ s) h =
      let first : is_ldh c ≡ true = ground (arith, h) in
      let rest = tail_ok-without (d ∷ s) (ground (arith, h)) in ground (arith, other c first, rest)

  -- A label has no byte that is not a letter, a digit or a hyphen.
  pub is_label-without : (s : Text) → is_label s ≡ true → has_byte b s ≡ false
  unfolding is_label has_byte
  is_label-without [] h = refl
  is_label-without (c ∷ s) h =
      let first : is_alnum c ≡ true = ground (arith, h) in
      let rest = tail_ok-without s (ground (arith, h)) in
      ground (arith, other c (alnum_byte c first), rest)

dot_other : (c : ℕ) → is_ldh c ≡ true → (c == b'.') ≡ false
unfolding is_ldh lower_byte
dot_other c h = ground (arith, h)

pub is_label-no_dot : (s : Text) → is_label s ≡ true → has_byte b'.' s ≡ false
is_label-no_dot s h = is_label-without b'.' dot_other s h

no_empty_name : ¬ (is_zone_name [] ≡ true)
unfolding is_zone_name all is_label split trim_suffix
no_empty_name h = cc

-- A name behind a label and a dot.
add_label :
    (l t : Text) → is_label l ≡ true → is_zone_name t ≡ true → is_zone_name (l ++ (b'.' ∷ t)) ≡ true
unfolding is_zone_name all
add_label l [] h k = absurd (no_empty_name k)
add_label l (c ∷ t) h k =
    let cut =
      trim-append l b'.' (c ∷ t) ∙ ap (λ (w : Text). l ++ w) (trim-append (b'.' ∷ []) c t) in
    let parts =
      ap (λ w. split w b'.') cut
      ∙ split-append b'.' l (trim_suffix (c ∷ t) dot) (is_label-no_dot l h) in
    ap (λ ls. all is_label ls) parts ∙ (λ i. h i && k i)

name_of_label : (w l : Text) → trim_suffix w dot ≡ l → is_label l ≡ true → is_zone_name w ≡ true
unfolding is_zone_name all
name_of_label w l e h =
    let parts = ap (λ x. split x b'.') e ∙ split-absent b'.' l (is_label-no_dot l h) in
    ap (λ ls. all is_label ls) parts ∙ (λ i. h i && true)

is_dot-eq : (c : ℕ) → is_dot c ≡ true → c ≡ b'.'
is_dot-eq c h = ground (arith, h)

-- A label, and a dot behind it or none.
last_name :
    (l q : Text)
    → is_label l ≡ true
    → Matches (optional (byte_in is_dot)) q
    → is_zone_name (l ++ q) ≡ true
last_name l q h (inl e) =
    let whole = ap (λ w. l ++ w) e ∙ append-nil l in
    name_of_label (l ++ q) l
      (ap (λ w. trim_suffix w dot) whole
        ∙ trim_suffix-absent l dot (no_dot-at_end l (is_label-no_dot l h)))
      h
last_name l q h (inr (c, e, t)) =
    let whole : l ++ q ≡ l ++ dot = ap (λ w. l ++ w) (e ∙ ap (λ (d : ℕ). d ∷ []) (is_dot-eq c t)) in
    name_of_label (l ++ q) l (ap (λ w. trim_suffix w dot) whole ∙ trim_suffix-append l [] b'.') h

-- Labels with their dots, and a name behind them.
pattern-name :
    (parts : List Text) (t : Text)
    → All (Matches (label_pattern ⊙ byte_in is_dot)) parts
    → is_zone_name t ≡ true
    → is_zone_name (concat parts ++ t) ≡ true
pattern-name [] t h k = k
pattern-name (part ∷ parts) t ((u, v, e, m, (c, q, d)), h) k =
    let rest = concat parts ++ t in
    let dotted : part ≡ u ++ dot =
      e ∙ ap (λ w. u ++ w) (q ∙ ap (λ (x : ℕ). x ∷ []) (is_dot-eq c d)) in
    let whole : (part ++ concat parts) ++ t ≡ u ++ (b'.' ∷ rest) =
      append_assoc part (concat parts) t ∙ ap (λ w. w ++ rest) dotted ∙ append_assoc u dot rest in
    ap is_zone_name whole ∙ add_label u rest ((label_iff u).0 m) (pattern-name parts t h k)

-- The labels of a name, all but the last with their dots.
pub record LastLabel (t : Text) : Type 0 where
  pub parts : List Text
  pub last : Text
  pub whole : t ≡ concat parts ++ last
  pub labels : All (Matches (label_pattern ⊙ byte_in is_dot)) parts
  pub is_last : is_label last ≡ true

last_label :
    (l : Text) (ls : List Text) → all is_label (l ∷ ls) ≡ true → LastLabel (join (l ∷ ls) dot)
unfolding all join
last_label l [] h = record {
  parts = [];
  last = l;
  whole = refl;
  labels = tt;
  is_last = ground (arith, h);
}
last_label l (m ∷ ls) h =
    let first : is_label l ≡ true = ground (arith, h) in
    let more = last_label m ls (ground (arith, h)) in
    record {
      parts = (l ++ dot) ∷ more.parts;
      last = more.last;
      whole =
          ap (λ w. l ++ (dot ++ w)) more.whole
          ∙ sym (append_assoc l dot (concat more.parts ++ more.last))
          ∙ sym (append_assoc (l ++ dot) (concat more.parts) more.last);
      labels = ((l, dot, refl, (label_iff l).1 first, (b'.', refl, refl)), more.labels);
      is_last = more.is_last;
    }

pub split_name : (t : Text) → all is_label (split t b'.') ≡ true → LastLabel t
split_name t h =
    let (l, ls, e) = split_cons b'.' t in
    subst LastLabel (ap (λ w. join w dot) (sym e) ∙ join-split b'.' t)
      (last_label l ls (ap (λ w. all is_label w) (sym e) ∙ h))

-- What `TrimSuffix` cuts off a name.
cut_off :
    (z : Text) → (q : Text) × (z ≡ trim_suffix z dot ++ q) × Matches (optional (byte_in is_dot)) q
cut_off z = elim (Bool-cases (has_suffix z dot)) [
  | inl e ↦ (dot, sym (trim_suffix-has_suffix z dot e), inr (b'.', refl, refl))
  | inr e ↦ ([], sym (append-nil _ ∙ trim_suffix-absent z dot e), inl refl)
]

-- The pattern of a zone matches exactly the names of labels between dots, with one more dot at the
-- end or none: each label has 1 to 63 letters, digits and hyphens, and no hyphen first or last.
pub zone_pattern-is_zone_name : (z : Text) → Matches zone_pattern z ↔ (is_zone_name z ≡ true)
unfolding is_zone_name
zone_pattern-is_zone_name z = (
  λ (p, rest, e, (parts, ep, h), (l, q, er, m, d)).
      let whole : z ≡ concat parts ++ (l ++ q) = e ∙ (λ i. ep i ++ er i) in
      ap is_zone_name whole ∙ pattern-name parts (l ++ q) h (last_name l q ((label_iff l).0 m) d),
  λ h.
      let t = split_name (trim_suffix z dot) h in
      let (q, e, d) = cut_off z in
      (
        concat t.parts,
        t.last ++ q,
        e ∙ ap (λ w. w ++ q) t.whole ∙ append_assoc (concat t.parts) t.last q,
        (t.parts, refl, t.labels),
        (t.last, q, refl, (label_iff t.last).1 t.is_last, d),
      ),
)
