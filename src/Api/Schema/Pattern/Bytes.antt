-- ===== src/Api/Schema/Pattern/Bytes.antt =====
-- What a zone's name cannot hold: a colon, or a second dot at its end.
use zoneroute.Base.{ℕ, true, false, ◌||◌, List, [], ◌∷◌, ◌++◌, ◌≡◌, refl, ◌∙◌, sym, ap, arith, ◌==◌}
use zoneroute.Text.{Text, same, has_suffix, trim_suffix, split, join, lower_byte}
use zoneroute.Text.Split.{split_cons, join-split, no_dot-at_end}
use zoneroute.Net.{has_byte}
use zoneroute.Net.HostPort.{has_byte-append}
use zoneroute.Dnsname.{dot}
use zoneroute.Api.Schema.{all}
use zoneroute.Api.Schema.Pattern.{is_ldh, is_label, is_zone_name}
use zoneroute.Api.Schema.Pattern.Names.{split_name, is_label-without, is_label-no_dot}

-- A byte that is no letter, digit, hyphen or dot.
module _ (b : ℕ) (other : (c : ℕ) → is_ldh c ≡ true → (c == b) ≡ false)
    (not_dot : (b'.' == b) ≡ false) where
  join-without :
      (l : Text) (ls : List Text)
      → all is_label (l ∷ ls) ≡ true
      → has_byte b (join (l ∷ ls) dot) ≡ false
  unfolding all join has_byte
  join-without l [] h = is_label-without b other l (ground (arith, h))
  join-without l (m ∷ ls) h =
      let first = is_label-without b other l (ground (arith, h)) in
      let rest = join-without m ls (ground (arith, h)) in
      has_byte-append b l (dot ++ join (m ∷ ls) dot)
      ∙ (λ i. first i || has_byte-append b dot (join (m ∷ ls) dot) i)
      ∙ (λ i. (not_dot i || false) || rest i)

  cut-without : (t : Text) → all is_label (split t b'.') ≡ true → has_byte b t ≡ false
  cut-without t h =
      let (l, ls, e) = split_cons b'.' t in
      ap (has_byte b) (sym (join-split b'.' t) ∙ ap (λ w. join w dot) e)
      ∙ join-without l ls (ap (λ w. all is_label w) (sym e) ∙ h)

  has_byte-trim : (z : Text) → has_byte b (trim_suffix z dot) ≡ false → has_byte b z ≡ false
  unfolding has_byte trim_suffix same
  has_byte-trim [] h = refl
  has_byte-trim (c ∷ []) h = ground (arith, h, not_dot)
  has_byte-trim (c ∷ d ∷ z) h = let rest = has_byte-trim (d ∷ z) in ground (arith, h, rest)

  -- A zone's name does not hold it.
  pub is_zone_name-without : (z : Text) → is_zone_name z ≡ true → has_byte b z ≡ false
  unfolding is_zone_name
  is_zone_name-without z h = has_byte-trim z (cut-without (trim_suffix z dot) h)

colon_other : (c : ℕ) → is_ldh c ≡ true → (c == b':') ≡ false
unfolding is_ldh lower_byte zoneroute.Api.Schema.Pattern.is_alnum
colon_other c h = ground (arith, h)

pub is_zone_name-no_colon : (z : Text) → is_zone_name z ≡ true → has_byte b':' z ≡ false
is_zone_name-no_colon z h = is_zone_name-without b':' colon_other refl z h

newline_other : (c : ℕ) → is_ldh c ≡ true → (c == b'\n') ≡ false
unfolding is_ldh lower_byte zoneroute.Api.Schema.Pattern.is_alnum
newline_other c h = ground (arith, h)

pub is_zone_name-no_newline : (z : Text) → is_zone_name z ≡ true → has_byte b'\n' z ≡ false
is_zone_name-no_newline z h = is_zone_name-without b'\n' newline_other refl z h

same-dot : (u : Text) (c d : ℕ) (s : Text) → same (u ++ (c ∷ d ∷ s)) dot ≡ false
unfolding same
same-dot [] c d s = ground arith
same-dot (x ∷ []) c d s = ground arith
same-dot (x ∷ y ∷ u) c d s = ground arith

has_suffix-behind :
    (u : Text) (c : ℕ) (s : Text) → has_suffix (u ++ (c ∷ s)) dot ≡ has_suffix (c ∷ s) dot
unfolding has_suffix same
has_suffix-behind [] c s = refl
has_suffix-behind (x ∷ []) c s = ground arith
has_suffix-behind (x ∷ y ∷ u) c s = let rest = has_suffix-behind (y ∷ u) c s in ground (arith, rest)

label_end : (u l : Text) → is_label l ≡ true → has_suffix (u ++ l) dot ≡ false
unfolding is_label
label_end u [] h = cc
label_end u (c ∷ s) h = has_suffix-behind u c s ∙ no_dot-at_end (c ∷ s) (is_label-no_dot (c ∷ s) h)

pub is_zone_name-one_dot :
    (z : Text) → is_zone_name z ≡ true → has_suffix (trim_suffix z dot) dot ≡ false
unfolding is_zone_name
is_zone_name-one_dot z h =
    let t = split_name (trim_suffix z dot) h in
    ap (λ w. has_suffix w dot) t.whole ∙ label_end _ t.last t.is_last
