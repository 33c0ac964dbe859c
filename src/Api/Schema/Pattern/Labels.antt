-- ===== src/Api/Schema/Pattern/Labels.antt =====
-- The pattern of a label describes what `is_label` tests.
use zoneroute.Base.{
  ℕ, suc, ◌≤◌, Bool, true, ◌&&◌, List, [], ◌∷◌, ◌++◌, ◌≡◌, ◌↔◌, refl, ◌∙◌, sym, ap, inl, inr, arith,
}
use zoneroute.Base.Lists.{length, length-append, All}
use zoneroute.Text.{Text}
use zoneroute.Api.Schema.{all}
use zoneroute.Api.Schema.Pattern.{
  byte_in, ◌⊙◌, optional, up_to, Matches, concat, is_alnum, is_ldh, label_pattern, tail_ok,
  is_label,
}

-- Single bytes, one after the other.
bytes_of :
    (p : ℕ → Bool) (parts : List Text)
    → All (Matches (byte_in p)) parts
    → (all p (concat parts) ≡ true) × (length (concat parts) ≡ length parts)
unfolding all
bytes_of p [] h = (refl, refl)
bytes_of p (s ∷ parts) ((c, e, t), h) =
    let (rest, size) = bytes_of p parts h in rw e (ground (arith, t, rest), ap suc size)

singles : Text → List Text
singles [] = []
singles (c ∷ s) = (c ∷ []) ∷ singles s

concat-singles : (s : Text) → s ≡ concat (singles s)
unfolding singles
concat-singles [] = refl
concat-singles (c ∷ s) = ap (◌∷◌ c) (concat-singles s)

length-singles : (s : Text) → length (singles s) ≡ length s
unfolding singles
length-singles [] = refl
length-singles (c ∷ s) = ap suc (length-singles s)

All-singles : (p : ℕ → Bool) (s : Text) → all p s ≡ true → All (Matches (byte_in p)) (singles s)
unfolding singles all
All-singles p [] h = tt
All-singles p (c ∷ s) h = ((c, refl, ground (arith, h)), All-singles p s (ground (arith, h)))

-- `[…]{0,n}` is a text of at most `n` bytes of the class.
up_to-bytes :
    (p : ℕ → Bool) (n : ℕ) (s : Text)
    → Matches (up_to n (byte_in p)) s ↔ ((all p s ≡ true) × (length s ≤ n))
up_to-bytes p n s = (
  λ (parts, e, few, h).
      let (bytes, size) = bytes_of p parts h in rw e (bytes, omega (arith, size, few)),
  λ (bytes, few).
      (singles s, concat-singles s, omega (arith, length-singles s, few), All-singles p s bytes),
)

tail_ok-append : (m : Text) (d : ℕ) → tail_ok (m ++ (d ∷ [])) ≡ (all is_ldh m && is_alnum d)
unfolding tail_ok all
tail_ok-append [] d = refl
tail_ok-append (c ∷ []) d = ground arith
tail_ok-append (c ∷ e ∷ m) d = ground (arith, tail_ok-append (e ∷ m) d)

-- The bytes of a text but the last, and the last.
split_end : (c : ℕ) (s : Text) → (m : Text) × (d : ℕ) × (c ∷ s ≡ m ++ (d ∷ []))
split_end c [] = ([], c, refl)
split_end c (e ∷ s) = let (m, d, q) = split_end e s in (c ∷ m, d, ap (◌∷◌ c) q)

short : (c : ℕ) (s : Text) → is_label (c ∷ s) ≡ true → length s ≤ 62
unfolding is_label
short c s h = ground (arith, h)

short_of_nothing : (u v : Text) (c : ℕ) → [] ≡ u ++ v → u ≡ c ∷ [] → suc (length v) ≡ 0
short_of_nothing u v c e q = sym (ap (length {A = ℕ}) (e ∙ ap (λ (w : Text). w ++ v) q))

-- What follows the first byte.
abbrev Rest : Text → Type 0
Rest v = Matches (optional (up_to 61 (byte_in is_ldh) ⊙ byte_in is_alnum)) v

Rest-is_label : (c : ℕ) (v : Text) → is_alnum c ≡ true → Rest v → is_label (c ∷ v) ≡ true
unfolding is_label tail_ok
Rest-is_label c v t (inl e) = rw (e, t) refl
Rest-is_label c v t (inr (x, y, e, m, (d, q, u))) =
    let (bytes, few) = (up_to-bytes is_ldh 61 x).0 m in
    let whole : v ≡ x ++ (d ∷ []) = e ∙ ap (λ w. x ++ w) q in
    let tail : tail_ok v ≡ true = ap tail_ok whole ∙ tail_ok-append x d ∙ (λ i. bytes i && u i) in
    let size = ap (length {A = ℕ}) whole ∙ length-append x (d ∷ []) in
    ground (arith, t, tail, size, few)

is_label-Rest : (c : ℕ) (v : Text) → is_label (c ∷ v) ≡ true → (is_alnum c ≡ true) × Rest v
unfolding is_label tail_ok
is_label-Rest c [] h = (ground (arith, h), inl refl)
is_label-Rest c (e ∷ v) h =
    let (m, d, q) = split_end e v in
    let whole : (all is_ldh m && is_alnum d) ≡ true =
      sym (tail_ok-append m d) ∙ ap tail_ok (sym q) ∙ ground (arith, h) in
    let size : length m ≤ 61 =
      omega (arith, short c (e ∷ v) h, ap (length {A = ℕ}) q, length-append m (d ∷ [])) in
    (
      ground (arith, h),
      inr (
        m,
        d ∷ [],
        q,
        (up_to-bytes is_ldh 61 m).1 (ground (arith, whole), size),
        (d, refl, ground (arith, whole)),
      ),
    )

-- The pattern of a label matches exactly the labels.
pub label_iff : (s : Text) → Matches label_pattern s ↔ (is_label s ≡ true)
unfolding is_label
label_iff [] =
    (λ (u, v, e, (c, q, t), r). absurd (omega (arith, short_of_nothing u v c e q)), λ h. cc)
label_iff (c ∷ s) = (
  λ (u, v, e, (d, q, t), r).
      let whole : c ∷ s ≡ d ∷ v = e ∙ ap (λ w. w ++ v) q in
      ap is_label whole ∙ Rest-is_label d v t r,
  λ h. let (t, r) = is_label-Rest c s h in (c ∷ [], s, refl, (c, refl, t), r),
)
