-- ===== src/Corefile/Tokens/Run.antt =====
-- `scanImports` on the tokens: the state of its loop, without the dispenser.
use zoneroute.Base.{
  ℕ, zero, suc, true, false, not, ◌&&◌, List, [], ◌∷◌, ◌++◌, none, some, ◌≡◌, refl, ◌∙◌, ap, sym,
  subst, inl, inr, arith, leb, ◌==◌, if◌then◌else◌, Bool-cases, Option-cases,
}
use zoneroute.Base.Int.{ℤ, pos, negsuc, inc, dec, is_zero, is_positive}
use zoneroute.Base.Lists.{length}
use zoneroute.Base.Members.{ne_true}
use zoneroute.Text.{Text, codes, same, has_suffix, starts_with, drop_last, inner}
use zoneroute.Text.Order.{same_iff}
use zoneroute.Text.Suffix.{has_suffix_iff}
use zoneroute.Caddyfile.{Caddyfile}
use zoneroute.Corefile.Scan.{ScanState, is_snippet, scan_token, scan_import}
use zoneroute.Corefile.Scan.Total.{Scans, stop, step}
use zoneroute.Corefile.Tokens.{Token, word, import_of, Tokens, ended, plain, bare, with_argument}

-- `o - c`
unfoldable pub difference : ℕ → ℕ → ℤ
difference o zero = pos o
difference zero (suc c) = negsuc c
difference (suc o) (suc c) = difference o c

pub inc-difference : (o c : ℕ) → inc (difference o c) ≡ difference (suc o) c
unfolding difference inc
inc-difference o zero = ap pos (omega arith)
inc-difference zero (suc zero) = refl
inc-difference zero (suc (suc c)) = refl
inc-difference (suc o) (suc c) = inc-difference o c

pub dec-difference : (o c : ℕ) → dec (difference o c) ≡ difference o (suc c)
unfolding difference dec
dec-difference zero zero = refl
dec-difference (suc o) zero = refl
dec-difference zero (suc c) = ap negsuc (omega arith)
dec-difference (suc o) (suc c) = dec-difference o c

pub is_zero-difference : (o c : ℕ) → is_zero (difference o c) ≡ (o == c)
unfolding difference is_zero
is_zero-difference zero zero = refl
is_zero-difference (suc o) zero = ground arith
is_zero-difference zero (suc c) = ground arith
is_zero-difference (suc o) (suc c) = ground (arith, is_zero-difference o c)

pub is_positive-difference : (o c : ℕ) → not (is_positive (difference o c)) ≡ leb o c
unfolding difference is_positive
is_positive-difference zero zero = refl
is_positive-difference (suc o) zero = ground arith
is_positive-difference zero (suc c) = ground arith
is_positive-difference (suc o) (suc c) = ground (arith, is_positive-difference o c)

drop_last-append : (s : Text) (b : ℕ) → drop_last (s ++ (b ∷ [])) ≡ s
unfolding drop_last
drop_last-append [] b = refl
drop_last-append (x ∷ []) b = refl
drop_last-append (x ∷ y ∷ s) b = ap (◌∷◌ x) (drop_last-append (y ∷ s) b)

-- A snippet's token is its name in parentheses.
is_snippet-inner : (v : Text) → is_snippet v ≡ true → v ≡ b'(' ∷ (inner v ++ codes ")")
unfolding is_snippet starts_with
is_snippet-inner [] h = cc
is_snippet-inner (x ∷ s) h =
    let (p, q) = (has_suffix_iff (x ∷ s) (codes ")")).0 (ground (arith, h)) in ended_by p q
  where
    ended_by : (p : Text) → (x ∷ s) ≡ p ++ codes ")" → (x ∷ s) ≡ b'(' ∷ (inner (x ∷ s) ++ codes ")")
    ended_by [] q =
        let empty : s ≡ [] = cc q in absurd (ground (arith, h, ap (length {A = ℕ}) empty))
    ended_by (y ∷ p) q =
        let rest : s ≡ p ++ codes ")" = cc q in
        let first : x ≡ b'(' = ground (arith, h) in
        let middle : inner (x ∷ s) ≡ p =
          unfold inner in ap drop_last rest ∙ drop_last-append p b')' in
        λ i. first i ∷ (rest ∙ ap (λ t. t ++ codes ")") (sym middle)) i

custom-inner :
    (is_snippet (codes "(custom/*.server)")
      && same (inner (codes "(custom/*.server)")) (codes "custom/*.server"))
    ≡ same (codes "(custom/*.server)") (codes "(custom/*.server)")
unfolding is_snippet starts_with has_suffix inner same
custom-inner = refl

-- Of a snippet in a pair of parentheses one sees the name.
pub inner-custom :
    (v : Text)
    → (is_snippet v && same (inner v) (codes "custom/*.server"))
      ≡ same v (codes "(custom/*.server)")
inner-custom v = elim (Bool-cases (same v (codes "(custom/*.server)"))) [
  | inl e ↦
      subst
        (λ t.
          (is_snippet t && same (inner t) (codes "custom/*.server"))
          ≡ same t (codes "(custom/*.server)"))
        (sym ((same_iff v (codes "(custom/*.server)")).0 e)) custom-inner
  | inr e ↦ elim (Bool-cases (is_snippet v && same (inner v) (codes "custom/*.server"))) [
    | inr f ↦ f ∙ sym e
    | inl f ↦
        let form = is_snippet-inner v (ground (arith, f)) in
        let name = (same_iff (inner v) (codes "custom/*.server")).0 (ground (arith, f)) in
        absurd (
          ne_true e (
            (same_iff v (codes "(custom/*.server)")).1
              (form ∙ ap (λ t. b'(' ∷ (t ++ codes ")")) name)))
  ]
]

-- The loop's state after one token, and after all.
unfoldable pub after_word : ScanState → ℕ → Text → ScanState
after_word t n v =
    let s = record t { prev_line = n } in
    if same v (codes "{")
    then record s { depth = inc s.depth }
    else if same v (codes "}")
    then record s { depth = dec s.depth }
    else if not (n == t.prev_line) && (is_zero s.depth && is_snippet v)
    then record s { snippets = inner v ∷ s.snippets }
    else s

unfoldable pub after_import : ScanState → ℕ → Text → ScanState
after_import s n pattern = record s {
  imports = s.imports ++ (record { line = n; pattern = pattern; depth = s.depth } ∷ []);
  prev_line = n;
}

unfoldable pub run : ScanState → List Token → ScanState
unfolding after_word after_import
run s [] = s
run s (word n v ∷ ts) = run (after_word s n v) ts
run s (import_of n pattern ∷ ts) = run (after_import s n pattern) ts

pub after_word-prev_line : (s : ScanState) (n : ℕ) (v : Text) → (after_word s n v).prev_line ≡ n
unfolding after_word
after_word-prev_line s n v = ground arith

module _ (c : Caddyfile) where
  open c use {Dispenser, next, next_arg, val, line}

  -- What the body of the loop does at each kind of token.
  scan_token-plain :
      (s : ScanState) (d : Dispenser)
      → (not (line d == s.prev_line) && same (val d) (codes "import")) ≡ false
      → scan_token c s d ≡ (after_word s (line d) (val d), d)
  unfolding scan_token after_word
  scan_token-plain s d h = ground (arith, h)

  scan_token-bare :
      (s : ScanState) (d : Dispenser)
      → (not (line d == s.prev_line)) ≡ true
      → val d ≡ codes "import"
      → next_arg d ≡ none
      → scan_token c s d ≡ (after_word s (line d) (val d), d)
  unfolding scan_token after_word scan_import same is_snippet starts_with has_suffix
  scan_token-bare s d h v a = rw (v, scan_token) (rw (h, a) (ground arith))

  scan_token-argument :
      (s : ScanState) (d a : Dispenser)
      → (not (line d == s.prev_line)) ≡ true
      → val d ≡ codes "import"
      → next_arg d ≡ some a
      → scan_token c s d ≡ (after_import s (line d) (val a), a)
  unfolding scan_token after_import scan_import same is_snippet starts_with has_suffix
  scan_token-argument s d a h v q = rw (v, scan_token) (rw (h, q) (ground arith))

  -- The tokens on which the loop ends in a state.
  abbrev pub Ends : ScanState → ScanState × Dispenser → Type 0
  Ends t (s, d) = (ts : List Token) × Tokens c s.prev_line d ts × (t ≡ run s ts)

  Ends-word :
      (s t : ScanState) (d e : Dispenser)
      → next d ≡ some e
      → ((ts : List Token)
          → Tokens c (line e) e ts
          → Tokens c s.prev_line d (word (line e) (val e) ∷ ts))
      → Ends t (after_word s (line e) (val e), e)
      → Ends t (s, d)
  unfolding run
  Ends-word s t d e q f (ts, r, h) = (
    word (line e) (val e) ∷ ts,
    f ts (subst (λ n. Tokens c n e ts) (after_word-prev_line s (line e) (val e)) r),
    h,
  )

  Ends-token :
      (s t : ScanState) (d e : Dispenser)
      → next d ≡ some e
      → Ends t (scan_token c s e)
      → Ends t (s, d)
  unfolding run after_import
  Ends-token s t d e q rest =
      elim (Bool-cases (not (line e == s.prev_line) && same (val e) (codes "import"))) [
        | inr h ↦
            Ends-word s t d e q
              (λ ts. plain s.prev_line d e ts q (elim (Bool-cases (line e == s.prev_line)) [
                | inl k ↦ inl (ground (arith, k))
                | inr k ↦
                    inr
                      (λ v. ne_true h (ground (arith, k, (same_iff (val e) (codes "import")).1 v)))
              ]))
              (subst (Ends t) (scan_token-plain s e h) rest)
        | inl h ↦
            let named = (same_iff (val e) (codes "import")).0 (ground (arith, h)) in
            let fresh : not (line e == s.prev_line) ≡ true = ground (arith, h) in
            let moved : ¬ (line e ≡ s.prev_line) = λ same_line. ground (arith, fresh, same_line) in
            elim (Option-cases (next_arg e)) [
              | inl a ↦
                  Ends-word s t d e q (λ ts. bare s.prev_line d e ts q moved named a)
                    (subst (Ends t) (scan_token-bare s e fresh named a) rest)
              | inr (x, a) ↦
                  let (ts, r, o) = subst (Ends t) (scan_token-argument s e x fresh named a) rest in
                  (
                    import_of (line e) (val x) ∷ ts,
                    with_argument s.prev_line d e x ts q moved named a r,
                    o,
                  )
            ]
      ]

  -- Each run of the loop goes through such tokens.
  pub Scans-Ends : (s t : ScanState) (d : Dispenser) → Scans c s d t → Ends t (s, d)
  unfolding run
  Scans-Ends s t d (stop _ _ q) = ([], ended s.prev_line d q, refl)
  Scans-Ends s t d (step _ _ _ e q r) =
      Ends-token s t d e q (Scans-Ends (scan_token c s e).0 t (scan_token c s e).1 r)
