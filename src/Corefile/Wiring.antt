-- ===== src/Corefile/Wiring.antt =====
-- internal/corefile/corefile.go: when Inspect reports the Corefile as wired, on the tokens of its text.
use zoneroute.Base.{
  ℕ, Bool, true, false, not, ◌&&◌, ◌||◌, List, [], ◌∷◌, ◌++◌, ◌≡◌, refl, ◌∙◌, ap, sym, subst, inl,
  inr, arith, leb, ◌==◌, Bool-cases,
}
use zoneroute.Base.Int.{inc, dec, is_zero, is_positive}
use zoneroute.Base.Lists.{any}
use zoneroute.Result.{ok}
use zoneroute.Text.{Text, codes, same}
use zoneroute.Text.Order.{same_iff}
use zoneroute.Dict.{Dict, contains}
use zoneroute.Caddyfile.{Caddyfile, IsFinite}
use zoneroute.Corefile.{Inspection, inspect, corefile_source, is_resolved, is_wiring}
use zoneroute.Corefile.Scan.{ImportStmt, ScanState, scan_start}
use zoneroute.Corefile.Scan.Total.{scan_imports-Scans}
use zoneroute.Corefile.Tokens.{
  Token, word, import_of, Tokens, count, imports_custom, defines_custom,
}
use zoneroute.Corefile.Tokens.Run.{
  difference, inc-difference, dec-difference, is_zero-difference, is_positive-difference,
  inner-custom, after_word, after_import, after_word-prev_line, run, Scans-Ends,
}
use zoneroute.Corefile.Wired.{wires, inspect-wires}

abbrev custom : Text
custom = codes "custom/*.server"

-- The import is of custom/*.server, outside all blocks.
unfoldable flat : ImportStmt → Bool
flat i = not (is_positive i.depth) && same i.pattern custom

any-append : {A : Type 0} (p : A → Bool) (l m : List A) → any p (l ++ m) ≡ (any p l || any p m)
unfolding any
any-append p [] m = refl
any-append p (x ∷ l) m = ground (arith, any-append p l m)

-- No token is two of these.
close-open : (v : Text) → same v (codes "{") ≡ true → same v (codes "}") ≡ false
close-open v h =
    subst (λ t. same t (codes "}") ≡ false) (sym ((same_iff v (codes "{")).0 h))
      (unfold same in refl)

snippet-open : (v : Text) → same v (codes "{") ≡ true → same v (codes "(custom/*.server)") ≡ false
snippet-open v h =
    subst (λ t. same t (codes "(custom/*.server)") ≡ false) (sym ((same_iff v (codes "{")).0 h))
      (unfold same in refl)

snippet-close : (v : Text) → same v (codes "}") ≡ true → same v (codes "(custom/*.server)") ≡ false
snippet-close v h =
    subst (λ t. same t (codes "(custom/*.server)") ≡ false) (sym ((same_iff v (codes "}")).0 h))
      (unfold same in refl)

module _ (s : ScanState) (o c : ℕ) (h : s.depth ≡ difference o c) (n : ℕ) (v : Text) where
  after_word-depth :
      (after_word s n v).depth ≡ difference (count (codes "{") v o) (count (codes "}") v c)
  unfolding after_word
  after_word-depth =
      ground (arith, h, close-open v, ap inc h ∙ inc-difference o c, ap dec h ∙ dec-difference o c)

  after_word-imports : (after_word s n v).imports ≡ s.imports
  unfolding after_word
  after_word-imports = ground arith

  after_word-snippets : contains (after_word s n v).snippets custom ≡ (
      (not (n == s.prev_line) && (o == c && same v (codes "(custom/*.server)")))
      || contains s.snippets custom)
  unfolding after_word contains
  after_word-snippets = ground (
    arith,
    ap is_zero h ∙ is_zero-difference o c,
    snippet-open v,
    snippet-close v,
    inner-custom v,
  )

run-imports :
    (ts : List Token) (s : ScanState) (o c : ℕ)
    → s.depth ≡ difference o c
    → any flat (run s ts).imports ≡ (any flat s.imports || imports_custom o c ts)
unfolding run any flat
run-imports [] s o c h = ground arith
run-imports (word n v ∷ ts) s o c h =
    run-imports ts (after_word s n v) (count (codes "{") v o) (count (codes "}") v c)
      (after_word-depth s o c h n v)
    ∙ ap (λ l. any flat l || imports_custom (count (codes "{") v o) (count (codes "}") v c) ts)
        (after_word-imports s o c h n v)
run-imports (import_of n pattern ∷ ts) s o c h =
    run-imports ts (after_import s n pattern) o c (unfold after_import in h) ∙ here
  where
    i : ImportStmt
    i = record { line = n; pattern = pattern; depth = s.depth }

    here :
        (any flat (after_import s n pattern).imports || imports_custom o c ts)
        ≡ (any flat s.imports || ((leb o c && same pattern custom) || imports_custom o c ts))
    here =
        unfold after_import flat in
        ground (
          arith,
          any-append flat s.imports (i ∷ []),
          ap (λ z. not (is_positive z)) h ∙ is_positive-difference o c,
        )

run-snippets :
    (ts : List Token) (s : ScanState) (o c : ℕ)
    → s.depth ≡ difference o c
    → contains (run s ts).snippets custom
      ≡ (contains s.snippets custom || defines_custom o c s.prev_line ts)
unfolding run
run-snippets [] s o c h = ground arith
run-snippets (word n v ∷ ts) s o c h =
    let o' = count (codes "{") v o in
    let c' = count (codes "}") v c in
    run-snippets ts (after_word s n v) o' c' (after_word-depth s o c h n v)
    ∙ ground (
      arith,
      after_word-snippets s o c h n v,
      ap (λ m. defines_custom o' c' m ts) (after_word-prev_line s n v),
    )
run-snippets (import_of n pattern ∷ ts) s o c h =
    run-snippets ts (after_import s n pattern) o c (unfold after_import in h)
    ∙ unfold after_import in refl

wires-flat :
    (snippets : List Text) (i : ImportStmt)
    → wires snippets i ≡ (flat i && not (contains snippets custom))
unfolding wires is_resolved is_wiring flat
wires-flat snippets i = elim (Bool-cases (same i.pattern custom)) [
  | inr e ↦ ground (arith, e)
  | inl e ↦ ground (
    arith,
    e,
    ap (contains snippets) ((same_iff i.pattern custom).0 e),
    (same_iff corefile_source corefile_source).1 refl,
  )
]

any-wires :
    (snippets : List Text) (is : List ImportStmt)
    → any (wires snippets) is ≡ (any flat is && not (contains snippets custom))
unfolding any
any-wires snippets [] = refl
any-wires snippets (i ∷ is) = ground (arith, wires-flat snippets i, any-wires snippets is)

module _ (c : Caddyfile) (finite : IsFinite c) where
  -- Suppose that `Inspect` succeeds. It reports the Corefile as wired exactly when, among the tokens
  -- of the Corefile, some line begins with an import of custom/*.server where no more braces have
  -- been opened than closed, and no line begins with the snippet (custom/*.server) where as many
  -- have been opened as closed.
  pub inspect-wired :
      (corefile : Text) (servers : Dict Text) (res : Inspection)
      → inspect c finite corefile servers ≡ ok res
      → (ts : List Token) × Tokens c 0 (Caddyfile.new_dispenser c corefile_source corefile) ts
        × (res.wired ≡ (imports_custom 0 0 ts && not (defines_custom 0 0 0 ts)))
  inspect-wired corefile servers res h =
      let (t, r, q) = scan_imports-Scans c finite corefile_source corefile in
      let (ts, given, e) = Scans-Ends c scan_start t _ r in
      let imports = run-imports ts scan_start 0 0 (unfold difference in refl) in
      let snippets = run-snippets ts scan_start 0 0 (unfold difference in refl) in
      (
        ts,
        given,
        inspect-wires c finite corefile servers res h
            ∙ ap (λ (out : List ImportStmt × List Text). any (wires out.1) out.0) q
            ∙ any-wires t.snippets t.imports
            ∙ ap (λ (u : ScanState). any flat u.imports && not (contains u.snippets custom)) e
            ∙ ap (λ (p : Bool × Bool). p.0 && not p.1) (λ i. (imports i, snippets i))
            ∙ unfold any contains in refl,
      )
