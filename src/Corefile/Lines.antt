-- ===== src/Corefile/Lines.antt =====
-- The lines that `inspect` blanks are there: no index is out of range.
use zoneroute.Base.{
  ℕ, zero, suc, ◌≤◌, Bool, true, false, List, [], ◌∷◌, ◌++◌, Option, none, some, ◌≡◌, ◌≢◌, refl,
  subst, ◌∙◌, ap, sym, inl, inr, arith, Option-cases, if◌then◌else◌,
}
use zoneroute.Base.Int.{inc, dec}
use zoneroute.Base.Lists.{length, All}
use zoneroute.Base.Members.{ne_true}
use zoneroute.Result.{Result, err, Result-cases}
use zoneroute.Text.{Text, split, join, inner}
use zoneroute.Dict.{Dict}
use zoneroute.Caddyfile.{Caddyfile, IsFinite}
use zoneroute.Corefile.{
  Inspection, Listeners, InspectError, bad_index, add_keys, blank_line, blank_lines,
  without_imports, parse_blocks, inspect_source, inspect_keys, inspect, text_at, corefile_source,
  empty_inspection,
}
use zoneroute.Corefile.Key.{parse_key}
use zoneroute.Corefile.Scan.{
  ImportStmt, ScanState, scan_import, scan_token, scan, scan_imports, scan_start,
}

-- What a dispenser promises of line numbers: they count from 1, and none lies behind the last line of
-- the text.
pub record HasLines (c : Caddyfile) : Type 1 where
  -- The tokens left are on lines of a text of so many lines.
  pub Within : ℕ → Caddyfile.Dispenser c → Type 0
  pub new_within :
      (source text : Text)
      → Within (length (split text b'\n')) (Caddyfile.new_dispenser c source text)
  pub next_within :
      (n : ℕ) (d e : Caddyfile.Dispenser c)
      → Within n d
      → Caddyfile.next c d ≡ some e
      → Within n e × (1 ≤ Caddyfile.line c e) × (Caddyfile.line c e ≤ n)
  pub next_arg_within :
      (n : ℕ) (d e : Caddyfile.Dispenser c)
      → Within n d
      → Caddyfile.next_arg c d ≡ some e
      → Within n e

-- The imports are on lines of a text of `n` lines.
abbrev On : ℕ → List ImportStmt → Type 0
On n imports = All (λ (i : ImportStmt). (1 ≤ i.line) × (i.line ≤ n)) imports

On-append : (n : ℕ) (xs ys : List ImportStmt) → On n xs → On n ys → On n (xs ++ ys)
On-append n [] ys a b = b
On-append n (x ∷ xs) ys a b = (a.0, On-append n xs ys a.1 b)

blank_line-some :
    (i : ℕ) (lines : List Text)
    → 1 ≤ i
    → i ≤ length lines
    → (rest : List Text) × (blank_line i lines ≡ some rest) × (length rest ≡ length lines)
unfolding blank_line
blank_line-some zero lines a b = absurd (omega (arith, a))
blank_line-some (suc n) [] a b = absurd (omega (arith, b))
blank_line-some (suc zero) (s ∷ lines) a b = ([] ∷ lines, refl, refl)
blank_line-some (suc (suc n)) (s ∷ lines) a b =
    let (rest, e, l) = blank_line-some (suc n) lines (omega arith) (omega (arith, b)) in
    (s ∷ rest, rw (e, blank_line) refl, omega (arith, l))

blank_lines-some :
    (imports : List ImportStmt) (lines : List Text)
    → On (length lines) imports
    → (rest : List Text) × (blank_lines imports lines ≡ some rest)
unfolding blank_lines
blank_lines-some [] lines h = (lines, refl)
blank_lines-some (i ∷ imports) lines h =
    let (rest, e, l) = blank_line-some i.line lines h.0.0 h.0.1 in
    let (last, f) = blank_lines-some imports rest (subst (λ n. On n imports) (sym l) h.1) in
    (last, rw (e, blank_lines) f)

-- The index out of range.
abbrev panics : {A : Type 0} → Result InspectError A → Bool
panics (err bad_index) = true
panics _ = false

-- What holds of both branches holds of the conditional.
if-both : {A : Type 0} (P : A → Type 0) (b : Bool) (x y : A) → P x → P y → P (if b then x else y)
if-both P true x y p q = p
if-both P false x y p q = q

module _ (c : Caddyfile) (lines : HasLines c) where
  open c use {Dispenser, next, next_arg, val, line}

  -- The imports found and the tokens left are on the lines.
  Sound : ℕ → ScanState × Dispenser → Type 0
  Sound n r = On n r.0.imports × lines.Within n r.1

  scan_import-Sound :
      (n m : ℕ) (s : ScanState) (d : Dispenser) (o : Option Dispenser)
      → o ≡ next_arg d
      → lines.Within n d
      → (1 ≤ m) × (m ≤ n)
      → On n s.imports
      → Sound n (scan_import c m s d o)
  unfolding scan_import Sound
  scan_import-Sound n m s d none q w b h = (h, w)
  scan_import-Sound n m s d (some e) q w b h =
      (On-append n s.imports _ h (b, tt), lines.next_arg_within n d e w (sym q))

  plain-Sound :
      (n : ℕ) (s : ScanState) (d : Dispenser) → On n s.imports → lines.Within n d → Sound n (s, d)
  unfolding Sound
  plain-Sound n s d h w = (h, w)

  scan_token-Sound :
      (n : ℕ) (s : ScanState) (d : Dispenser)
      → lines.Within n d
      → (1 ≤ line d) × (line d ≤ n)
      → On n s.imports
      → Sound n (scan_token c s d)
  unfolding scan_token
  scan_token-Sound n s d w b h =
      let plain = plain-Sound n in
      if-both (Sound n) _ _ _ (plain (record s { prev_line = line d; depth = inc s.depth }) d h w) (
        if-both (Sound n) _ _ _ (plain (record s { prev_line = line d; depth = dec s.depth }) d h w)
          (if-both (Sound n) _ _ _
            (plain (record s { prev_line = line d; snippets = inner (val d) ∷ s.snippets }) d h w)
            (if-both (Sound n) _ _ _
              (scan_import-Sound n (line d) (record s { prev_line = line d }) d (next_arg d) refl w
                b h)
              (plain (record s { prev_line = line d }) d h w))))

  scan-On :
      (fuel n : ℕ) (s t : ScanState) (d : Dispenser)
      → lines.Within n d
      → On n s.imports
      → scan c fuel s d ≡ some t
      → On n t.imports
  unfolding scan Sound
  scan-On zero n s t d w h e = absurd (ground (arith, e))
  scan-On (suc fuel) n s t d w h e = elim (Option-cases (next d)) [
    | inl q ↦
        let last : s ≡ t = ground (arith, e, q) in subst (λ (u : ScanState). On n u.imports) last h
    | inr (x, q) ↦
        let (w', low, high) = lines.next_within n d x w q in
        let (h', w'') = scan_token-Sound n s x w' (low, high) h in
        scan-On fuel n (scan_token c s x).0 t (scan_token c s x).1 w'' h' (rw (q, scan) at e)
  ]

  module _ (finite : IsFinite c) where
    scan_imports-On :
        (source text : Text) → On (length (split text b'\n')) (scan_imports c finite source text).0
    unfolding scan_imports
    scan_imports-On source text =
        let d = Caddyfile.new_dispenser c source text in
        elim (Option-cases (scan c (suc (IsFinite.remaining finite d)) scan_start d)) [
          | inl q ↦ rw (q, scan_imports) tt
          | inr (s, q) ↦
              rw (q, scan_imports)
                (scan-On (suc (IsFinite.remaining finite d)) (length (split text b'\n')) scan_start
                  s d (lines.new_within source text) tt q)
        ]

    add_keys-index :
        (source : Text) (ks : List Text) (ls : Listeners) → panics (add_keys source ks ls) ≡ false
    unfolding add_keys
    add_keys-index source [] ls = refl
    add_keys-index source (k ∷ ks) ls = elim (Result-cases (parse_key k)) [
      | inl (l, e) ↦ rw (e, add_keys) (add_keys-index source ks _)
      | inr (x, e) ↦ rw (e, add_keys) refl
    ]

    parse_blocks-index :
        (source text : Text) → panics (parse_blocks c finite source (some text)) ≡ false
    unfolding parse_blocks
    parse_blocks-index source text = elim (Result-cases (Caddyfile.parse c source text)) [
      | inl (blocks, e) ↦ rw (e, parse_blocks) refl
      | inr (x, e) ↦ rw (e, parse_blocks) refl
    ]

    without_imports-some :
        (source text : Text)
        → (t : Text) × (without_imports text (scan_imports c finite source text).0 ≡ some t)
    unfolding without_imports
    without_imports-some source text =
        let (rest, e) =
          blank_lines-some (scan_imports c finite source text).0 (split text b'\n')
            (scan_imports-On source text) in
        (join rest (b'\n' ∷ []), rw (e, without_imports) refl)

    inspect_source-index :
        (source text : Text) (res : Inspection)
        → panics (inspect_source c finite source text res) ≡ false
    unfolding inspect_source
    inspect_source-index source text res =
        let (t, e) = without_imports-some source text in
        elim (Result-cases (parse_blocks c finite source (some t))) [
          | inr (x, f) ↦
              rw (e, inspect_source)
                (rw (f, inspect_source) (ap panics (sym f) ∙ parse_blocks-index source t))
          | inl (ks, f) ↦
              rw (e, inspect_source)
                (rw (f, inspect_source)
                  (elim (Result-cases (add_keys source ks res.listeners)) [
                    | inr (x, g) ↦
                        rw (g, inspect_source)
                          (ap panics (sym g) ∙ add_keys-index source ks res.listeners)
                    | inl (ls, g) ↦ rw (g, inspect_source) refl
                  ]))
        ]

    inspect_keys-index :
        (servers : Dict Text) (ks : List Text) (res : Inspection)
        → panics (inspect_keys c finite servers ks res) ≡ false
    unfolding inspect_keys
    inspect_keys-index servers [] res = refl
    inspect_keys-index servers (k ∷ ks) res =
        elim (Result-cases (inspect_source c finite k (text_at k servers) res)) [
          | inl (out, e) ↦ rw (e, inspect_keys) (inspect_keys-index servers ks out.1)
          | inr (x, e) ↦
              rw (e, inspect_keys)
                (ap panics (sym e) ∙ inspect_source-index k (text_at k servers) res)
        ]

    inspect-panics :
        (corefile : Text) (servers : Dict Text) → panics (inspect c finite corefile servers) ≡ false
    unfolding inspect
    inspect-panics corefile servers =
        elim (Result-cases (inspect_source c finite corefile_source corefile empty_inspection)) [
          | inl (out, e) ↦ rw (e, inspect) (inspect_keys-index servers _ _)
          | inr (x, e) ↦
              rw (e, inspect)
                (ap panics (sym e) ∙ inspect_source-index corefile_source corefile empty_inspection)
        ]

    -- If the lexer's line numbers count from 1 and stay within the lines of the text, `Inspect` never
    -- blanks a line that is not there: no index is out of range, whatever the sources hold.
    pub inspect-InRange :
        (corefile : Text) (servers : Dict Text) → inspect c finite corefile servers ≢ err bad_index
    inspect-InRange corefile servers h = ne_true (inspect-panics corefile servers) (ap panics h)
