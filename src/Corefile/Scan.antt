-- ===== src/Corefile/Scan.antt =====
-- `scanImports`: the import statements of a source and the snippets that it defines.
pub mod Total
use zoneroute.Base.{
  ℕ, zero, suc, Bool, true, false, not, ◌&&◌, ◌||◌, List, [], ◌∷◌, ◌++◌, Option, none, some, ltb,
  ◌==◌, if◌then◌else◌,
}
use zoneroute.Base.Int.{ℤ, pos, inc, dec, is_zero}
use zoneroute.Base.Lists.{length}
use zoneroute.Text.{Text, codes, same, has_suffix, starts_with, inner}
use zoneroute.Caddyfile.{Caddyfile, IsFinite}

pub record ImportStmt : Type 0 where
  pub line : ℕ
  pub pattern : Text
  pub depth : ℤ

-- The variables of the loop; `snippets` holds the keys of the map.
pub record ScanState : Type 0 where
  pub imports : List ImportStmt
  pub snippets : List Text
  pub depth : ℤ
  pub prev_line : ℕ

abbrev pub scan_start : ScanState
scan_start = record { imports = []; snippets = []; depth = pos 0; prev_line = 0 }

-- `len(v) > 2 && v[0] == '(' && v[len(v)-1] == ')'`
unfoldable pub is_snippet : Text → Bool
is_snippet v = ltb 2 (length v) && (starts_with b'(' v && has_suffix v (codes ")"))

module _ (c : Caddyfile) where
  open c use {Dispenser, new_dispenser, next, next_arg, val, line}

  -- `import` at the start of a line: its argument, if there is one on the line.
  unfoldable pub scan_import : ℕ → ScanState → Dispenser → Option Dispenser → ScanState × Dispenser
  scan_import n s d none = (s, d)
  scan_import n s d (some e) = (
    record s {
      imports = s.imports ++ (record { line = n; pattern = val e; depth = s.depth } ∷ []);
    },
    e,
  )

  -- The body of the loop, at the token that was loaded.
  unfoldable pub scan_token : ScanState → Dispenser → ScanState × Dispenser
  unfolding scan_import
  scan_token t d =
      let v = val d in
      let n = line d in
      let line_start = not (n == t.prev_line) in
      let s = record t { prev_line = n } in
      if same v (codes "{")
      then (record s { depth = inc s.depth }, d)
      else if same v (codes "}")
      then (record s { depth = dec s.depth }, d)
      else if line_start && (is_zero s.depth && is_snippet v)
      then (record s { snippets = inner v ∷ s.snippets }, d)
      else if line_start && same v (codes "import")
      then scan_import n s d (next_arg d)
      else (s, d)

  -- The loop, on fuel; `none` means that the fuel ran out.
  unfoldable pub scan : ℕ → ScanState → Dispenser → Option ScanState
  unfolding scan_token
  scan zero s d = none
  scan (suc fuel) s d = elim (next d) [
    | none ↦ some s
    | some e ↦ let (s', e') = scan_token s e in scan fuel s' e'
  ]

-- `scanImports`. The fuel is the number of tokens and one more.
unfoldable pub scan_imports :
    (c : Caddyfile) → IsFinite c → Text → Text → List ImportStmt × List Text
unfolding scan
scan_imports c finite source text =
    let d = Caddyfile.new_dispenser c source text in
    elim (scan c (suc (IsFinite.remaining finite d)) scan_start d) [
      | none ↦ ([], [])
      | some s ↦ (s.imports, s.snippets)
    ]
