-- ===== src/Corefile/Scan/Total.antt =====
-- The loop of `scanImports` ends.
use zoneroute.Base.{
  ℕ, zero, suc, ◌≤◌, ◌<◌, Option, none, some, ◌≡◌, refl, ap, inl, inr, arith, Option-cases, [],
}
use zoneroute.Text.{Text}
use zoneroute.Caddyfile.{Caddyfile, IsFinite}
use zoneroute.Corefile.Scan.{ScanState, scan_start, scan_import, scan_token, scan, scan_imports}

module _ (c : Caddyfile) where
  -- The loop without fuel: it stops at the end of the tokens, or takes one and goes on.
  pub data Scans : ScanState → Caddyfile.Dispenser c → ScanState → Type 0 where
    stop : (s : ScanState) (d : Caddyfile.Dispenser c) → Caddyfile.next c d ≡ none → Scans s d s
    step :
        (s t : ScanState) (d e : Caddyfile.Dispenser c)
        → Caddyfile.next c d ≡ some e
        → Scans (scan_token c s e).0 (scan_token c s e).1 t
        → Scans s d t

module _ (c : Caddyfile) (finite : IsFinite c) where
  scan_import-remaining :
      (n : ℕ) (s : ScanState) (d : Caddyfile.Dispenser c)
      → IsFinite.remaining finite (scan_import c n s d (Caddyfile.next_arg c d)).1
        ≤ IsFinite.remaining finite d
  scan_import-remaining n s d = elim (Option-cases (Caddyfile.next_arg c d)) [
    | inl h ↦ unfold scan_import in rw h (omega arith)
    | inr (e, h) ↦ unfold scan_import in rw h (omega (arith, IsFinite.next_arg_falls finite d e h))
  ]

  scan_token-remaining :
      (s : ScanState) (d : Caddyfile.Dispenser c)
      → IsFinite.remaining finite (scan_token c s d).1 ≤ IsFinite.remaining finite d
  unfolding scan_token
  scan_token-remaining s d = ground (
    arith,
    scan_import-remaining (Caddyfile.line c d) (record s { prev_line = Caddyfile.line c d }) d,
  )

  scan-Scans :
      (fuel : ℕ) (s : ScanState) (d : Caddyfile.Dispenser c)
      → IsFinite.remaining finite d < fuel
      → (t : ScanState) × Scans c s d t × (scan c fuel s d ≡ some t)
  unfolding scan
  scan-Scans zero s d h = absurd (omega (arith, h))
  scan-Scans (suc fuel) s d h = elim (Option-cases (Caddyfile.next c d)) [
    | inl e ↦ (s, stop s d e, rw (e, scan) refl)
    | inr (x, e) ↦
        let falls = IsFinite.next_falls finite d x e in
        let (t, r, q) =
          scan-Scans fuel (scan_token c s x).0 (scan_token c s x).1
            (omega (arith, h, falls, scan_token-remaining s x)) in
        (t, step s t d x e r, rw (e, scan) q)
  ]

  -- `scanImports` ends: its loop, which has no bound in the source, takes finitely many steps
  -- from the start of the text to a last state, and the result is what that state has collected.
  pub scan_imports-Scans :
      (source text : Text)
      → (t : ScanState) × Scans c scan_start (Caddyfile.new_dispenser c source text) t
        × (scan_imports c finite source text ≡ (t.imports, t.snippets))
  unfolding scan_imports
  scan_imports-Scans source text =
      let d = Caddyfile.new_dispenser c source text in
      let (t, r, q) = scan-Scans (suc (IsFinite.remaining finite d)) scan_start d (omega arith) in
      (
        t,
        r,
        ap (λ (o : Option ScanState). elim o [ none ↦ ([], []) | some s ↦ (s.imports, s.snippets) ])
            q,
      )
