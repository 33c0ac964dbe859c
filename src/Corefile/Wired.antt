-- ===== src/Corefile/Wired.antt =====
-- internal/corefile/corefile.go: where the field Wired of an inspection comes from.
use zoneroute.Base.{Bool, not, ◌&&◌, List, [], ◌∷◌, ◌≡◌, refl, ◌∙◌, inl, inr, arith}
use zoneroute.Base.Lists.{any}
use zoneroute.Result.{ok, Result-cases}
use zoneroute.Text.{Text}
use zoneroute.Dict.{Dict}
use zoneroute.Caddyfile.{Caddyfile, IsFinite}
use zoneroute.Corefile.Scan.{ImportStmt, scan_imports}
use zoneroute.Corefile.{
  Inspection, corefile_source, is_resolved, is_wiring, classify, without_imports, parse_blocks,
  add_keys, text_at, server_keys, inspect_source, inspect_keys, inspect, empty_inspection,
}

-- The test for the import that wires the Corefile.
unfoldable pub wires : List Text → ImportStmt → Bool
wires snippets i = not (is_resolved snippets i) && is_wiring corefile_source i

classify-wires :
    (snippets : List Text) (is : List ImportStmt)
    → (classify corefile_source snippets is).0 ≡ any (wires snippets) is
unfolding classify any wires
classify-wires snippets [] = refl
classify-wires snippets (i ∷ is) = ground (arith, classify-wires snippets is)

module _ (c : Caddyfile) (finite : IsFinite c) where
  -- A source changes nothing of the `wired` that is kept, and reports its own imports.
  inspect_source-wired :
      (source text : Text) (res : Inspection) (out : Bool × Inspection)
      → inspect_source c finite source text res ≡ ok out
      → (out.0
          ≡ (classify source
              (scan_imports c finite source text).1
              (scan_imports c finite source text).0).0)
        × (out.1.wired ≡ res.wired)
  unfolding inspect_source
  inspect_source-wired source text res out h =
      elim (Result-cases (
        parse_blocks c finite source
          (without_imports text (scan_imports c finite source text).0))) [
            | inr (x, e) ↦ absurd (ground (arith, h, e))
            | inl (ks, e) ↦ elim (Result-cases (add_keys source ks res.listeners)) [
              | inr (x, f) ↦ absurd (ground (arith, h, e, f))
              | inl (ls, f) ↦ ground (arith, h, e, f)
            ]
          ]

  inspect_keys-wired :
      (servers : Dict Text) (ks : List Text) (res out : Inspection)
      → inspect_keys c finite servers ks res ≡ ok out
      → out.wired ≡ res.wired
  unfolding inspect_keys
  inspect_keys-wired servers [] res out h = ground (arith, h)
  inspect_keys-wired servers (k ∷ ks) res out h =
      elim (Result-cases (inspect_source c finite k (text_at k servers) res)) [
        | inr (x, e) ↦ absurd (ground (arith, h, e))
        | inl (mid, e) ↦
            inspect_keys-wired servers ks mid.1 out (rw (e, inspect_keys) at h)
            ∙ (inspect_source-wired k (text_at k servers) res mid e).1
      ]

  -- What an inspection reports comes from the imports and snippets of the Corefile.
  pub inspect-wires :
      (corefile : Text) (servers : Dict Text) (res : Inspection)
      → inspect c finite corefile servers ≡ ok res
      → res.wired
        ≡ any
            (wires (scan_imports c finite corefile_source corefile).1)
            (scan_imports c finite corefile_source corefile).0
  unfolding inspect
  inspect-wires corefile servers res h =
      let (imports, snippets) = scan_imports c finite corefile_source corefile in
      elim (Result-cases (inspect_source c finite corefile_source corefile empty_inspection)) [
        | inr (x, e) ↦ absurd (ground (arith, h, e))
        | inl (out, e) ↦
            inspect_keys-wired servers (server_keys servers) (record (out.1) { wired = out.0 }) res
              (rw (e, inspect) at h)
            ∙ (inspect_source-wired corefile_source corefile empty_inspection out e).0
            ∙ classify-wires snippets imports
      ]
