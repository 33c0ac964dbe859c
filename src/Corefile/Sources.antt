-- ===== src/Corefile/Sources.antt =====
-- Which source a listener is reported with: the first one that defines it.
use zoneroute.Base.{Bool, List, [], ◌∷◌, map, ◌≡◌, refl, ◌∙◌, sym, ap, inl, inr, arith}
use zoneroute.Result.{ok, Result-cases}
use zoneroute.Text.{Text}
use zoneroute.Dict.{Dict}
use zoneroute.Caddyfile.{Caddyfile, IsFinite}
use zoneroute.Corefile.{
  Inspection, corefile_source, add_keys, without_imports, text_at, server_keys, empty_inspection,
  parse_blocks, inspect_source, inspect_keys, inspect,
}
use zoneroute.Corefile.Key.{Listener}
use zoneroute.Corefile.Scan.{scan_imports}
use zoneroute.Corefile.Found.{
  source_of, first_source, Parses, or_else, or_else-none, offered, add_keys-KeysAdded,
  or_else_assoc, first_source-cons,
}

module _ (c : Caddyfile) (finite : IsFinite c) where
  -- The listeners of one source: those of the keys that the parser finds once imports are blanked.
  pub record Reads (source text : Text) (ls : List Listener) : Type 0 where
    pub keys : List Text
    pub parser :
        parse_blocks c finite source (without_imports text (scan_imports c finite source text).0)
        ≡ ok keys
    pub parses : Parses keys ls

  -- All texts are read, in their order.
  abbrev pub AllRead : List (Text × Text) → List (Text × List Listener) → Type 0
  AllRead [] [] = Unit
  AllRead ((source, text) ∷ texts) ((source', ls) ∷ found) =
      (source ≡ source') × Reads source text ls × AllRead texts found
  AllRead _ _ = ⊥

  record SourceRead (source text : Text) (res out : Inspection) : Type 0 where
    ls : List Listener
    reads : Reads source text ls
    sources :
        (l : Listener)
        → source_of l out.listeners ≡ or_else (source_of l res.listeners) (offered source ls l)

  inspect_source-SourceRead :
      (source text : Text) (res : Inspection) (out : Bool × Inspection)
      → inspect_source c finite source text res ≡ ok out
      → SourceRead source text res out.1
  unfolding inspect_source
  inspect_source-SourceRead source text res out h =
      elim (Result-cases (
        parse_blocks c finite source
          (without_imports text (scan_imports c finite source text).0))) [
            | inr (x, e) ↦ absurd (ground (arith, h, e))
            | inl (ks, e) ↦ elim (Result-cases (add_keys source ks res.listeners)) [
              | inr (x, f) ↦ absurd (ground (arith, h, e, f))
              | inl (ls, f) ↦
                  let added = add_keys-KeysAdded source ks res.listeners ls f in
                  let kept : ls ≡ out.1.listeners = ground (arith, h, e, f) in
                  record {
                    ls = added.parsed;
                    reads = record { keys = ks; parser = e; parses = added.parses };
                    sources = λ l. ap (source_of l) (sym kept) ∙ added.sources l;
                  }
            ]
          ]

  -- The text of each key.
  abbrev pub texts_of : Dict Text → List Text → List (Text × Text)
  texts_of servers keys = map (λ k. (k, text_at k servers)) keys

  record AllSources (texts : List (Text × Text)) (res out : Inspection) : Type 0 where
    found : List (Text × List Listener)
    all_read : AllRead texts found
    sources :
        (l : Listener)
        → source_of l out.listeners ≡ or_else (source_of l res.listeners) (first_source l found)

  -- A source, and those after it.
  AllSources-cons :
      (source text : Text) (texts : List (Text × Text)) (res mid out : Inspection)
      → SourceRead source text res mid
      → AllSources texts mid out
      → AllSources ((source, text) ∷ texts) res out
  AllSources-cons source text texts res mid out one rest = record {
    found = (source, one.ls) ∷ rest.found;
    all_read = (refl, one.reads, rest.all_read);
    sources = λ l.
        rest.sources l
        ∙ ap (λ o. or_else o (first_source l rest.found)) (one.sources l)
        ∙ or_else_assoc (source_of l res.listeners) (offered source one.ls l)
            (first_source l rest.found)
        ∙ ap (or_else (source_of l res.listeners))
            (sym (first_source-cons l source one.ls rest.found));
  }

  inspect_keys-AllSources :
      (servers : Dict Text) (ks : List Text) (res out : Inspection)
      → inspect_keys c finite servers ks res ≡ ok out
      → AllSources (texts_of servers ks) res out
  unfolding inspect_keys first_source
  inspect_keys-AllSources servers [] res out h =
      let same_result : res ≡ out = ground (arith, h) in
      record {
        found = [];
        all_read = tt;
        sources = λ l.
            ap (λ (r : Inspection). source_of l r.listeners) (sym same_result)
            ∙ sym (or_else-none (source_of l res.listeners));
      }
  inspect_keys-AllSources servers (k ∷ ks) res out h =
      elim (Result-cases (inspect_source c finite k (text_at k servers) res)) [
        | inr (x, e) ↦ absurd (ground (arith, h, e))
        | inl (mid, e) ↦
            AllSources-cons k (text_at k servers) (texts_of servers ks) res mid.1 out
              (inspect_source-SourceRead k (text_at k servers) res mid e)
              (inspect_keys-AllSources servers ks mid.1 out (rw (e, inspect_keys) at h))
      ]

  -- Suppose that `Inspect` succeeds. Then every source was read, the Corefile first and after it the
  -- inspected entries of coredns-custom in bytewise order, and each key that the parser found in it
  -- stands for a listener. Of every listener the result gives the first source that defines it, and
  -- none if no source does.
  pub inspect-FirstSource :
      (corefile : Text) (servers : Dict Text) (res : Inspection)
      → inspect c finite corefile servers ≡ ok res
      → (found : List (Text × List Listener)) × AllRead
          ((corefile_source, corefile) ∷ texts_of servers (server_keys servers))
          found
        × ((l : Listener) → source_of l res.listeners ≡ first_source l found)
  unfolding inspect
  inspect-FirstSource corefile servers res h =
      elim (Result-cases (inspect_source c finite corefile_source corefile empty_inspection)) [
        | inr (x, e) ↦ absurd (ground (arith, h, e))
        | inl (out, e) ↦
            let one = inspect_source-SourceRead corefile_source corefile empty_inspection out e in
            let wired : Inspection = record (out.1) { wired = out.0 } in
            let all =
              AllSources-cons corefile_source corefile (texts_of servers (server_keys servers))
                empty_inspection wired res
                (record { ls = one.ls; reads = one.reads; sources = one.sources })
                (inspect_keys-AllSources servers (server_keys servers) wired res
                  (rw (e, inspect) at h)) in
            (all.found, all.all_read, λ l. all.sources l ∙ unfold source_of in refl)
      ]
