-- ===== src/Corefile.antt =====
-- internal/corefile/corefile.go: what CoreDNS configuration text defines.
pub mod Key
pub mod Scan
pub mod Tokens
pub mod Foreign
pub mod Wired
pub mod Wiring
pub mod Found
pub mod Sources
pub mod Lines
pub mod Tests
use zoneroute.Base.{
  ℕ, zero, suc, Bool, true, false, not, ◌&&◌, ◌||◌, List, [], ◌∷◌, ◌++◌, map, Option, none, some,
  ◌==◌, if◌then◌else◌,
}
use zoneroute.Base.Int.{is_positive}
use zoneroute.Base.Lists.{filter}
use zoneroute.Result.{Result, ok, err}
use zoneroute.Text.{Text, codes, same, has_suffix, split, join}
use zoneroute.Text.Order.{lt}
use zoneroute.Sort.{sort}
use zoneroute.Dict.{Dict, lookup, contains}
use zoneroute.Caddyfile.{Caddyfile, IsFinite}
use zoneroute.Corefile.Key.{Listener, KeyError, same_listener, parse_key}
use zoneroute.Corefile.Scan.{ImportStmt, scan_imports}

abbrev pub managed_key : Text
managed_key = codes "zoneroute.server"

abbrev pub wiring_import : Text
wiring_import = codes "custom/*.server"

abbrev pub corefile_source : Text
corefile_source = codes "Corefile"

abbrev pub server_suffix : Text
server_suffix = codes ".server"

pub record Import : Type 0 where
  pub source : Text
  pub line : ℕ
  pub pattern : Text

-- The map from listeners to sources, as an association list.
abbrev pub Listeners : Type 0
Listeners = List (Listener × Text)

-- The `Result` of the source.
pub record Inspection : Type 0 where
  pub listeners : Listeners
  pub wired : Bool
  pub unresolved_imports : List Import

-- Why `Inspect` fails: CoreDNS's parser or `parseKey` refuses a source. `bad_index` stands for the
-- run-time panic of an index out of range.
pub data InspectError : Type 0 where
  parse_failed : Text → Text → InspectError
  bad_key : Text → KeyError → InspectError
  bad_index : InspectError

-- `_, seen := res.Listeners[l]`
unfoldable pub listed : Listener → Listeners → Bool
listed l [] = false
listed l ((k, s) ∷ ls) = same_listener k l || listed l ls

unfoldable pub add_listener : Text → Listener → Listeners → Listeners
unfolding listed
add_listener source l ls = if listed l ls then ls else ls ++ ((l, source) ∷ [])

-- The loop over the keys of the blocks.
unfoldable pub add_keys : Text → List Text → Listeners → Result InspectError Listeners
add_keys source [] ls = ok ls
add_keys source (key ∷ keys) ls = elim (parse_key key) [
  | err e ↦ err (bad_key source e)
  | ok l ↦ add_keys source keys (add_listener source l ls)
]

unfoldable pub flatten : List (List Text) → List Text
flatten [] = []
flatten (ks ∷ kss) = ks ++ flatten kss

-- `lines[n-1] = ""`; `none` is an index out of range.
unfoldable pub blank_line : ℕ → List Text → Option (List Text)
blank_line zero lines = none
blank_line (suc n) [] = none
blank_line (suc zero) (s ∷ lines) = some ([] ∷ lines)
blank_line (suc (suc n)) (s ∷ lines) = elim (blank_line (suc n) lines) [
  | none ↦ none
  | some rest ↦ some (s ∷ rest)
]

unfoldable pub blank_lines : List ImportStmt → List Text → Option (List Text)
blank_lines [] lines = some lines
blank_lines (i ∷ imports) lines = elim (blank_line i.line lines) [
  | none ↦ none
  | some rest ↦ blank_lines imports rest
]

-- An import inside a block, or of a snippet of the same source.
unfoldable pub is_resolved : List Text → ImportStmt → Bool
is_resolved snippets i = is_positive i.depth || contains snippets i.pattern

unfoldable pub is_wiring : Text → ImportStmt → Bool
is_wiring source i = same source corefile_source && same i.pattern wiring_import

-- The last loop of `inspect`: whether the wiring import is there, and the unresolved ones.
unfoldable pub classify : Text → List Text → List ImportStmt → Bool × List Import
classify source snippets [] = (false, [])
classify source snippets (i ∷ imports) =
    let (wired, unresolved) = classify source snippets imports in
    if is_resolved snippets i
    then (wired, unresolved)
    else if is_wiring source i
    then (true, unresolved)
    else (wired, record { source = source; line = i.line; pattern = i.pattern } ∷ unresolved)

-- The text that is handed to the parser: the lines of the imports are blank.
unfoldable pub without_imports : Text → List ImportStmt → Option Text
without_imports text imports = elim (blank_lines imports (split text b'\n')) [
  | none ↦ none
  | some lines ↦ some (join lines (b'\n' ∷ []))
]

-- `servers[k]`, the empty text for a missing key.
unfoldable pub text_at : Text → Dict Text → Text
text_at k servers = elim (lookup k servers) [ none ↦ [] | some text ↦ text ]

-- The keys that are inspected.
unfoldable pub is_foreign_server : Text → Bool
is_foreign_server k = not (same k managed_key) && has_suffix k server_suffix

unfoldable pub server_keys : Dict Text → List Text
unfolding is_foreign_server
server_keys servers = sort lt (filter is_foreign_server (map (λ (e : Text × Text). e.0) servers))

abbrev pub empty_inspection : Inspection
empty_inspection = record { listeners = []; wired = false; unresolved_imports = [] }

module _ (c : Caddyfile) (finite : IsFinite c) where
  unfoldable pub parse_blocks : Text → Option Text → Result InspectError (List Text)
  parse_blocks source none = err bad_index
  parse_blocks source (some text) = elim (Caddyfile.parse c source text) [
    | err e ↦ err (parse_failed source e)
    | ok blocks ↦ ok (flatten blocks)
  ]

  -- `inspect`, which adds to the listeners and imports of `res` and leaves its `wired` alone.
  unfoldable pub inspect_source : Text → Text → Inspection → Result InspectError (Bool × Inspection)
  unfolding without_imports parse_blocks
  inspect_source source text res =
      let (imports, snippets) = scan_imports c finite source text in
      elim (parse_blocks source (without_imports text imports)) [
        | err e ↦ err e
        | ok keys ↦ elim (add_keys source keys res.listeners) [
          | err e ↦ err e
          | ok listeners ↦
              let (wired, unresolved) = classify source snippets imports in
              ok (
                wired,
                record res {
                  listeners = listeners;
                  unresolved_imports = res.unresolved_imports ++ unresolved;
                },
              )
        ]
      ]

  -- The loop over the sorted keys.
  unfoldable pub inspect_keys : Dict Text → List Text → Inspection → Result InspectError Inspection
  unfolding text_at inspect_source
  inspect_keys servers [] res = ok res
  inspect_keys servers (k ∷ keys) res = elim (inspect_source k (text_at k servers) res) [
    | err e ↦ err e
    | ok out ↦ inspect_keys servers keys out.1
  ]

  -- `Inspect`
  unfoldable pub inspect : Text → Dict Text → Result InspectError Inspection
  unfolding inspect_source inspect_keys server_keys
  inspect corefile servers = elim (inspect_source corefile_source corefile empty_inspection) [
    | err e ↦ err e
    | ok out ↦ inspect_keys servers (server_keys servers) (record (out.1) { wired = out.0 })
  ]
