-- ===== src/Render/Lines.antt =====
-- The lines of the rendered text.
pub mod Clean
use mathlib.Core.Bool.{Bool-set}
use mathlib.Core.List.{Mem, append_assoc, mem-map, mem-cons_self, mem-cons_of_mem}
use mathlib.Core.List.Perm
use mathlib.Core.Logic.{∥∥₁_elim}
use zoneroute.Base.{
  ℕ, false, ◌||◌, List, [], ◌∷◌, ◌++◌, map, ◌≡◌, refl, ◌∙◌, sym, ap, subst, inl, inr, arith, ◌==◌,
  Bool-cases, Option-cases,
}
use zoneroute.Base.Lists.{All}
use zoneroute.Result.{ok}
use zoneroute.Text.{Text, codes, lower_byte, to_lower, trim_suffix, split, join}
use zoneroute.Text.Order.{lt}
use zoneroute.Text.Split.{split-append}
use zoneroute.Sort.{sort}
use zoneroute.Sort.Unique.{sort-perm}
use zoneroute.Strconv.{itoa}
use zoneroute.Net.{has_byte, join_host_port}
use zoneroute.Net.HostPort.{has_byte-append}
use zoneroute.Net.Plain.{itoa-no_newline}
use zoneroute.Dnsname.{dot, canonical}
use zoneroute.Caddyfile.{Caddyfile}
use zoneroute.Render.{
  Upstream, Route, header, effective_port, upstream_addr, default_port, zone_keys, upstream_words,
  block, blocks, by_name, fragment, validate, render,
}
use zoneroute.Render.Keys.{has_byte-trim_suffix}

-- The text has no line break.
abbrev pub IsLine : Text → Type 0
IsLine s = has_byte b'\n' s ≡ false

-- The lines, each with its line break.
unfoldable pub unlines : List Text → Text
unlines [] = []
unlines (l ∷ ls) = l ++ (b'\n' ∷ unlines ls)

unlines-append : (ls ms : List Text) → unlines (ls ++ ms) ≡ unlines ls ++ unlines ms
unfolding unlines
unlines-append [] ms = refl
unlines-append (l ∷ ls) ms =
    ap (λ w. l ++ (b'\n' ∷ w)) (unlines-append ls ms)
    ∙ sym (append_assoc l (b'\n' ∷ unlines ls) (unlines ms))

pub split-unlines : (ls : List Text) → All IsLine ls → split (unlines ls) b'\n' ≡ ls ++ ([] ∷ [])
unfolding unlines split
split-unlines [] h = refl
split-unlines (l ∷ ls) h = split-append b'\n' l (unlines ls) h.0 ∙ ap (◌∷◌ l) (split-unlines ls h.1)

-- The lines of the block of a route, an empty one before it.
unfoldable pub block_lines : Route → List Text
block_lines r =
    []
    ∷ (codes "# zoneroute: "
        ++ (r.name ++ (codes " (generation " ++ (itoa r.generation ++ codes ")"))))
    ∷ (join (zone_keys r.zones) (codes " ") ++ codes " {")
    ∷ (codes "    forward ." ++ (upstream_words r.upstreams ++ codes " {"))
    ∷ codes "        policy sequential"
    ∷ codes "    }"
    ∷ codes "}"
    ∷ []

unfoldable pub all_lines : List Route → List Text
all_lines [] = []
all_lines (r ∷ rs) = block_lines r ++ all_lines rs

abbrev pub header_line : Text
header_line = codes "# Managed by ZoneRoute. Edits are overwritten."

block-unlines : (r : Route) → unlines (block_lines r) ≡ block r
unfolding unlines block_lines block
block-unlines r =
    let n = itoa r.generation in
    let keys = join (zone_keys r.zones) (codes " ") in
    let words = upstream_words r.upstreams in
    let end : Text = codes "\n        policy sequential\n    }\n}\n" in
    let forward : Text = codes "\n    forward ." ++ ((words ++ codes " {") ++ end) in
    let last = append_assoc words (codes " {") end in
    let body =
      append_assoc keys (codes " {") forward
      ∙ ap (λ w. keys ++ (codes " {\n    forward ." ++ w)) last in
    let rest : Text = b'\n' ∷ ((keys ++ codes " {") ++ forward) in
    let title =
      append_assoc r.name (codes " (generation " ++ (n ++ codes ")")) rest
      ∙ ap (λ w. r.name ++ (codes " (generation " ++ w)) (append_assoc n (codes ")") rest) in
    ap (λ w. codes "\n# zoneroute: " ++ w)
      (title ∙ ap (λ w. r.name ++ (codes " (generation " ++ (n ++ (codes ")\n" ++ w)))) body)

pub blocks-unlines : (rs : List Route) → unlines (all_lines rs) ≡ blocks rs
unfolding all_lines blocks unlines
blocks-unlines [] = refl
blocks-unlines (r ∷ rs) =
    unlines-append (block_lines r) (all_lines rs) ∙ (λ i. block-unlines r i ++ blocks-unlines rs i)
