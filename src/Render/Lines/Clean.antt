-- ===== src/Render/Lines/Clean.antt =====
-- Routes whose values have no line breaks, and what is rendered for them.
use mathlib.Core.Bool.{Bool-set}
use mathlib.Core.List.{Mem, mem-map, mem-cons_self, mem-cons_of_mem}
use mathlib.Core.List.Perm
use mathlib.Core.Logic.{∥∥₁_elim}
use zoneroute.Base.{
  ℕ, ◌||◌, List, [], ◌∷◌, ◌++◌, map, ◌≡◌, refl, ◌∙◌, sym, ap, subst, inl, inr, arith, ◌==◌,
  Bool-cases, Option-cases,
}
use zoneroute.Base.Lists.{All}
use zoneroute.Result.{ok}
use zoneroute.Text.{Text, codes, lower_byte, to_lower, trim_suffix, split, join}
use zoneroute.Text.Order.{lt}
use zoneroute.Sort.{sort}
use zoneroute.Sort.Unique.{sort-perm}
use zoneroute.Strconv.{itoa}
use zoneroute.Net.{has_byte, join_host_port}
use zoneroute.Net.HostPort.{has_byte-append}
use zoneroute.Net.Plain.{itoa-no_newline}
use zoneroute.Dnsname.{dot, canonical}
use zoneroute.Caddyfile.{Caddyfile}
use zoneroute.Render.{
  Upstream, Route, header, effective_port, upstream_addr, default_port, zone_keys, upstream_words,
  by_name, fragment, validate, render,
}
use zoneroute.Render.Keys.{has_byte-trim_suffix}
use zoneroute.Render.Lines.{
  IsLine, unlines, split-unlines, block_lines, all_lines, header_line, blocks-unlines,
}

-- Names, zones and addresses without line breaks.
pub record IsClean (r : Route) : Type 0 where
  pub name : IsLine r.name
  pub zones : (z : Text) → Mem z r.zones → IsLine z
  pub upstreams : (u : Upstream) → Mem u r.upstreams → IsLine u.address

IsLine-append : (s t : Text) → IsLine s → IsLine t → IsLine (s ++ t)
IsLine-append s t h k = has_byte-append b'\n' s t ∙ (λ i. h i || k i)

lower_byte-newline : (c : ℕ) → (lower_byte c == b'\n') ≡ (c == b'\n')
unfolding lower_byte
lower_byte-newline c = ground arith

IsLine-to_lower : (s : Text) → has_byte b'\n' (to_lower s) ≡ has_byte b'\n' s
unfolding has_byte to_lower
IsLine-to_lower [] = refl
IsLine-to_lower (c ∷ s) = λ i. lower_byte-newline c i || IsLine-to_lower s i

canonical-IsLine : (z : Text) → IsLine z → IsLine (canonical z)
unfolding canonical
canonical-IsLine z h =
    IsLine-append (to_lower (trim_suffix z dot)) dot
      (IsLine-to_lower (trim_suffix z dot) ∙ has_byte-trim_suffix b'\n' z dot h)
      (unfold has_byte in refl)

join-IsLine :
    (l : List Text) (sep : Text)
    → IsLine sep
    → ((s : Text) → Mem s l → IsLine s)
    → IsLine (join l sep)
unfolding join
join-IsLine [] sep h k = unfold has_byte in refl
join-IsLine (s ∷ []) sep h k = k s mem-cons_self
join-IsLine (s ∷ t ∷ l) sep h k = IsLine-append s (sep ++ join (t ∷ l) sep) (k s mem-cons_self) (
    IsLine-append sep (join (t ∷ l) sep) h
      (join-IsLine (t ∷ l) sep h (λ x m. k x (mem-cons_of_mem s m))))

key-IsLine :
    (zones : List Text) (k : Text)
    → ((z : Text) → Mem z zones → IsLine z)
    → Mem k (zone_keys zones)
    → IsLine k
unfolding zone_keys
key-IsLine zones k h m = ∥∥₁_elim (mem-map.0 m) (Bool-set _ _) λ (w, mw, e).
    ∥∥₁_elim (mem-map.0 ((Perm.mem_iff (sort-perm lt (map canonical zones))).0 mw)) (Bool-set _ _)
      λ (z, mz, q).
        subst IsLine e
          (has_byte-trim_suffix b'\n' w dot (subst IsLine q (canonical-IsLine z (h z mz))))

join_host_port-IsLine :
    (host port : Text) → IsLine host → IsLine port → IsLine (join_host_port host port)
unfolding join_host_port has_byte
join_host_port-IsLine host port h k = elim (Bool-cases (has_byte b':' host)) [
  | inl e ↦ rw (e) (IsLine-append host (b']' ∷ b':' ∷ port) h k)
  | inr e ↦ rw (e) (IsLine-append host (b':' ∷ port) h k)
]

upstream_addr-IsLine : (u : Upstream) → IsLine u.address → IsLine (upstream_addr u)
unfolding upstream_addr
upstream_addr-IsLine u h = elim (Bool-cases (effective_port u.port == default_port)) [
  | inl e ↦ rw (e) h
  | inr e ↦ rw (e) (
      join_host_port-IsLine u.address (itoa (effective_port u.port)) h
        (itoa-no_newline (effective_port u.port)))
]

words-IsLine :
    (us : List Upstream)
    → ((u : Upstream) → Mem u us → IsLine u.address)
    → IsLine (upstream_words us)
unfolding upstream_words
words-IsLine [] h = unfold has_byte in refl
words-IsLine (u ∷ us) h =
    IsLine-append (b' ' ∷ []) (upstream_addr u ++ upstream_words us) (unfold has_byte in refl) (
      IsLine-append (upstream_addr u) (upstream_words us)
        (upstream_addr-IsLine u (h u mem-cons_self))
        (words-IsLine us (λ v m. h v (mem-cons_of_mem u m))))

-- A text between two literals.
IsLine-between : (a s b : Text) → IsLine a → IsLine s → IsLine b → IsLine (a ++ (s ++ b))
IsLine-between a s b h k l = IsLine-append a (s ++ b) h (IsLine-append s b k l)

block_lines-IsLine : (r : Route) → IsClean r → All IsLine (block_lines r)
unfolding block_lines has_byte
block_lines-IsLine r h = (
  refl,
  (
    IsLine-between (codes "# zoneroute: ") r.name
        (codes " (generation " ++ (itoa r.generation ++ codes ")")) refl h.name
        (IsLine-between (codes " (generation ") (itoa r.generation) (codes ")") refl
          (itoa-no_newline r.generation) refl),
    (
      IsLine-append (join (zone_keys r.zones) (codes " ")) (codes " {")
          (join-IsLine (zone_keys r.zones) (codes " ") refl (λ k m. key-IsLine r.zones k h.zones m))
          refl,
      (
        IsLine-between (codes "    forward .") (upstream_words r.upstreams) (codes " {") refl
            (words-IsLine r.upstreams h.upstreams) refl,
        (refl, (refl, (refl, tt))),
      ),
    ),
  ),
)

All-append : (ls ms : List Text) → All IsLine ls → All IsLine ms → All IsLine (ls ++ ms)
All-append [] ms h k = k
All-append (l ∷ ls) ms h k = (h.0, All-append ls ms h.1 k)

all_lines-IsLine :
    (rs : List Route) → ((r : Route) → Mem r rs → IsClean r) → All IsLine (all_lines rs)
unfolding all_lines
all_lines-IsLine [] h = tt
all_lines-IsLine (r ∷ rs) h =
    All-append (block_lines r) (all_lines rs) (block_lines-IsLine r (h r mem-cons_self))
      (all_lines-IsLine rs (λ s m. h s (mem-cons_of_mem r m)))

fragment-lines :
    (routes : List Route)
    → ((r : Route) → Mem r routes → IsClean r)
    → split (fragment routes) b'\n' ≡ (header_line ∷ all_lines (sort by_name routes)) ++ ([] ∷ [])
unfolding fragment header unlines
fragment-lines routes h =
    let sorted = sort by_name routes in
    let lines =
      all_lines-IsLine sorted (λ r m. h r ((Perm.mem_iff (sort-perm by_name routes)).0 m)) in
    ap (λ w. split (header_line ++ (b'\n' ∷ w)) b'\n') (sym (blocks-unlines sorted))
    ∙ split-unlines (header_line ∷ all_lines sorted) (unfold has_byte in refl, lines)

module _ (c : Caddyfile) where
  -- Suppose that names, zones and addresses have no line breaks. What `Render` returns consists of the
  -- header and, for each route in the order of the names, the lines of its block, and of no other
  -- line: no value adds a line or takes one away.
  pub render-lines :
      (routes : List Route) (text : Text)
      → ((r : Route) → Mem r routes → IsClean r)
      → render c routes ≡ ok text
      → split text b'\n' ≡ (header_line ∷ all_lines (sort by_name routes)) ++ ([] ∷ [])
  unfolding render
  render-lines routes text h e = elim (Option-cases (validate c (fragment routes))) [
    | inl q ↦
        let same_text : fragment routes ≡ text = ground (arith, e, q) in
        ap (λ w. split w b'\n') (sym same_text) ∙ fragment-lines routes h
    | inr (x, q) ↦ absurd (ground (arith, e, q))
  ]
