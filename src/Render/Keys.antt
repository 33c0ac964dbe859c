-- ===== src/Render/Keys.antt =====
-- The keys that `Render` writes are those that `Inspect` and `Resolve` think of.
use mathlib.Core.List.{Mem, mem-map}
use mathlib.Core.List.Perm
use mathlib.Core.Logic.{∥∥₁_elim, ∥∥₁_map}
use zoneroute.Base.{ℕ, false, ◌||◌, List, [], ◌∷◌, ◌++◌, map, ◌≡◌, refl, ◌∙◌, ap, sym, arith, ◌==◌}
use zoneroute.Result.{ok}
use zoneroute.Text.{Text, codes, has_suffix, trim_suffix, lower_byte, to_lower}
use zoneroute.Text.Order.{lt}
use zoneroute.Text.Suffix.{trim_suffix-append}
use zoneroute.Sort.Unique.{sort-perm}
use zoneroute.Net.{has_byte}
use zoneroute.Dnsname.{dot, canonical}
use zoneroute.Dnsname.Trim.{has_suffix-to_lower, trim_suffix-absent}
use zoneroute.Corefile.Key.{parse_key}
use zoneroute.Corefile.Key.Laws.{parse_key-bare}
use zoneroute.Render.{zone_keys}

lower_byte-colon : (c : ℕ) → (lower_byte c == b':') ≡ (c == b':')
unfolding lower_byte
lower_byte-colon c = ground arith

has_byte-to_lower : (s : Text) → has_byte b':' (to_lower s) ≡ has_byte b':' s
unfolding has_byte to_lower
has_byte-to_lower [] = refl
has_byte-to_lower (c ∷ s) = λ i. lower_byte-colon c i || has_byte-to_lower s i

pub has_byte-trim_suffix :
    (b : ℕ) (s t : Text) → has_byte b s ≡ false → has_byte b (trim_suffix s t) ≡ false
unfolding has_byte trim_suffix
has_byte-trim_suffix b [] t h = refl
has_byte-trim_suffix b (c ∷ s) t h =
    let tail : has_byte b s ≡ false = ground (arith, h) in
    let rest = has_byte-trim_suffix b s t tail in ground (arith, h, rest)

-- The name has no colon, and no dot is left when one is cut off its end.
pub record IsName (z : Text) : Type 0 where
  pub no_colon : has_byte b':' z ≡ false
  pub one_dot : has_suffix (trim_suffix z dot) dot ≡ false

trim-canonical : (z : Text) → trim_suffix (canonical z) dot ≡ to_lower (trim_suffix z dot)
unfolding canonical
trim-canonical z = trim_suffix-append (to_lower (trim_suffix z dot)) [] b'.'

to_lower_twice : (s : Text) → to_lower (to_lower s) ≡ to_lower s
unfolding to_lower lower_byte
to_lower_twice [] = refl
to_lower_twice (c ∷ s) = ground (arith, to_lower_twice s)

-- The name without its dot has the same canonical form.
canonical-trim : (z : Text) → IsName z → canonical (to_lower (trim_suffix z dot)) ≡ canonical z
unfolding canonical
canonical-trim z p =
    ap (λ t. to_lower t ++ dot)
      (trim_suffix-absent _ dot (has_suffix-to_lower (trim_suffix z dot) ∙ p.one_dot))
    ∙ ap (λ t. t ++ dot) (to_lower_twice (trim_suffix z dot))

key-Listener :
    (z : Text)
    → IsName z
    → parse_key (trim_suffix (canonical z) dot)
      ≡ ok (record { transport = codes "dns"; zone = canonical z; port = 53 })
key-Listener z p =
    ap parse_key (trim-canonical z)
    ∙ parse_key-bare (to_lower (trim_suffix z dot))
        (has_byte-to_lower (trim_suffix z dot) ∙ has_byte-trim_suffix b':' z dot p.no_colon)
    ∙ ap (λ w. ok (record { transport = codes "dns"; zone = w; port = 53 })) (canonical-trim z p)

-- The listener of a rendered block is the one that `Resolve` assumes: every key that `Render`
-- writes for zones without colons and doubled final dots is parsed by `parseKey` as plain DNS on
-- port 53, for the canonical form of one of the zones.
pub zone_keys-Listener :
    (zones : List Text)
    → ((z : Text) → Mem z zones → IsName z)
    → (k : Text) → Mem k (zone_keys zones)
    → ∥ (
        (z : Text) × Mem z zones
        × (parse_key k ≡ ok (record { transport = codes "dns"; zone = canonical z; port = 53 }))) ∥₁
unfolding zone_keys
zone_keys-Listener zones valid k m = ∥∥₁_elim (mem-map.0 m) squash₁ λ (w, mw, e).
    ∥∥₁_map (mem-map.0 ((Perm.mem_iff (sort-perm lt (map canonical zones))).0 mw)) λ (z, mz, q). (
      z,
      mz,
      ap parse_key (sym e ∙ ap (λ t. trim_suffix t dot) (sym q)) ∙ key-Listener z (valid z mz),
    )
