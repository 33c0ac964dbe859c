-- ===== src/Api/Schema/Pattern.antt =====
-- api/v1alpha1/types.go: the pattern of a zone, as a regular expression on ASCII text, and the names
-- that it describes.
pub mod Labels
pub mod Names
pub mod Bytes
use zoneroute.Base.{ℕ, ◌≤◌, Bool, true, false, ◌&&◌, ◌||◌, List, [], ◌∷◌, ◌++◌, ◌≡◌, ◌⊎◌, leb, ◌==◌}
use zoneroute.Base.Lists.{length, All}
use zoneroute.Text.{Text, lower_byte, trim_suffix, split}
use zoneroute.Dnsname.{dot}
use zoneroute.Api.Schema.{all}

-- The forms of regular expressions that the pattern is made of; a class is a test on a byte.
infixr 65 ◌⊙◌
pub data Regex : Type 0 where
  byte_in : (ℕ → Bool) → Regex
  ◌⊙◌ : Regex → Regex → Regex
  optional : Regex → Regex
  many : Regex → Regex
  up_to : ℕ → Regex → Regex

abbrev pub concat : List Text → Text
concat [] = []
concat (s ∷ l) = s ++ concat l

-- The whole text matches.
abbrev pub Matches : Regex → Text → Type 0
Matches (byte_in p) s = (c : ℕ) × (s ≡ c ∷ []) × (p c ≡ true)
Matches (a ⊙ b) s = (u : Text) × (v : Text) × (s ≡ u ++ v) × Matches a u × Matches b v
Matches (optional r) s = (s ≡ []) ⊎ Matches r s
Matches (many r) s = (parts : List Text) × (s ≡ concat parts) × All (Matches r) parts
Matches (up_to n r) s =
    (parts : List Text) × (s ≡ concat parts) × (length parts ≤ n) × All (Matches r) parts

-- `[a-z0-9]` and `[a-z0-9-]` under `(?i)`.
unfoldable pub is_alnum : ℕ → Bool
is_alnum c =
    (leb b'a' (lower_byte c) && leb (lower_byte c) b'z')
    || (leb b'0' (lower_byte c) && leb (lower_byte c) b'9')

unfoldable pub is_ldh : ℕ → Bool
unfolding is_alnum
is_ldh c = is_alnum c || lower_byte c == b'-'

abbrev pub is_dot : ℕ → Bool
is_dot c = c == b'.'

-- `[a-z0-9]([a-z0-9-]{0,61}[a-z0-9])?`
abbrev pub label_pattern : Regex
label_pattern = byte_in is_alnum ⊙ optional (up_to 61 (byte_in is_ldh) ⊙ byte_in is_alnum)

-- `^(?i)([a-z0-9]([a-z0-9-]{0,61}[a-z0-9])?\.)*[a-z0-9]([a-z0-9-]{0,61}[a-z0-9])?\.?$`
abbrev pub zone_pattern : Regex
zone_pattern = many (label_pattern ⊙ byte_in is_dot) ⊙ label_pattern ⊙ optional (byte_in is_dot)

-- Letters, digits and hyphens, the last byte no hyphen.
unfoldable pub tail_ok : Text → Bool
unfolding is_alnum is_ldh
tail_ok [] = true
tail_ok (c ∷ []) = is_alnum c
tail_ok (c ∷ d ∷ s) = is_ldh c && tail_ok (d ∷ s)

-- A label: 1 to 63 letters, digits and hyphens, the first and the last no hyphen.
unfoldable pub is_label : Text → Bool
unfolding is_alnum tail_ok
is_label [] = false
is_label (c ∷ s) = is_alnum c && (tail_ok s && leb (length s) 62)

-- Labels between dots, and one more dot at the end if one likes.
unfoldable pub is_zone_name : Text → Bool
unfolding is_label
is_zone_name z = all is_label (split (trim_suffix z dot) b'.')
