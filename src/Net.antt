-- ===== src/Net.antt =====
-- `net.JoinHostPort`, `net.SplitHostPort`, and the searches of package `strings` behind them.
pub mod HostPort
pub mod Plain
use zoneroute.Base.{
  ℕ, Bool, true, false, not, ◌&&◌, ◌||◌, List, [], ◌∷◌, ◌++◌, Option, none, some, ◌==◌,
  if◌then◌else◌,
}
use zoneroute.Result.{Result, ok, err}
use zoneroute.Text.{Text, codes}

-- `strings.Contains` of one byte.
unfoldable pub has_byte : ℕ → Text → Bool
has_byte b [] = false
has_byte b (c ∷ s) = c == b || has_byte b s

abbrev cons_first : ℕ → Option (Text × Text) → Option (Text × Text)
cons_first c none = none
cons_first c (some (a, b)) = some (c ∷ a, b)

-- The text before and after the first, or the last, occurrence of the byte.
unfoldable pub split_first : ℕ → Text → Option (Text × Text)
split_first b [] = none
split_first b (c ∷ s) =
    let rest = cons_first c (split_first b s) in if c == b then some ([], s) else rest

abbrev last_or : ℕ → ℕ → Text → Option (Text × Text) → Option (Text × Text)
last_or b c s none = if c == b then some ([], s) else none
last_or b c s (some (x, y)) = some (c ∷ x, y)

unfoldable pub split_last : ℕ → Text → Option (Text × Text)
split_last b [] = none
split_last b (c ∷ s) = last_or b c s (split_last b s)

-- The rest of the text behind a prefix.
unfoldable pub strip_prefix : Text → Text → Option Text
strip_prefix s [] = some s
strip_prefix [] (p ∷ ps) = none
strip_prefix (c ∷ s) (p ∷ ps) = let rest = strip_prefix s ps in if c == p then rest else none

-- `strings.Cut`: the text before and after the first occurrence of the separator.
unfoldable pub cut : Text → Text → Option (Text × Text)
unfolding strip_prefix
cut [] sep = elim (strip_prefix [] sep) [ some rest ↦ some ([], rest) | none ↦ none ]
cut (c ∷ s) sep =
    let later = cons_first c (cut s sep) in
    elim (strip_prefix (c ∷ s) sep) [ some rest ↦ some ([], rest) | none ↦ later ]

-- `net.JoinHostPort`
unfoldable pub join_host_port : Text → Text → Text
unfolding has_byte
join_host_port host port =
    if has_byte b':' host then (b'[' ∷ host) ++ (codes "]:" ++ port) else host ++ (b':' ∷ port)

-- The messages of `net.AddrError`.
pub data AddrError : Type 0 where
  missing_port too_many_colons missing_bracket unexpected_open unexpected_close : AddrError

-- The checks for stray brackets at the end of `SplitHostPort`: `opens` and `closes` are the parts
-- of the text that they search.
unfoldable pub check_brackets : Text → Text → Text → Text → Result AddrError (Text × Text)
unfolding has_byte
check_brackets opens closes host port =
    if has_byte b'[' opens
    then err unexpected_open
    else if has_byte b']' closes
    then err unexpected_close
    else ok (host, port)

-- `after` is the text behind the first closing bracket, `rest` that behind the opening one.
unfoldable pub split_after : Text → Text → Text → Result AddrError (Text × Text)
unfolding check_brackets
split_after rest inside [] = err missing_port
split_after rest inside (c ∷ port) =
    if not (c == b':')
    then err missing_port
    else if has_byte b':' port
    then err too_many_colons
    else check_brackets rest (c ∷ port) inside port

unfoldable pub split_bracketed : Text → Option (Text × Text) → Result AddrError (Text × Text)
unfolding split_after
split_bracketed rest none = err missing_bracket
split_bracketed rest (some (inside, after)) = split_after rest inside after

unfoldable pub split_plain : Text → Option (Text × Text) → Result AddrError (Text × Text)
unfolding check_brackets
split_plain s none = err missing_port
split_plain s (some (host, port)) =
    if has_byte b':' host then err too_many_colons else check_brackets s s host port

-- `net.SplitHostPort`
unfoldable pub split_host_port : Text → Result AddrError (Text × Text)
unfolding split_bracketed split_plain split_first split_last
split_host_port [] = err missing_port
split_host_port (c ∷ s) =
    if not (has_byte b':' (c ∷ s))
    then err missing_port
    else if c == b'['
    then split_bracketed s (split_first b']' s)
    else split_plain (c ∷ s) (split_last b':' (c ∷ s))
