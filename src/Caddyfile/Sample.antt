-- ===== src/Caddyfile/Sample.antt =====
-- A small stand-in for CoreDNS's lexer and parser, on which the tests run: tokens are the words of
-- the lines, and a line that ends in "{" opens a block whose keys stand before it.
use zoneroute.Base.{
  ap, ℕ, suc, ◌<◌, ◌≡◌, List, [], ◌∷◌, Option, none, some, ◌==◌, if◌then◌else◌, arith,
}
use zoneroute.Base.Lists.{length}
use zoneroute.Result.{ok}
use zoneroute.Text.{Text, codes, same, split, has_suffix}
use zoneroute.Caddyfile.{Caddyfile, IsFinite}

-- The token that was loaded, and those behind it.
pub record Cursor : Type 0 where
  pub token : ℕ × Text
  pub rest : List (ℕ × Text)

abbrev pub add_words : ℕ → List Text → List (ℕ × Text) → List (ℕ × Text)
add_words n [] rest = rest
add_words n (w ∷ ws) rest =
    let more = add_words n ws rest in if same w [] then more else (n, w) ∷ more

abbrev pub tokens : ℕ → List Text → List (ℕ × Text)
tokens n [] = []
tokens n (l ∷ ls) = add_words n (split l b' ') (tokens (suc n) ls)

abbrev pub advance : Cursor → Option Cursor
advance d = elim d.rest [ [] ↦ none | t ∷ ts ↦ some (record { token = t; rest = ts }) ]

abbrev same_line : Cursor → Option Cursor → Option Cursor
same_line d none = none
same_line d (some e) = if e.token.0 == d.token.0 then some e else none

abbrev line_keys : List Text → List Text
line_keys [] = []
line_keys (w ∷ ws) = if same w (codes "{") then [] else w ∷ line_keys ws

abbrev line_blocks : List Text → List (List Text)
line_blocks [] = []
line_blocks (l ∷ ls) =
    let rest = line_blocks ls in
    if has_suffix l (codes "{") then line_keys (split l b' ') ∷ rest else rest

abbrev pub sample : Caddyfile
sample = record {
  Dispenser = Cursor;
  new_dispenser = λ source text. record { token = (0, []); rest = tokens 1 (split text b'\n') };
  next = advance;
  next_arg = λ d. same_line d (advance d);
  val = λ d. d.token.1;
  line = λ d. d.token.0;
  parse = λ source text. ok (line_blocks (split text b'\n'));
}

abbrev left : Cursor → ℕ
left d = length d.rest

abbrev left_of : Option Cursor → ℕ
left_of none = 0
left_of (some e) = left e

pub advance-left : (d e : Cursor) → advance d ≡ some e → left e < left d
advance-left d e h = go d.token d.rest h
  where
    go :
        (t : ℕ × Text) (ts : List (ℕ × Text))
        → advance (record { token = t; rest = ts }) ≡ some e
        → left e < length ts
    go t [] h = absurd (ground (arith, h))
    go t (u ∷ us) h = omega (arith, ap left_of h)

pub same_line-some :
    (d : Cursor) (o : Option Cursor) (e : Cursor) → same_line d o ≡ some e → o ≡ some e
same_line-some d none e h = h
same_line-some d (some x) e h = ground (arith, h)

abbrev pub sample_finite : IsFinite sample
sample_finite = record {
  remaining = left;
  next_falls = advance-left;
  next_arg_falls = λ d e h. advance-left d e (same_line-some d (advance d) e h);
}
