-- ===== src/Corefile/Tokens.antt =====
-- internal/corefile/corefile.go: the text of a Corefile as the tokens that scanImports goes through, and
-- what they say of imports, braces and snippets.
pub mod Run
use zoneroute.Base.{
  ℕ, suc, Bool, true, false, not, ◌&&◌, ◌||◌, ◌+◌, List, [], ◌∷◌, none, some, ◌≡◌, ◌≢◌, ◌⊎◌, leb,
  ◌==◌, if◌then◌else◌,
}
use zoneroute.Text.{Text, codes, same}
use zoneroute.Caddyfile.{Caddyfile}

-- A token with its line; an `import` that begins a line, with the line and the argument beside it.
pub data Token : Type 0 where
  word : ℕ → Text → Token
  import_of : ℕ → Text → Token

module _ (c : Caddyfile) where
  open c use {Dispenser, next, next_arg, val, line}

  -- What the dispenser has left to give, after a token on the line `p`.
  pub data Tokens : ℕ → Dispenser → List Token → Type 0 where
    ended : (p : ℕ) (d : Dispenser) → next d ≡ none → Tokens p d []
    plain :
        (p : ℕ) (d e : Dispenser) (ts : List Token)
        → next d ≡ some e
        → (line e ≡ p) ⊎ (val e ≢ codes "import")
        → Tokens (line e) e ts
        → Tokens p d (word (line e) (val e) ∷ ts)
    bare :
        (p : ℕ) (d e : Dispenser) (ts : List Token)
        → next d ≡ some e
        → line e ≢ p
        → val e ≡ codes "import"
        → next_arg e ≡ none
        → Tokens (line e) e ts
        → Tokens p d (word (line e) (val e) ∷ ts)
    with_argument :
        (p : ℕ) (d e a : Dispenser) (ts : List Token)
        → next d ≡ some e
        → line e ≢ p
        → val e ≡ codes "import"
        → next_arg e ≡ some a
        → Tokens (line e) a ts
        → Tokens p d (import_of (line e) (val a) ∷ ts)

abbrev pub count : Text → Text → ℕ → ℕ
count brace v n = if same v brace then suc n else n

-- After `o` opening and `c` closing braces: some import is of custom/*.server, where no more braces
-- have been opened than closed.
abbrev pub imports_custom : ℕ → ℕ → List Token → Bool
imports_custom o c [] = false
imports_custom o c (import_of n pattern ∷ ts) =
    (leb o c && same pattern (codes "custom/*.server")) || imports_custom o c ts
imports_custom o c (word n v ∷ ts) =
    imports_custom (count (codes "{") v o) (count (codes "}") v c) ts

-- After `o` opening and `c` closing braces, and a token on the line `p`: some line begins with
-- (custom/*.server), where as many braces have been opened as closed.
abbrev pub defines_custom : ℕ → ℕ → ℕ → List Token → Bool
defines_custom o c p [] = false
defines_custom o c p (import_of n pattern ∷ ts) = defines_custom o c n ts
defines_custom o c p (word n v ∷ ts) =
    (not (n == p) && (o == c && same v (codes "(custom/*.server)")))
    || defines_custom (count (codes "{") v o) (count (codes "}") v c) n ts
