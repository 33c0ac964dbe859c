-- ===== src/Caddyfile.antt =====
-- What the code calls of github.com/coredns/caddy/caddyfile: its lexer, behind a `Dispenser`, and
-- its parser. A server block is the list of its keys.
pub mod Sample
use zoneroute.Base.{ℕ, ◌<◌, List, Option, some, ◌≡◌}
use zoneroute.Result.{Result}
use zoneroute.Text.{Text}

pub record Caddyfile : Type 1 where
  pub Dispenser : Type 0
  pub new_dispenser : Text → Text → Dispenser
  -- `Next` and `NextArg`: the dispenser at the token that was loaded, or `none` for `false`.
  pub next : Dispenser → Option Dispenser
  pub next_arg : Dispenser → Option Dispenser
  pub val : Dispenser → Text
  pub line : Dispenser → ℕ
  pub parse : Text → Text → Result Text (List (List Text))

-- A dispenser walks over finitely many tokens.
pub record IsFinite (c : Caddyfile) : Type 1 where
  pub remaining : Caddyfile.Dispenser c → ℕ
  pub next_falls :
      (d e : Caddyfile.Dispenser c) → Caddyfile.next c d ≡ some e → remaining e < remaining d
  pub next_arg_falls :
      (d e : Caddyfile.Dispenser c) → Caddyfile.next_arg c d ≡ some e → remaining e < remaining d
