-- ===== src/Corefile/Key.antt =====
-- `Listener`, `defaultPorts` and `parseKey`.
pub mod Laws
pub mod RoundTrip
use zoneroute.Base.{
  ℕ, Bool, true, false, not, ◌&&◌, ◌||◌, List, [], ◌∷◌, Option, none, some, leb, ◌==◌,
  if◌then◌else◌,
}
use zoneroute.Base.Int.{ℤ, pos, negsuc}
use zoneroute.Result.{Result, ok, err}
use zoneroute.Text.{Text, codes, same, has_suffix, starts_with, inner}
use zoneroute.Dict.{Dict, lookup}
use zoneroute.Dnsname.{canonical}
use zoneroute.Strconv.{atoi}
use zoneroute.Net.{AddrError, has_byte, cut, split_host_port}

pub record Listener : Type 0 where
  pub transport : Text
  pub zone : Text
  pub port : ℕ

-- Equality of map keys.
unfoldable pub same_listener : Listener → Listener → Bool
same_listener a b = same a.transport b.transport && (same a.zone b.zone && a.port == b.port)

abbrev pub default_ports : Dict ℕ
default_ports =
    (codes "dns", 53)
    ∷ (codes "tls", 853)
    ∷ (codes "quic", 853)
    ∷ (codes "grpc", 443)
    ∷ (codes "https", 443)
    ∷ (codes "https3", 443)
    ∷ (codes "unix", 0)
    ∷ []

-- The errors of `parseKey`, with the values that their messages show.
pub data KeyError : Type 0 where
  unknown_transport : Text → Text → KeyError
  invalid_port : Text → Text → KeyError
  bad_address : Text → AddrError → KeyError

-- `err == nil && 1 <= n && n <= 65535`
unfoldable pub valid_port : Option ℤ → Option ℕ
valid_port none = none
valid_port (some (negsuc n)) = none
valid_port (some (pos n)) = if leb 1 n && leb n 65535 then some n else none

-- The case that `SplitHostPort` finds a port.
unfoldable pub with_port : Text → Text → Text → Text → Result KeyError Listener
unfolding valid_port
with_port key transport host p = elim (valid_port (atoi p)) [
  | none ↦ err (invalid_port key p)
  | some n ↦ ok (record { transport = transport; zone = canonical host; port = n })
]

-- The cases that it does not.
unfoldable pub without_port : Text → Text → ℕ → Text → AddrError → Result KeyError Listener
unfolding has_byte
without_port key transport port host e =
    if not (has_byte b':' host)
    then ok (record { transport = transport; zone = canonical host; port = port })
    else if starts_with b'[' host && has_suffix host (codes "]")
    then ok (record { transport = transport; zone = canonical (inner host); port = port })
    else err (bad_address key e)

unfoldable pub parse_host : Text → Text → ℕ → Text → Result KeyError Listener
unfolding with_port without_port
parse_host key transport port host = elim (split_host_port host) [
  | ok (h, p) ↦ with_port key transport h p
  | err e ↦ without_port key transport port host e
]

unfoldable pub parse_scheme : Text → Text → Text → Option ℕ → Result KeyError Listener
unfolding parse_host
parse_scheme key scheme rest none = err (unknown_transport key scheme)
parse_scheme key scheme rest (some port) = parse_host key scheme port rest

-- `parseKey`
unfoldable pub parse_key : Text → Result KeyError Listener
unfolding parse_scheme
parse_key key = elim (cut key (codes "://")) [
  | none ↦ parse_host key (codes "dns") 53 key
  | some (scheme, rest) ↦ parse_scheme key scheme rest (lookup scheme default_ports)
]
