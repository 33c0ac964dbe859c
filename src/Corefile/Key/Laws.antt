-- ===== src/Corefile/Key/Laws.antt =====
-- What `parseKey` returns.
use zoneroute.Base.{
  ℕ, ◌≤◌, false, ◌&&◌, [], ◌∷◌, Option, none, some, ◌≡◌, ◌⊎◌, refl, subst, inl, inr, arith,
  Bool-cases, Option-cases,
}
use zoneroute.Base.Int.{ℤ, pos, negsuc}
use zoneroute.Result.{ok, err, Result-cases}
use zoneroute.Text.{Text, codes, same, starts_with, has_suffix, inner}
use zoneroute.Dict.{lookup}
use zoneroute.Dnsname.{canonical}
use zoneroute.Dnsname.Canonical.{canonical_idem}
use zoneroute.Strconv.{atoi}
use zoneroute.Net.{AddrError, missing_port, has_byte, strip_prefix, cut, split_host_port}
use zoneroute.Corefile.Key.{
  Listener, default_ports, valid_port, with_port, without_port, parse_host, parse_scheme, parse_key,
}

-- The port is the default of its transport, or a valid port number.
abbrev pub IsPortOf : ℕ → ℕ → Type 0
IsPortOf default port = (port ≡ default) ⊎ ((1 ≤ port) × (port ≤ 65535))

-- The transport is a known one, the zone is in canonical form, and the port is in range.
abbrev pub IsListener : Listener → Type 0
IsListener l =
    (canonical l.zone ≡ l.zone)
    × ((default : ℕ) × (lookup l.transport default_ports ≡ some default) × IsPortOf default l.port)

valid_port-bounds : (o : Option ℤ) (n : ℕ) → valid_port o ≡ some n → (1 ≤ n) × (n ≤ 65535)
unfolding valid_port
valid_port-bounds none n h = cc
valid_port-bounds (some (negsuc m)) n h = cc
valid_port-bounds (some (pos m)) n h = ground arith

module _ (key transport : Text) (default : ℕ)
    (known : lookup transport default_ports ≡ some default) where
  listener :
      (host : Text) (port : ℕ)
      → IsPortOf default port
      → (l : Listener) → record { transport = transport; zone = canonical host; port = port } ≡ l
      → IsListener l
  listener host port h l e = subst IsListener e (canonical_idem host, (default, known, h))

  with_port-IsListener :
      (host p : Text) (l : Listener) → with_port key transport host p ≡ ok l → IsListener l
  unfolding with_port
  with_port-IsListener host p l h = elim (Option-cases (valid_port (atoi p))) [
    | inl e ↦ absurd (ground (arith, h, e))
    | inr (n, e) ↦ listener host n (inr (valid_port-bounds (atoi p) n e)) l (ground (arith, h, e))
  ]

  without_port-IsListener :
      (host : Text) (e : AddrError) (l : Listener)
      → without_port key transport default host e ≡ ok l
      → IsListener l
  unfolding without_port
  without_port-IsListener host e l h = elim (Bool-cases (has_byte b':' host)) [
    | inr k ↦ listener host default (inl refl) l (ground (arith, h, k))
    | inl k ↦ elim (Bool-cases (starts_with b'[' host && has_suffix host (codes "]"))) [
      | inl t ↦ listener (inner host) default (inl refl) l (ground (arith, h, k, t))
      | inr t ↦ absurd (ground (arith, h, k, t))
    ]
  ]

  parse_host-IsListener :
      (host : Text) (l : Listener) → parse_host key transport default host ≡ ok l → IsListener l
  unfolding parse_host
  parse_host-IsListener host l h = elim (Result-cases (split_host_port host)) [
    | inl ((name, p), e) ↦ with_port-IsListener name p l (rw (e, parse_host) at h)
    | inr (x, e) ↦ without_port-IsListener host x l (rw (e, parse_host) at h)
  ]

parse_scheme-IsListener :
    (key scheme rest : Text) (l : Listener)
    → parse_scheme key scheme rest (lookup scheme default_ports) ≡ ok l
    → IsListener l
unfolding parse_scheme
parse_scheme-IsListener key scheme rest l h = elim (Option-cases (lookup scheme default_ports)) [
  | inl e ↦ absurd (ground (arith, h, e))
  | inr (n, e) ↦ parse_host-IsListener key scheme n e rest l (rw e at h)
]

-- A listener that `parseKey` returns has one of the known transports, a zone in canonical form,
-- and a port that is the transport's default or lies between 1 and 65535.
pub parse_key-IsListener : (key : Text) (l : Listener) → parse_key key ≡ ok l → IsListener l
unfolding parse_key
parse_key-IsListener key l h = elim (Option-cases (cut key (codes "://"))) [
  | inl e ↦
      parse_host-IsListener key (codes "dns") 53 (unfold lookup same in refl) key l
        (rw (e, parse_key) at h)
  | inr ((scheme, rest), e) ↦ parse_scheme-IsListener key scheme rest l (rw (e, parse_key) at h)
]

cut-bare : (s : Text) → has_byte b':' s ≡ false → cut s (codes "://") ≡ none
unfolding has_byte cut strip_prefix
cut-bare [] h = refl
cut-bare (c ∷ s) h =
    let tail : has_byte b':' s ≡ false = ground (arith, h) in
    let later = cut-bare s tail in ground (arith, h, later)

split_host_port-bare : (s : Text) → has_byte b':' s ≡ false → split_host_port s ≡ err missing_port
unfolding split_host_port
split_host_port-bare [] h = refl
split_host_port-bare (c ∷ s) h = rw (h, split_host_port) refl

-- A key without a colon, as `Render` writes them, is a plain DNS listener on port 53.
pub parse_key-bare :
    (zone : Text)
    → has_byte b':' zone ≡ false
    → parse_key zone ≡ ok (record { transport = codes "dns"; zone = canonical zone; port = 53 })
unfolding parse_key parse_host without_port
parse_key-bare zone h =
    rw (cut-bare zone h, parse_key)
      (rw (split_host_port-bare zone h, parse_host) (rw (h, without_port) refl))
