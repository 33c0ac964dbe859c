-- ===== src/Corefile/Key/RoundTrip.antt =====
-- A key that names its transport and its port is read as it is written.
use zoneroute.Base.{
  ℕ, ◌≤◌, false, [], ◌∷◌, ◌++◌, some, ◌≡◌, refl, inl, inr, arith, Bool-cases, subst,
}
use zoneroute.Base.Lists.{All}
use zoneroute.Result.{ok}
use zoneroute.Text.{Text, codes, same}
use zoneroute.Text.Order.{same_iff}
use zoneroute.Dict.{Dict, lookup}
use zoneroute.Dnsname.{canonical}
use zoneroute.Strconv.{itoa}
use zoneroute.Net.{has_byte, strip_prefix, cut, join_host_port}
use zoneroute.Net.HostPort.{split_host_port-join}
use zoneroute.Net.Plain.{itoa-IsPlain}
use zoneroute.Strconv.{atoi}
use zoneroute.Strconv.RoundTrip.{atoi-itoa}
use zoneroute.Corefile.Key.{
  default_ports, valid_port, with_port, parse_host, parse_scheme, parse_key,
}

pub valid_port-itoa : (n : ℕ) → 1 ≤ n → n ≤ 65535 → valid_port (atoi (itoa n)) ≡ some n
unfolding valid_port
valid_port-itoa n low high = rw (atoi-itoa n (omega (arith, high))) (ground (arith, low, high))

cut-scheme :
    (scheme rest : Text)
    → has_byte b':' scheme ≡ false
    → cut (scheme ++ (codes "://" ++ rest)) (codes "://") ≡ some (scheme, rest)
unfolding cut strip_prefix has_byte
cut-scheme [] rest h = refl
cut-scheme (c ∷ s) rest h = ground (arith, h, cut-scheme s rest)

-- A key that is found is one of the keys.
found-key :
    (P : Text → Type 0) (k : Text) (n : ℕ) (m : Dict ℕ)
    → All (λ (e : Text × ℕ). P e.0) m
    → lookup k m ≡ some n
    → P k
unfolding lookup
found-key P k n [] a h = absurd (ground (arith, h))
found-key P k n ((j, v) ∷ m) a h = elim (Bool-cases (same j k)) [
  | inl e ↦ subst P ((same_iff j k).0 e) a.0
  | inr e ↦ found-key P k n m a.1 (rw (e) at h)
]

known-no_colon :
    (scheme : Text) (n : ℕ) → lookup scheme default_ports ≡ some n → has_byte b':' scheme ≡ false
unfolding has_byte
known-no_colon scheme n h =
    found-key (λ s. has_byte b':' s ≡ false) scheme n default_ports
      (refl, (refl, (refl, (refl, (refl, (refl, (refl, tt))))))) h

-- A key that is made of a known transport, a host without brackets and a port between 1 and 65535 is
-- read as the listener of that transport and port, for the canonical form of the host. The host may
-- be an IPv6 address, which is written in brackets.
pub parse_key-full :
    (transport host : Text) (default n : ℕ)
    → lookup transport default_ports ≡ some default
    → has_byte b'[' host ≡ false
    → has_byte b']' host ≡ false
    → 1 ≤ n
    → n ≤ 65535
    → parse_key (transport ++ (codes "://" ++ join_host_port host (itoa n)))
      ≡ ok (record { transport = transport; zone = canonical host; port = n })
unfolding parse_key parse_scheme parse_host with_port
parse_key-full transport host default n known h k low high =
    let address = join_host_port host (itoa n) in
    rw (cut-scheme transport address (known-no_colon transport default known), parse_key)
      (rw (known, parse_scheme)
        (rw (split_host_port-join host (itoa n) h k (itoa-IsPlain n), parse_host)
          (rw (valid_port-itoa n low high, with_port) refl)))
