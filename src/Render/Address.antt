-- ===== src/Render/Address.antt =====
-- The address of an upstream is read back from the text that is written.
use zoneroute.Base.{
  ℕ, ◌≤◌, true, false, Option, none, some, ◌≡◌, refl, ◌∙◌, ap, inl, inr, arith, Bool-cases, ◌==◌,
}
use zoneroute.Result.{ok, err}
use zoneroute.Text.{Text}
use zoneroute.Strconv.{itoa, atoi}
use zoneroute.Net.{AddrError, has_byte, join_host_port, split_host_port}
use zoneroute.Net.HostPort.{split_host_port-join}
use zoneroute.Net.Plain.{itoa-IsPlain}
use zoneroute.Corefile.Key.{valid_port}
use zoneroute.Corefile.Key.RoundTrip.{valid_port-itoa}
use zoneroute.Render.{Upstream, default_port, effective_port, upstream_addr}

-- An IP address: it holds no bracket, and is no host with a port.
pub record IsAddress (a : Text) : Type 0 where
  pub no_open : has_byte b'[' a ≡ false
  pub no_close : has_byte b']' a ≡ false
  pub no_port : (e : AddrError) × (split_host_port a ≡ err e)

abbrev with_host : Text → Option ℕ → Option (Text × ℕ)
with_host host none = none
with_host host (some n) = some (host, n)

-- How an address with or without a port is read: the port is the default one if it is left out.
unfoldable pub read_upstream : Text → Option (Text × ℕ)
read_upstream s = elim (split_host_port s) [
  | ok (host, p) ↦ with_host host (valid_port (atoi p))
  | err e ↦ some (s, default_port)
]

upstream_addr-default :
    (u : Upstream) → (effective_port u.port == default_port) ≡ true → upstream_addr u ≡ u.address
unfolding upstream_addr
upstream_addr-default u e = rw (e) refl

upstream_addr-port :
    (u : Upstream)
    → (effective_port u.port == default_port) ≡ false
    → upstream_addr u ≡ join_host_port u.address (itoa (effective_port u.port))
unfolding upstream_addr
upstream_addr-port u e = rw (e) refl

read_upstream-bare :
    (s : Text) (e : AddrError)
    → split_host_port s ≡ err e
    → read_upstream s ≡ some (s, default_port)
unfolding read_upstream
read_upstream-bare s e h = rw (h, read_upstream) refl

read_upstream-join :
    (host : Text) (n : ℕ)
    → has_byte b'[' host ≡ false
    → has_byte b']' host ≡ false
    → 1 ≤ n
    → n ≤ 65535
    → read_upstream (join_host_port host (itoa n)) ≡ some (host, n)
unfolding read_upstream
read_upstream-join host n h k low high =
    rw (split_host_port-join host (itoa n) h k (itoa-IsPlain n), read_upstream)
      (ap (with_host host) (valid_port-itoa n low high))

effective_port-range :
    (port : ℕ) → port ≤ 65535 → (1 ≤ effective_port port) × (effective_port port ≤ 65535)
unfolding effective_port
effective_port-range port h = ground (arith, h)

-- An upstream with an IP address and a port up to 65535, or none, is read back from the text that
-- stands in the fragment: the address, and the port that is in effect.
pub read_upstream-upstream_addr :
    (u : Upstream)
    → IsAddress u.address
    → u.port ≤ 65535
    → read_upstream (upstream_addr u) ≡ some (u.address, effective_port u.port)
read_upstream-upstream_addr u a high = elim (Bool-cases (effective_port u.port == default_port)) [
  | inl e ↦
      let used : default_port ≡ effective_port u.port = ground (arith, e) in
      ap read_upstream (upstream_addr-default u e)
      ∙ read_upstream-bare u.address a.no_port.0 a.no_port.1
      ∙ ap (λ n. some (u.address, n)) used
  | inr e ↦
      let (low, top) = effective_port-range u.port high in
      ap read_upstream (upstream_addr-port u e)
      ∙ read_upstream-join u.address (effective_port u.port) a.no_open a.no_close low top
]
