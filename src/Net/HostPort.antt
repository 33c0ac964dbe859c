-- ===== src/Net/HostPort.antt =====
-- `SplitHostPort` undoes `JoinHostPort`.
use zoneroute.Base.{
  ℕ, true, false, ◌||◌, [], ◌∷◌, ◌++◌, ◌≡◌, refl, ◌∙◌, ap, none, some, inl, inr, arith, ◌==◌,
  Bool-cases,
}
use zoneroute.Result.{ok}
use zoneroute.Text.{Text}
use zoneroute.Net.{
  has_byte, split_first, split_last, join_host_port, split_host_port, split_plain, split_bracketed,
  check_brackets,
}

pub has_byte-append : (b : ℕ) (s t : Text) → has_byte b (s ++ t) ≡ (has_byte b s || has_byte b t)
unfolding has_byte
has_byte-append b [] t = refl
has_byte-append b (c ∷ s) t = ground (arith, has_byte-append b s t)

split_last-absent : (b : ℕ) (s : Text) → has_byte b s ≡ false → split_last b s ≡ none
unfolding has_byte split_last
split_last-absent b [] h = refl
split_last-absent b (c ∷ s) h = ground (arith, split_last-absent b s)

split_last-append :
    (b : ℕ) (s t : Text) → has_byte b t ≡ false → split_last b (s ++ (b ∷ t)) ≡ some (s, t)
unfolding split_last
split_last-append b [] t h = rw (split_last-absent b t h) (ground arith)
split_last-append b (c ∷ s) t h = rw (split_last-append b s t h)

split_first-append :
    (b : ℕ) (s t : Text) → has_byte b s ≡ false → split_first b (s ++ (b ∷ t)) ≡ some (s, t)
unfolding has_byte split_first
split_first-append b [] t h = ground arith
split_first-append b (c ∷ s) t h = ground (arith, split_first-append b s t)

-- The text has none of the bytes that delimit hosts and ports.
pub record IsPlain (s : Text) : Type 0 where
  pub no_colon : has_byte b':' s ≡ false
  pub no_open : has_byte b'[' s ≡ false
  pub no_close : has_byte b']' s ≡ false

split_host_port-plain :
    (s : Text)
    → has_byte b':' s ≡ true
    → has_byte b'[' s ≡ false
    → split_host_port s ≡ split_plain s (split_last b':' s)
unfolding split_host_port has_byte
split_host_port-plain [] h k = cc
split_host_port-plain (c ∷ s) h k = ground arith

split_host_port-open :
    (s : Text)
    → has_byte b':' s ≡ true
    → split_host_port (b'[' ∷ s) ≡ split_bracketed s (split_first b']' s)
unfolding split_host_port has_byte
split_host_port-open s h = ground arith

module _ (host port : Text) (p : IsPlain port) where
  has_byte-joined :
      (b : ℕ)
      → has_byte b (host ++ (b':' ∷ port)) ≡ (has_byte b host || b':' == b || has_byte b port)
  has_byte-joined b = has_byte-append b host (b':' ∷ port) ∙ unfold has_byte in ground arith

  split_plain-join : IsPlain host → split_host_port (host ++ (b':' ∷ port)) ≡ ok (host, port)
  split_plain-join h =
      let colon = has_byte-joined b':' in
      let opens = has_byte-joined b'[' in
      let closes = has_byte-joined b']' in
      split_host_port-plain (host ++ (b':' ∷ port)) (ground (arith, colon))
        (ground (arith, opens, h.no_open, p.no_open))
      ∙ ap (split_plain (host ++ (b':' ∷ port))) (split_last-append b':' host port p.no_colon)
      ∙ unfold split_plain check_brackets in
        ground (arith, h.no_colon, opens, closes, h.no_open, h.no_close, p.no_open, p.no_close)

  check_port :
      (rest : Text)
      → has_byte b'[' rest ≡ false
      → split_bracketed rest (some (host, b':' ∷ port)) ≡ ok (host, port)
  unfolding split_bracketed has_byte
  check_port rest h = ground (arith, h, p.no_colon, p.no_close)

  split_bracketed-join :
      has_byte b'[' host ≡ false
      → has_byte b']' host ≡ false
      → split_host_port (b'[' ∷ (host ++ (b']' ∷ b':' ∷ port))) ≡ ok (host, port)
  split_bracketed-join h k =
      let rest : Text = host ++ (b']' ∷ b':' ∷ port) in
      let colon = has_byte-append b':' host (b']' ∷ b':' ∷ port) in
      let opens = has_byte-append b'[' host (b']' ∷ b':' ∷ port) in
      split_host_port-open rest (unfold has_byte in ground (arith, colon))
      ∙ ap (split_bracketed rest) (split_first-append b']' host (b':' ∷ port) k)
      ∙ check_port rest (unfold has_byte in ground (arith, opens, h, p.no_open))

-- A host that holds no bracket and a port that holds no bracket or colon are recovered from the
-- address that they make, also if the host is an IPv6 literal.
pub split_host_port-join :
    (host port : Text)
    → has_byte b'[' host ≡ false
    → has_byte b']' host ≡ false
    → IsPlain port
    → split_host_port (join_host_port host port) ≡ ok (host, port)
unfolding join_host_port
split_host_port-join host port h k p = elim (Bool-cases (has_byte b':' host)) [
  | inl e ↦ rw e (split_bracketed-join host port p h k)
  | inr e ↦ rw e (split_plain-join host port p (record { no_colon = e; no_open = h; no_close = k }))
]
