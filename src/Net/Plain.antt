-- ===== src/Net/Plain.antt =====
-- Printed numbers hold no byte that delimits hosts and ports.
use zoneroute.Base.{ℕ, true, false, [], ◌∷◌, ◌≡◌, refl, arith}
use zoneroute.Base.Lists.{All}
use zoneroute.Text.{Text}
use zoneroute.Strconv.{itoa, is_digit}
use zoneroute.Strconv.RoundTrip.{itoa-All}
use zoneroute.Net.{has_byte}
use zoneroute.Net.HostPort.{IsPlain}

has_byte-digits :
    (b : ℕ) (s : Text) → is_digit b ≡ false → All (λ c. is_digit c ≡ true) s → has_byte b s ≡ false
unfolding has_byte is_digit
has_byte-digits b [] n h = refl
has_byte-digits b (c ∷ s) n h = ground (arith, n, h.0, has_byte-digits b s n h.1)

pub itoa-IsPlain : (n : ℕ) → IsPlain (itoa n)
itoa-IsPlain n = record {
  no_colon = has_byte-digits b':' (itoa n) (unfold is_digit in refl) (itoa-All n);
  no_open = has_byte-digits b'[' (itoa n) (unfold is_digit in refl) (itoa-All n);
  no_close = has_byte-digits b']' (itoa n) (unfold is_digit in refl) (itoa-All n);
}

pub itoa-no_newline : (n : ℕ) → has_byte b'\n' (itoa n) ≡ false
itoa-no_newline n = has_byte-digits b'\n' (itoa n) (unfold is_digit in refl) (itoa-All n)
