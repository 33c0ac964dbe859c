-- ===== src/Strconv/RoundTrip.antt =====
-- Printed numbers are read back, and hold digits alone.
use zoneroute.Base.{
  ℕ, zero, suc, ◌+◌, ◌*◌, ◌/◌, ◌%◌, ◌<◌, true, [], ◌∷◌, ◌≡◌, ◌∙◌, ap, sym, some, inl, inr, arith,
  ltb, Bool-cases,
}
use zoneroute.Base.Lists.{All}
use zoneroute.Text.{Text}
use zoneroute.Base.Int.{pos}
use zoneroute.Strconv.{digits, itoa, is_digit, decimal, positive, int_limit, atoi}

decimal-digit :
    (acc n m : ℕ) (rest : Text)
    → n < 10
    → m ≡ acc * 10 + n
    → decimal acc ((b'0' + n) ∷ rest) ≡ decimal m rest
unfolding decimal
decimal-digit acc n m rest h e = ground arith

-- Reading the digits of `n` from 0 gives `n`, whatever follows.
decimal-digits : (f n : ℕ) (rest : Text) → n < f → decimal 0 (digits f n rest) ≡ decimal n rest
unfolding digits
decimal-digits zero n rest h = elim h [ ]
decimal-digits (suc f) n rest h = elim (Bool-cases (ltb n 10)) [
  | inl e ↦ rw e (decimal-digit 0 n n rest (ground (arith, e)) (omega arith))
  | inr e ↦ rw e (
      decimal-digits f (n / 10) ((b'0' + n % 10) ∷ rest) (ground (arith, e))
      ∙ decimal-digit (n / 10) (n % 10) n rest (omega arith) (omega arith))
]

-- The digits begin with a digit.
digits-head :
    (f n : ℕ) (rest : Text)
    → n < f
    → (c : ℕ) × (s : Text) × (digits f n rest ≡ c ∷ s) × (is_digit c ≡ true)
unfolding digits is_digit
digits-head zero n rest h = elim h [ ]
digits-head (suc f) n rest h = elim (Bool-cases (ltb n 10)) [
  | inl e ↦ (b'0' + n, rest, rw e, ground (arith, e))
  | inr e ↦ rw e (digits-head f (n / 10) ((b'0' + n % 10) ∷ rest) (ground (arith, e)))
]

atoi-digits : (c : ℕ) (s : Text) → is_digit c ≡ true → atoi (c ∷ s) ≡ positive (decimal 0 (c ∷ s))
unfolding is_digit atoi
atoi-digits c s h = ground arith

in_range : (n : ℕ) → n < int_limit → positive (decimal n []) ≡ some (pos n)
unfolding positive decimal
in_range n h = ground arith

-- A printed number below 2⁶³ is read back.
pub atoi-itoa : (n : ℕ) → n < int_limit → atoi (itoa n) ≡ some (pos n)
atoi-itoa n h =
    let (c, s, e, d) = digits-head (suc n) n [] (omega arith) in
    let printed : itoa n ≡ c ∷ s = unfold itoa in e in
    let read = decimal-digits (suc n) n [] (omega arith) in
    ap atoi printed ∙ atoi-digits c s d ∙ ap positive (ap (decimal 0) (sym e) ∙ read) ∙ in_range n h

digits-All :
    (f n : ℕ) (rest : Text)
    → n < f
    → All (λ c. is_digit c ≡ true) rest
    → All (λ c. is_digit c ≡ true) (digits f n rest)
unfolding digits
digits-All zero n rest h r = elim h [ ]
digits-All (suc f) n rest h r = elim (Bool-cases (ltb n 10)) [
  | inl e ↦ rw e (unfold is_digit in ground (arith, e), r)
  | inr e ↦ rw e (
      digits-All f (n / 10) ((b'0' + n % 10) ∷ rest) (ground (arith, e))
        (unfold is_digit in ground arith, r))
]

-- Every byte of a printed number is a digit.
pub itoa-All : (n : ℕ) → All (λ c. is_digit c ≡ true) (itoa n)
itoa-All n = unfold itoa in digits-All (suc n) n [] (omega arith) tt
