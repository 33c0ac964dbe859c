-- ===== src/Text/Order.antt =====
-- The order of Go strings, byte by byte, and equality of texts.
use zoneroute.Base.{Bool, true, false, ◌&&◌, ◌||◌, [], ◌∷◌, ◌≡◌, ◌↔◌, ◌⊎◌, arith, ltb, ◌==◌}
use zoneroute.Text.{Text, same}

-- `a < b`
unfoldable pub lt : Text → Text → Bool
lt [] [] = false
lt [] (y ∷ ys) = true
lt (x ∷ xs) [] = false
lt (x ∷ xs) (y ∷ ys) = ltb x y || (x == y && lt xs ys)

pub same_iff : (a b : Text) → (same a b ≡ true) ↔ (a ≡ b)
unfolding same
same_iff (x ∷ a) (y ∷ b) = ground (arith, same_iff a b)
same_iff _ _ = ground arith

pub same_refl : (a : Text) → same a a ≡ true
same_refl a = (same_iff a a).1 (λ i. a)

pub lt_asym : (a b : Text) → lt a b ≡ true → lt b a ≡ false
unfolding lt
lt_asym (x ∷ a) (y ∷ b) h = ground (arith, lt_asym a b)
lt_asym _ _ h = ground arith

pub lt_cotrans : (a c b : Text) → lt a c ≡ true → (lt a b ≡ true) ⊎ (lt b c ≡ true)
unfolding lt
lt_cotrans (x ∷ a) (z ∷ c) (y ∷ b) h = ground (arith, lt_cotrans a c b)
lt_cotrans _ _ _ h = ground arith

pub lt_connected : (a b : Text) → lt a b ≡ false → lt b a ≡ false → a ≡ b
unfolding lt
lt_connected (x ∷ a) (y ∷ b) h k = ground (arith, lt_connected a b)
lt_connected _ _ h k = ground arith

pub lt_irrefl : (a : Text) → lt a a ≡ false
lt_irrefl a = ground (arith, lt_asym a a)
