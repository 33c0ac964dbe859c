-- ===== src/Dict/Distinct.antt =====
-- A test that tells whether the names of a list are distinct.
use mathlib.Core.List.{Nodup, Nodup-cons, Nodup-nil}
use zoneroute.Base.{Bool, true, false, not, ◌&&◌, List, [], ◌∷◌, ◌≡◌, arith}
use zoneroute.Base.Members.{ne_true}
use zoneroute.Text.{Text}
use zoneroute.Dict.{contains, mem→contains}

unfoldable pub distinct : List Text → Bool
distinct [] = true
distinct (x ∷ l) = not (contains l x) && distinct l

pub distinct-Nodup : (l : List Text) → distinct l ≡ true → Nodup l
unfolding distinct
distinct-Nodup [] h = Nodup-nil
distinct-Nodup (x ∷ l) h =
    let fresh : contains l x ≡ false = ground (arith, h) in
    let rest : distinct l ≡ true = ground (arith, h) in
    Nodup-cons.1 (λ m. ne_true fresh (mem→contains l x m), distinct-Nodup l rest)
