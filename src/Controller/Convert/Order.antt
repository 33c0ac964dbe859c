-- ===== src/Controller/Convert/Order.antt =====
-- The order of the listener map does not reach Resolve.
use mathlib.Core.List.{Perm}
use mathlib.Core.List.Perm
use native.Mathlib.Decide.{ℕ_discrete}
use zoneroute.Base.{Bool, true, false, not, ◌≡◌, ◌⊎◌, arith, ltb, ◌==◌, if◌then◌else◌}
use zoneroute.Text.{Text, same}
use zoneroute.Text.Order.{lt, lt_asym, lt_cotrans, lt_connected, same_iff}
use zoneroute.Sort.{StrictOrder, Comparable}
use zoneroute.Sort.Unique.{sort_unique}
use zoneroute.Conflict.{Existing}
use zoneroute.Corefile.{Inspection, Listeners}
use zoneroute.Controller.Convert.{to_existing_entry, existing_less, to_existing}

-- By one text first, then by the rest.
abbrev by_text : Text → Text → Bool → Bool
by_text s t rest = if not (same s t) then lt s t else rest

by_text_asym :
    (s t : Text) (p q : Bool)
    → (p ≡ true → q ≡ false)
    → by_text s t p ≡ true
    → by_text t s q ≡ false
by_text_asym s t p q h k = ground (arith, h, k, lt_asym s t, same_iff s t, same_iff t s)

by_text_cotrans :
    (s u t : Text) (p q r : Bool)
    → (p ≡ true → (q ≡ true) ⊎ (r ≡ true))
    → by_text s t p ≡ true
    → (by_text s u q ≡ true) ⊎ (by_text u t r ≡ true)
by_text_cotrans s u t p q r h k =
    ground
      (arith, h, k, lt_cotrans s t u, lt_connected s u, same_iff s u, same_iff u t, same_iff s t)

by_port : Existing → Existing → Bool
by_port a b = if not (a.port == b.port) then ltb a.port b.port else lt a.source b.source

by_port_asym : (a b : Existing) → by_port a b ≡ true → by_port b a ≡ false
unfolding by_port
by_port_asym a b h = ground (arith, lt_asym a.source b.source)

by_port_cotrans :
    (a c b : Existing) → by_port a c ≡ true → (by_port a b ≡ true) ⊎ (by_port b c ≡ true)
unfolding by_port
by_port_cotrans a c b h = ground (arith, lt_cotrans a.source c.source b.source)

existing_less-StrictOrder : StrictOrder existing_less
unfolding existing_less by_port
existing_less-StrictOrder = record {
  asym = λ a b.
      by_text_asym a.transport b.transport _ _ (by_text_asym a.zone b.zone _ _ (by_port_asym a b));
  cotrans = λ a c b.
      by_text_cotrans a.transport b.transport c.transport _ _ _
        (by_text_cotrans a.zone b.zone c.zone _ _ _ (by_port_cotrans a c b));
}

by_text-Comparable :
    (s t : Text) (p q : Bool)
    → by_text s t p ≡ false
    → by_text t s q ≡ false
    → (s ≡ t) × (p ≡ false) × (q ≡ false)
by_text-Comparable s t p q h k = ground (arith, h, k, lt_connected s t, same_iff s t, same_iff t s)

by_port-Comparable :
    (a b : Existing)
    → by_port a b ≡ false
    → by_port b a ≡ false
    → (a.port ≡ b.port) × (a.source ≡ b.source)
unfolding by_port
by_port-Comparable a b h k = ground (arith, h, k, lt_connected a.source b.source)

existing_less-Comparable : (a b : Existing) → Comparable existing_less a b
unfolding existing_less by_port
existing_less-Comparable a b h k =
    let (transport, h1, k1) = by_text-Comparable a.transport b.transport _ _ h k in
    let (zone, h2, k2) = by_text-Comparable a.zone b.zone _ _ h1 k1 in
    let (port, source) = by_port-Comparable a b h2 k2 in
    λ i. record { transport = transport i; zone = zone i; port = port i; source = source i }

Existing-set : IsSet Existing
Existing-set = hlevel ℕ_discrete

-- The listeners that Resolve is given are the same for every order in which the map of listeners
-- is walked.
pub to_existing_perm :
    (res : Inspection) (ls : Listeners)
    → Perm res.listeners ls
    → to_existing res ≡ to_existing (record res { listeners = ls })
unfolding to_existing
to_existing_perm res ls p =
    sort_unique existing_less existing_less-StrictOrder Existing-set (Perm.map to_existing_entry p)
      (λ a b _ _. existing_less-Comparable a b)
