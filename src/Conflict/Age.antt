-- ===== src/Conflict/Age.antt =====
-- The orders by which `Resolve` sorts: candidates by age, decisions by name.
use zoneroute.Base.{true, false, ◌≡◌, ◌⊎◌, arith}
use zoneroute.Text.Order.{lt_asym, lt_cotrans, lt_connected}
use zoneroute.Sort.{StrictOrder}
use zoneroute.Conflict.{Candidate, older, by_name}

pub older_asym : (a b : Candidate) → older a b ≡ true → older b a ≡ false
unfolding older
older_asym a b h = ground (arith, lt_asym a.name b.name)

older_cotrans : (a c b : Candidate) → older a c ≡ true → (older a b ≡ true) ⊎ (older b c ≡ true)
unfolding older
older_cotrans a c b h = ground (arith, lt_cotrans a.name c.name b.name)

pub older_irrefl : (a : Candidate) → older a a ≡ false
older_irrefl a = ground (arith, older_asym a a)

pub older_trans : (a b c : Candidate) → older a b ≡ true → older b c ≡ true → older a c ≡ true
older_trans a b c h k = ground (arith, older_cotrans a b c h, older_asym b c k)

-- Two candidates of one age have one name.
pub older-name : (a b : Candidate) → older a b ≡ false → older b a ≡ false → a.name ≡ b.name
unfolding older
older-name a b h k = ground (arith, lt_connected a.name b.name)

pub older-StrictOrder : StrictOrder older
older-StrictOrder = record { asym = older_asym; cotrans = older_cotrans }

pub by_name-StrictOrder : StrictOrder by_name
unfolding by_name
by_name-StrictOrder = record {
  asym = λ a b. lt_asym a.name b.name;
  cotrans = λ a c b. lt_cotrans a.name c.name b.name;
}
