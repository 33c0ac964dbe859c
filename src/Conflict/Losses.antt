-- ===== src/Conflict/Losses.antt =====
-- The conflicts that a rejected candidate is told of.
use mathlib.Core.List.{
  Mem, Pairwise, mem-cons, mem-cons_self, mem-cons_of_mem, mem-append, mem-filter_map, not-mem-nil,
}
use mathlib.Core.List.{perm_middle}
use mathlib.Core.List.Perm
use mathlib.Core.Bool.{Bool-set}
use mathlib.Core.Logic.Or
use mathlib.Core.Logic.{∥∥₁_map}
use zoneroute.Base.{
  true, List, [], ◌∷◌, ◌++◌, Option, none, some, ◌≡◌, ap, sym, subst, inl, inr, arith, Bool-cases,
}
use zoneroute.Text.{Text}
use zoneroute.Dict.{contains}
use zoneroute.Conflict.{Candidate, Decision, ZoneConflict, conflict_at, older}
use zoneroute.Conflict.Greedy.{holder, losses, blocked, winners, outcomes}
use zoneroute.Conflict.Winners.{StrictlySorted}

-- A candidate `a` that claims the conflict's zone, and whose name is the winner's.
abbrev pub Holds : ZoneConflict → Candidate → Type 0
Holds x a = (contains a.zones x.zone ≡ true) × (a.name ≡ x.winner)

holder-Holds :
    (taken : List Candidate) (x : ZoneConflict)
    → holder x.zone taken ≡ some x.winner
    → (a : Candidate) × Mem a taken × Holds x a
unfolding holder
holder-Holds [] x h = cc
holder-Holds (a ∷ taken) x h = elim (Bool-cases (contains a.zones x.zone)) [
  | inl e ↦ (a, mem-cons_self, (e, ground (arith, rw e at h)))
  | inr e ↦ let (b, m, k) = holder-Holds taken x (rw e at h) in (b, mem-cons_of_mem a m, k)
]

conflict_at-some :
    (z : Text) (o : Option Text) (x : ZoneConflict)
    → conflict_at z o ≡ some x
    → (x.zone ≡ z) × (o ≡ some x.winner)
conflict_at-some z none x h = cc
conflict_at-some z (some w) x h = ground arith

losses-Holds :
    (taken : List Candidate) (zones : List Text) (x : ZoneConflict)
    → Mem x (losses taken zones)
    → ∥ (Mem x.zone zones × ((a : Candidate) × Mem a taken × Holds x a)) ∥₁
unfolding losses
losses-Holds taken zones x m =
    ∥∥₁_map ((mem-filter_map (λ z. conflict_at z (holder z taken)) zones).0 m) λ (z, mz, e).
      let (q, h) = conflict_at-some z (holder z taken) x e in
      (
        subst (λ w. Mem w zones) (sym q) mz,
        holder-Holds taken x (subst (λ w. holder w taken ≡ some x.winner) (sym q) h),
      )

-- The conflict is of a candidate of `cs` with the decision's name, which claims the zone, and one
-- of `ws` that is older and claims it too.
abbrev pub Reported : List Candidate → List Candidate → Decision → ZoneConflict → Type 0
Reported cs ws d x = ∥ (
    (c : Candidate) × Mem c cs
    × (c.name ≡ d.name)
    × Mem x.zone c.zones
    × ((a : Candidate) × Mem a ws × Holds x a × (older a c ≡ true))) ∥₁

pub Reported-widen :
    (cs cs' ws ws' : List Candidate) (d : Decision) (x : ZoneConflict)
    → ((c : Candidate) → Mem c cs → Mem c cs')
    → ((a : Candidate) → Mem a ws → Mem a ws')
    → Reported cs ws d x
    → Reported cs' ws' d x
Reported-widen cs cs' ws ws' d x f g r =
    ∥∥₁_map r λ (c, mc, e, z, (a, ma, h, k)). (c, f c mc, e, z, (a, g a ma, h, k))

abbrev AllOlder : List Candidate → List Candidate → Type 0
AllOlder taken cs = (a c : Candidate) → Mem a taken → Mem c cs → older a c ≡ true

AllOlder-cons :
    (c : Candidate) (cs taken : List Candidate)
    → ((b : Candidate) → Mem b cs → older c b ≡ true)
    → AllOlder taken (c ∷ cs)
    → AllOlder (c ∷ taken) cs
AllOlder-cons c cs taken first o a b ma mb =
    Or.elim (Bool-set _ _) (mem-cons.0 ma) (λ p. subst (λ y. older y b ≡ true) (sym p) (first b mb))
      (λ r. o a b r (mem-cons_of_mem c mb))

-- The head of a run loses to one that is taken already.
Reported-head :
    (c : Candidate) (cs taken ws : List Candidate) (d : Decision) (x : ZoneConflict)
    → AllOlder taken (c ∷ cs)
    → c.name ≡ d.name
    → Mem x (losses taken c.zones)
    → Reported (c ∷ cs) (ws ++ taken) d x
Reported-head c cs taken ws d x o e m = ∥∥₁_map (losses-Holds taken c.zones x m) λ (z, (a, ma, h)).
    (c, mem-cons_self, e, z, (a, mem-append.1 (Or.inr ma), h, o a c ma mem-cons_self))

mem_shift :
    (c : Candidate) (ws taken : List Candidate) (a : Candidate)
    → Mem a (ws ++ (c ∷ taken))
    → Mem a ((c ∷ ws) ++ taken)
mem_shift c ws taken a m = (Perm.mem_iff (perm_middle ws taken)).0 m

-- Every conflict that the greedy choice reports names a zone of the loser and an older winner
-- that claims it.
pub outcomes-Reported :
    (cs taken : List Candidate)
    → StrictlySorted cs
    → AllOlder taken cs
    → (d : Decision) (x : ZoneConflict) → Mem d (outcomes taken cs)
    → Mem x d.conflicts
    → Reported cs (winners taken cs ++ taken) d x
unfolding outcomes winners
outcomes-Reported [] taken s o d x md mx = absurd (not-mem-nil md)
outcomes-Reported (c ∷ cs) taken (Pairwise.cons first s) o d x md mx =
    elim (Bool-cases (blocked taken c)) [
      | inl e ↦
          let rest = λ (r : Mem d (outcomes taken cs)).
            Reported-widen cs (c ∷ cs) _ _ d x (λ b. mem-cons_of_mem c) (λ a m. m)
              (outcomes-Reported cs taken s (λ a b ma mb. o a b ma (mem-cons_of_mem c mb)) d x r
                mx) in
          rw (e, winners)
            (Or.elim squash₁ (mem-cons.0 (rw (e, outcomes) at md))
              (λ p.
                Reported-head c cs taken (winners taken cs) d x o
                  (sym (ap (λ (y : Decision). y.name) p))
                  (subst (λ y. Mem x y) (ap (λ (y : Decision). y.conflicts) p) mx))
              rest)
      | inr e ↦
          let rest = λ (r : Mem d (outcomes (c ∷ taken) cs)).
            Reported-widen cs (c ∷ cs) _ _ d x (λ b. mem-cons_of_mem c)
              (mem_shift c (winners (c ∷ taken) cs) taken)
              (outcomes-Reported cs (c ∷ taken) s (AllOlder-cons c cs taken first o) d x r mx) in
          rw (e, winners)
            (Or.elim squash₁ (mem-cons.0 (rw (e, outcomes) at md))
              (λ p.
                absurd
                  (not-mem-nil (subst (λ y. Mem x y) (ap (λ (y : Decision). y.conflicts) p) mx)))
              rest)
    ]
