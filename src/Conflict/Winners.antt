-- ===== src/Conflict/Winners.antt =====
-- Who wins the greedy choice.
use mathlib.Core.Bool.{Bool-set, false≢true}
use mathlib.Core.List.{
  Mem, Mem-prop, Pairwise, mem-cons, mem-cons_self, mem-cons_of_mem, not-mem-nil,
}
use mathlib.Core.Logic.Or
use zoneroute.Base.{
  true, false, ◌||◌, List, [], ◌∷◌, map, ◌≡◌, ◌↔◌, refl, ◌∙◌, sym, subst, inl, inr, arith,
  Bool-cases,
}
use zoneroute.Base.Lists.{filter}
use zoneroute.Text.{Text}
use zoneroute.Conflict.{Candidate, Decision, older}
use zoneroute.Conflict.Age.{older_asym, older_irrefl}
use zoneroute.Conflict.Greedy.{clashes, blocked, winners, outcomes}

-- The names of the routes that are accepted, in the order of the decisions.
unfoldable pub accepted_names : List Decision → List Text
unfolding filter
accepted_names ds = map (λ (d : Decision). d.name) (filter (λ (d : Decision). d.accepted) ds)

abbrev pub candidate_names : List Candidate → List Text
candidate_names cs = map (λ (c : Candidate). c.name) cs

pub accepted_names-outcomes :
    (cs taken : List Candidate)
    → accepted_names (outcomes taken cs) ≡ candidate_names (winners taken cs)
unfolding accepted_names outcomes winners
accepted_names-outcomes [] taken = refl
accepted_names-outcomes (c ∷ cs) taken =
    ground (arith, accepted_names-outcomes cs taken, accepted_names-outcomes cs (c ∷ taken))

pub names-outcomes :
    (cs taken : List Candidate)
    → map (λ (d : Decision). d.name) (outcomes taken cs) ≡ candidate_names cs
unfolding outcomes
names-outcomes [] taken = refl
names-outcomes (c ∷ cs) taken =
    ground (arith, names-outcomes cs taken, names-outcomes cs (c ∷ taken))

-- A winner is one of the candidates, and no accepted candidate stands in its way.
pub winners-mem : (cs taken : List Candidate) {c : Candidate} → Mem c (winners taken cs) → Mem c cs
unfolding winners
winners-mem [] taken m = m
winners-mem (x ∷ cs) taken m = elim (Bool-cases (blocked taken x)) [
  | inl e ↦ mem-cons_of_mem x (winners-mem cs taken (rw (e, winners) at m))
  | inr e ↦
      Or.elim Mem-prop (mem-cons.0 (rw (e, winners) at m)) (λ p. mem-cons.1 (Or.inl p))
        (λ r. mem-cons_of_mem x (winners-mem cs (x ∷ taken) r))
]

blocked-cons :
    (x c : Candidate) (taken : List Candidate)
    → blocked (x ∷ taken) c ≡ (clashes c x || blocked taken c)
unfolding blocked
blocked-cons x c taken = refl

pub winners-free :
    (cs taken : List Candidate) {c : Candidate} → Mem c (winners taken cs) → blocked taken c ≡ false
unfolding winners
winners-free [] taken m = absurd (not-mem-nil m)
winners-free (x ∷ cs) taken {c} m = elim (Bool-cases (blocked taken x)) [
  | inl e ↦ winners-free cs taken (rw (e, winners) at m)
  | inr e ↦
      Or.elim (Bool-set _ _) (mem-cons.0 (rw (e, winners) at m)) (λ p. rw p e)
        (λ r. let h = winners-free cs (x ∷ taken) r in ground (arith, h, blocked-cons x c taken))
]

-- No older winner has a zone in common with `c`.
abbrev pub Undisputed : List Candidate → Candidate → Type 0
Undisputed ws c = (a : Candidate) → Mem a ws → older a c ≡ true → clashes c a ≡ false

abbrev pub StrictlySorted : List Candidate → Type 0
StrictlySorted = Pairwise (λ a b. older a b ≡ true)

abbrev Wins : List Candidate → List Candidate → Candidate → Type 0
Wins taken cs c =
    Mem c (winners taken cs) ↔ ((blocked taken c ≡ false) × Undisputed (winners taken cs) c)

Wins-prop : (taken cs : List Candidate) (c : Candidate) → IsProp (Wins taken cs c)
Wins-prop taken cs c = hlevel (Mem-prop, Bool-set)

no_older :
    (x a : Candidate) (cs : List Candidate)
    → ((c : Candidate) → Mem c cs → older x c ≡ true)
    → Mem a (x ∷ cs)
    → older a x ≡ false
no_older x a cs first m =
    Or.elim (Bool-set _ _) (mem-cons.0 m) (λ p. rw p (older_irrefl x))
      (λ r. older_asym x a (first a r))

-- The oldest candidate wins unless it is blocked from the start.
Wins-head :
    (x : Candidate) (cs taken : List Candidate)
    → ((c : Candidate) → Mem c cs → older x c ≡ true)
    → Wins taken (x ∷ cs) x
Wins-head x cs taken first = (
  λ m. (winners-free (x ∷ cs) taken m, undisputed),
  λ (e, _). unfold winners in rw (e, winners) mem-cons_self,
)
  where
    undisputed : Undisputed (winners taken (x ∷ cs)) x
    undisputed a m h =
        absurd (false≢true (sym (no_older x a cs first (winners-mem (x ∷ cs) taken m)) ∙ h))

-- A younger candidate looks past a head that is blocked, and counts one that is not as taken.
Wins-tail :
    (x c : Candidate) (cs taken : List Candidate)
    → older x c ≡ true
    → Wins taken cs c
    → Wins (x ∷ taken) cs c
    → Wins taken (x ∷ cs) c
unfolding winners
Wins-tail x c cs taken h blocked_case open_case = elim (Bool-cases (blocked taken x)) [
  | inl e ↦ rw (e, winners) blocked_case
  | inr e ↦ rw (e, winners) (to, from)
]
  where
    later : Mem c (x ∷ winners (x ∷ taken) cs) → Mem c (winners (x ∷ taken) cs)
    later m =
        Or.elim Mem-prop (mem-cons.0 m)
          (λ p. absurd (false≢true (sym (older_irrefl x) ∙ subst (λ y. older x y ≡ true) p h)))
          (λ r. r)

    to :
        Mem c (x ∷ winners (x ∷ taken) cs)
        → (blocked taken c ≡ false) × Undisputed (x ∷ winners (x ∷ taken) cs) c
    to m =
        let (free, u) = open_case.0 (later m) in
        let both = blocked-cons x c taken in
        (
          ground (arith, free, both),
          λ a ma k.
              Or.elim (Bool-set _ _) (mem-cons.0 ma)
                (λ p. subst (λ y. clashes c y ≡ false) (sym p) (ground (arith, free, both)))
                (λ r. u a r k),
        )

    from :
        (blocked taken c ≡ false) × Undisputed (x ∷ winners (x ∷ taken) cs) c
        → Mem c (x ∷ winners (x ∷ taken) cs)
    from (f, u) = mem-cons_of_mem x (open_case.1 (free, λ a m. u a (mem-cons_of_mem x m)))
      where
        free : blocked (x ∷ taken) c ≡ false
        free = rw (blocked-cons, u x mem-cons_self h) f

-- In candidates sorted by age, one wins exactly when it shares no zone with one that is taken
-- already, nor with an older winner.
pub winners_iff :
    (cs taken : List Candidate) (c : Candidate) → StrictlySorted cs → Mem c cs → Wins taken cs c
winners_iff [] taken c s m = absurd (not-mem-nil m)
winners_iff (x ∷ cs) taken c (Pairwise.cons first s) m =
    Or.elim (Wins-prop taken (x ∷ cs) c) (mem-cons.0 m)
      (λ p. subst (Wins taken (x ∷ cs)) (sym p) (Wins-head x cs taken first))
      (λ r.
        Wins-tail x c cs taken (first c r) (winners_iff cs taken c s r)
          (winners_iff cs (x ∷ taken) c s r))
