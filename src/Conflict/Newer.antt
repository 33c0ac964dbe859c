-- ===== src/Conflict/Newer.antt =====
-- A route that is newer than all others changes no decision on them.
use mathlib.Core.List.{Mem, Perm, perm_middle, mem-cons_self, mem-cons_of_mem, append-nil}
use mathlib.Core.List.Perm
use mathlib.Core.Logic.{∥∥₁_elim}
use mathlib.Core.Bool.{Bool-set}
use zoneroute.Base.{
  Bool, true, false, List, [], ◌∷◌, ◌++◌, some, ◌≡◌, ◌⊎◌, refl, ◌∙◌, ap, sym, subst, inl, inr,
  arith, Bool-cases,
}
use zoneroute.Sort.{insert, sort}
use zoneroute.Sort.Unique.{sort-perm}
use zoneroute.Text.{Text}
use zoneroute.Dict.{Dict}
use zoneroute.Dnsname.{canonical}
use zoneroute.Conflict.{
  Route, Existing, Candidate, Decision, OwnedByCoreDns, ZoneConflict, undecided, candidates,
  early_decisions, candidates_of, decided_of, conflicts_with, claim, assign, older, by_name, decide,
  resolve, serve_all,
}
use zoneroute.Conflict.Eligible.{
  eligible, candidate_of, early_decision, triage-eligible, triage-ineligible,
}
use zoneroute.Conflict.Queue.{queue, mem-queue, resolve-some}
use zoneroute.Conflict.Accepted.{IsOlder, older-IsOlder}

insert_last {ℓ} :
    {A : Type ℓ} (less : A → A → Bool) (x : A) (l : List A)
    → ((y : A) → Mem y l → less y x ≡ true)
    → insert less x l ≡ l ++ (x ∷ [])
unfolding insert
insert_last less x [] h = refl
insert_last less x (y ∷ l) h =
    rw (h y mem-cons_self) (ap (◌∷◌ y) (insert_last less x l (λ z m. h z (mem-cons_of_mem y m))))

pub conflicts-cases :
    (l : List ZoneConflict)
    → (l ≡ []) ⊎ ((x : ZoneConflict) × (xs : List ZoneConflict) × (l ≡ x ∷ xs))
conflicts-cases [] = inl refl
conflicts-cases (x ∷ xs) = inr (x, xs, refl)

-- The last candidate adds one decision, on itself.
assign_last :
    (cs : List Candidate) (owner : Dict Text) (c : Candidate)
    → (x : Decision) × (x.name ≡ c.name)
      × (assign owner (cs ++ (c ∷ [])) ≡ assign owner cs ++ (x ∷ []))
unfolding assign
assign_last [] owner c = elim (conflicts-cases (conflicts_with owner c.zones)) [
  | inl e ↦ (record (undecided c.name) { accepted = true }, refl, rw (e, assign) refl)
  | inr (x, xs, e) ↦ (record (undecided c.name) { conflicts = x ∷ xs }, refl, rw (e, assign) refl)
]
assign_last (a ∷ cs) owner c =
    let taken = assign_last cs (claim a.name a.zones owner) c in
    let free = assign_last cs owner c in
    elim (conflicts-cases (conflicts_with owner a.zones)) [
      | inl e ↦ (
        taken.0,
        taken.1,
        rw (e, assign) (ap (◌∷◌ (record (undecided a.name) { accepted = true })) taken.2),
      )
      | inr (x, xs, e) ↦ (
        free.0,
        free.1,
        rw (e, assign) (ap (◌∷◌ (record (undecided a.name) { conflicts = x ∷ xs })) free.2),
      )
    ]

pub to_front :
    (xs ys : List Decision) (x : Decision) → Perm (xs ++ (ys ++ (x ∷ []))) (x ∷ (xs ++ ys))
to_front xs ys x =
    subst (λ l. Perm (xs ++ (ys ++ (x ∷ []))) (x ∷ (xs ++ l))) (append-nil ys)
      (Perm.trans (Perm.append_left xs (perm_middle ys [])) (perm_middle xs (ys ++ [])))

pub early_name :
    (domain : Text) (served : Dict OwnedByCoreDns) (r : Route)
    → (early_decision domain served r).name ≡ r.name
unfolding early_decision
early_name domain served r = ground arith

-- A route that fails the tests of the first loop has no part in the rest.
module _ (domain : Text) (served : Dict OwnedByCoreDns) (new : Route) (rs : List Route) where
  pub decide_rejected :
      eligible domain served new ≡ false
      → decide domain served (new ∷ rs) ≡ early_decision domain served new ∷ decide domain served rs
  unfolding decide early_decisions candidates decided_of candidates_of
  decide_rejected e = rw (triage-ineligible domain served new e) refl

module _ (domain : Text) (served : Dict OwnedByCoreDns) (new : Route) (rs : List Route)
    (newest : (r : Route) → Mem r rs → IsOlder r new) where
  queue_newest :
      (c : Candidate) → Mem c (queue domain served rs) → older c (candidate_of new) ≡ true
  queue_newest c m = ∥∥₁_elim ((mem-queue domain served rs c).0 m) (Bool-set _ _) λ (r, mr, _, q).
      subst (λ x. older x (candidate_of new) ≡ true) q ((older-IsOlder r new).1 (newest r mr))

  decide_admitted :
      eligible domain served new ≡ true
      → decide domain served (new ∷ rs)
        ≡ early_decisions domain served rs
          ++ assign [] (queue domain served rs ++ (candidate_of new ∷ []))
  unfolding decide early_decisions candidates queue decided_of candidates_of sort
  decide_admitted e = rw (triage-eligible domain served new e) (
      ap (λ q. early_decisions domain served rs ++ assign [] q)
        (insert_last older (candidate_of new) (queue domain served rs) queue_newest))

  decide_newest :
      (x : Decision) × (x.name ≡ new.name)
      × Perm (decide domain served (new ∷ rs)) (x ∷ decide domain served rs)
  unfolding decide queue
  decide_newest = elim (Bool-cases (eligible domain served new)) [
    | inl e ↦
        let (x, named, last) = assign_last (queue domain served rs) [] (candidate_of new) in
        let decided = decide_admitted e ∙ ap (λ l. early_decisions domain served rs ++ l) last in
        (
          x,
          named,
          subst (λ l. Perm l (x ∷ decide domain served rs)) (sym decided)
              (to_front (early_decisions domain served rs) (assign [] (queue domain served rs)) x),
        )
    | inr e ↦ (
      early_decision domain served new,
      early_name domain served new,
      subst (λ l. Perm l (early_decision domain served new ∷ decide domain served rs))
          (sym (decide_rejected domain served new rs e)) (Perm.refl _),
    )
  ]

-- Suppose that every route is older than a new one, and that `Resolve` returns decisions without
-- it and with it. Then the new route adds one decision, on itself, and all decisions on the
-- others are as they were.
pub resolve_newest :
    (new : Route) (rs : List Route) (es : List Existing) (d : Text) (ds after : List Decision)
    → ((r : Route) → Mem r rs → IsOlder r new)
    → resolve rs es d ≡ some ds
    → resolve (new ∷ rs) es d ≡ some after
    → (x : Decision) × (x.name ≡ new.name) × Perm after (x ∷ ds)
resolve_newest new rs es d ds after newest ran ran' =
    let domain = canonical d in
    let served = serve_all [] es in
    let (x, e, p) = decide_newest domain served new rs newest in
    (
      x,
      e,
      subst (λ l. Perm l (x ∷ ds)) (sym (resolve-some (new ∷ rs) es d after ran'))
          (Perm.trans (sort-perm by_name (decide domain served (new ∷ rs))) (
            Perm.trans p (
              Perm.cons x (
                subst (λ l. Perm (decide domain served rs) l) (sym (resolve-some rs es d ds ran))
                  (Perm.symm (sort-perm by_name (decide domain served rs))))))),
    )
