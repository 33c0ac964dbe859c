-- ===== src/Conflict/Dropped.antt =====
-- A rejected route owns nothing: without it all others are decided as with it.
use mathlib.Core.List.{Mem, Perm, perm_middle, mem-append, mem-cons_self, mem-cons_of_mem}
use mathlib.Core.List.Perm
use mathlib.Core.Logic.Or
use zoneroute.Base.{
  true, false, List, [], ◌∷◌, ◌++◌, some, ◌≡◌, refl, sym, subst, inl, inr, Bool-cases,
}
use zoneroute.Base.Members.{ne_true}
use zoneroute.Sort.{insert, sort}
use zoneroute.Sort.Unique.{sort-perm}
use zoneroute.Text.{Text}
use zoneroute.Dict.{Dict}
use zoneroute.Dnsname.{canonical}
use zoneroute.Conflict.{
  Route, Existing, Candidate, Decision, OwnedByCoreDns, undecided, candidates, early_decisions,
  candidates_of, decided_of, conflicts_with, claim, assign, older, by_name, decide, resolve,
  serve_all,
}
use zoneroute.Conflict.Eligible.{eligible, candidate_of, early_decision, triage-eligible}
use zoneroute.Conflict.Queue.{queue, resolve-some}
use zoneroute.Conflict.Newer.{conflicts-cases, decide_rejected, early_name}

-- No decision under the name accepts.
abbrev pub IsRejected : Text → List Decision → Type 0
IsRejected name ds = (x : Decision) → Mem x ds → x.name ≡ name → x.accepted ≡ false

-- The decisions but for one more, under the name.
abbrev OneMore : Text → List Decision → List Decision → Type 0
OneMore name more ds = (x : Decision) × (x.name ≡ name) × Perm more (x ∷ ds)

OneMore-cons :
    (name : Text) (y : Decision) (more ds : List Decision)
    → OneMore name more ds
    → OneMore name (y ∷ more) (y ∷ ds)
OneMore-cons name y more ds (x, e, p) = (x, e, Perm.trans (Perm.cons y p) (Perm.swap x y ds))

IsRejected-tail :
    (name : Text) (y : Decision) (ds : List Decision)
    → IsRejected name (y ∷ ds)
    → IsRejected name ds
IsRejected-tail name y ds h x m e = h x (mem-cons_of_mem y m) e

-- At the head of the queue a rejected candidate leaves the owners as they are.
assign_first :
    (cs : List Candidate) (owner : Dict Text) (c : Candidate)
    → IsRejected c.name (assign owner (c ∷ cs))
    → OneMore c.name (assign owner (c ∷ cs)) (assign owner cs)
unfolding assign
assign_first cs owner c h = elim (conflicts-cases (conflicts_with owner c.zones)) [
  | inl e ↦
      let shown : IsRejected c.name
          (record (undecided c.name) { accepted = true } ∷ assign (claim c.name c.zones owner) cs) =
        rw (e, assign) at h in
      absurd (ne_true (shown _ mem-cons_self refl) refl)
  | inr (x, xs, e) ↦
      (record (undecided c.name) { conflicts = x ∷ xs }, refl, rw (e, assign) (Perm.refl _))
]

assign_head :
    (a : Candidate) (more cs : List Candidate) (name : Text)
    → ((owner : Dict Text)
        → IsRejected name (assign owner more)
        → OneMore name (assign owner more) (assign owner cs))
    → (owner : Dict Text) → IsRejected name (assign owner (a ∷ more))
    → OneMore name (assign owner (a ∷ more)) (assign owner (a ∷ cs))
unfolding assign
assign_head a more cs name rest owner h = elim (conflicts-cases (conflicts_with owner a.zones)) [
  | inl e ↦
      let y = record (undecided a.name) { accepted = true } in
      let taken = claim a.name a.zones owner in
      let h' : IsRejected name (y ∷ assign taken more) = rw (e, assign) at h in
      rw (e, assign)
        (OneMore-cons name y _ _ (rest taken (IsRejected-tail name y (assign taken more) h')))
  | inr (x, xs, e) ↦
      let y = record (undecided a.name) { conflicts = x ∷ xs } in
      let h' : IsRejected name (y ∷ assign owner more) = rw (e, assign) at h in
      rw (e, assign)
        (OneMore-cons name y _ _ (rest owner (IsRejected-tail name y (assign owner more) h')))
]

-- So it does wherever its age puts it.
assign-insert :
    (cs : List Candidate) (owner : Dict Text) (c : Candidate)
    → IsRejected c.name (assign owner (insert older c cs))
    → OneMore c.name (assign owner (insert older c cs)) (assign owner cs)
unfolding insert
assign-insert [] owner c h = assign_first [] owner c h
assign-insert (a ∷ cs) owner c h = elim (Bool-cases (older a c)) [
  | inl e ↦
      rw (e) (
        assign_head a (insert older c cs) cs c.name (λ o. assign-insert cs o c) owner (rw (e) at h))
  | inr e ↦ rw (e) (assign_first (a ∷ cs) owner c (rw (e) at h))
]

module _ (domain : Text) (served : Dict OwnedByCoreDns) (r : Route) (rs : List Route) where
  decide-eligible :
      eligible domain served r ≡ true
      → decide domain served (r ∷ rs)
        ≡ early_decisions domain served rs
          ++ assign [] (insert older (candidate_of r) (queue domain served rs))
  unfolding decide early_decisions candidates queue decided_of candidates_of sort
  decide-eligible e = rw (triage-eligible domain served r e) refl

  decide-Dropped :
      IsRejected r.name (decide domain served (r ∷ rs))
      → OneMore r.name (decide domain served (r ∷ rs)) (decide domain served rs)
  decide-Dropped h = elim (Bool-cases (eligible domain served r)) [
    | inr e ↦ (
      early_decision domain served r,
      early_name domain served r,
      subst (λ l. Perm l (early_decision domain served r ∷ decide domain served rs))
          (sym (decide_rejected domain served r rs e)) (Perm.refl _),
    )
    | inl e ↦
        let early = early_decisions domain served rs in
        let more = assign [] (insert older (candidate_of r) (queue domain served rs)) in
        let shown : IsRejected r.name (early ++ more) =
          subst (IsRejected r.name) (decide-eligible e) h in
        let (x, n, p) =
          assign-insert (queue domain served rs) [] (candidate_of r)
            (λ y m q. shown y (mem-append.1 (Or.inr m)) q) in
        (
          x,
          n,
          subst (λ l. Perm l (x ∷ decide domain served rs)) (sym (decide-eligible e))
              (unfold decide queue in
                Perm.trans (Perm.append_left early p)
                  (perm_middle early (assign [] (queue domain served rs)))),
        )
  ]

-- Suppose that `Resolve` returns decisions with a route and without it, and that with it no decision
-- under its name accepts. Then the route adds one decision, on itself, and all decisions on the
-- others are the same with it as without it.
pub resolve-Dropped :
    (r : Route) (rs : List Route) (es : List Existing) (d : Text) (ds after : List Decision)
    → resolve (r ∷ rs) es d ≡ some ds
    → resolve rs es d ≡ some after
    → IsRejected r.name ds
    → (x : Decision) × (x.name ≡ r.name) × Perm ds (x ∷ after)
resolve-Dropped r rs es d ds after ran ran' h =
    let domain = canonical d in
    let served = serve_all [] es in
    let sorted = sort-perm by_name (decide domain served (r ∷ rs)) in
    let all = resolve-some (r ∷ rs) es d ds ran in
    let (x, n, p) =
      decide-Dropped domain served r rs
        λ y m q. h y (subst (Mem y) (sym all) ((Perm.mem_iff sorted).1 m)) q in
    (
      x,
      n,
      subst (λ l. Perm l (x ∷ after)) (sym all)
          (Perm.trans sorted (
            Perm.trans p (
              Perm.cons x (
                subst (λ l. Perm (decide domain served rs) l)
                  (sym (resolve-some rs es d after ran'))
                  (Perm.symm (sort-perm by_name (decide domain served rs))))))),
    )
