-- ===== src/Conflict/Reports.antt =====
-- internal/conflict/conflict.go: the conflicts that the decisions of `Resolve` report.
use mathlib.Core.HLevel.{⊥_prop}
use mathlib.Core.List.{
  Mem, Nodup, Perm, append-nil, mem-append, mem-map, mem-map_of_mem, not-mem-nil,
}
use mathlib.Core.List.Perm
use mathlib.Core.Logic.Or
use mathlib.Core.Logic.{∥∥₁_elim, ∥∥₁_map}
use zoneroute.Base.{true, List, [], map, some, ◌≡◌, ◌∙◌, ap, sym, subst, arith}
use zoneroute.Text.{Text}
use zoneroute.Sort.Unique.{sort-perm}
use zoneroute.Dict.{Dict, contains→mem}
use zoneroute.Dnsname.{canonical}
use zoneroute.Conflict.{
  Route, Existing, Candidate, Decision, OwnedByCoreDns, ZoneConflict, resolve, serve_all, decide,
  by_name, older,
}
use zoneroute.Conflict.Zones.{mem-canonical_zones}
use zoneroute.Conflict.Eligible.{candidate_of, early_decision}
use zoneroute.Conflict.Greedy.{outcomes}
use zoneroute.Conflict.Winners.{accepted_names, candidate_names}
use zoneroute.Conflict.Losses.{Reported, Reported-widen, outcomes-Reported}
use zoneroute.Conflict.Spec.{Claims}
use zoneroute.Conflict.Queue.{
  route_names, queue, accepted_candidates, mem-queue, queue-StrictlySorted, resolve-some,
  resolve-accepted,
}
use zoneroute.Conflict.Decisions.{decide-outcomes}
use zoneroute.Conflict.Accepted.{IsOlder, older-IsOlder, accepted_origin}

early-conflicts :
    (domain : Text) (served : Dict OwnedByCoreDns) (r : Route)
    → (early_decision domain served r).conflicts ≡ []
unfolding early_decision
early-conflicts domain served r = ground arith

no_early_conflict :
    (domain : Text) (served : Dict OwnedByCoreDns) (rs : List Route) (y : Decision)
    (x : ZoneConflict)
    → Mem y (map (early_decision domain served) rs)
    → ¬ Mem x y.conflicts
no_early_conflict domain served rs y x my mx = ∥∥₁_elim (mem-map.0 my) ⊥_prop λ (r, _, e).
    not-mem-nil (
      subst (Mem x) (sym (ap (λ (z : Decision). z.conflicts) e) ∙ early-conflicts domain served r)
        mx)

-- `loser` and `winner` are routes that claim the conflict's zone; the winner is accepted and older.
abbrev pub LostTo : List Route → List Decision → Decision → ZoneConflict → Type 0
LostTo rs ds d x = ∥ (
    (loser winner : Route) × Mem loser rs
    × Mem winner rs
    × (loser.name ≡ d.name)
    × (winner.name ≡ x.winner)
    × Mem winner.name (accepted_names ds)
    × Claims loser x.zone
    × Claims winner x.zone
    × IsOlder winner loser) ∥₁

lost_routes :
    (domain : Text) (served : Dict OwnedByCoreDns) (rs : List Route) (ds : List Decision)
    → Perm (accepted_names ds) (candidate_names (accepted_candidates domain served rs))
    → (y : Decision) (x : ZoneConflict)
    → Reported (queue domain served rs) (accepted_candidates domain served rs) y x
    → LostTo rs ds y x
lost_routes domain served rs ds same_names y x reported =
    ∥∥₁_elim reported squash₁ λ (c, mc, e, z, (a, ma, (held, w), o)).
      ∥∥₁_elim ((mem-queue domain served rs c).0 mc) squash₁ λ (loser, ml, _, p).
        ∥∥₁_map (accepted_origin domain served rs a ma) λ (winner, mw, _, q). (
          loser,
          winner,
          ml,
          mw,
          ap (λ (t : Candidate). t.name) p ∙ e,
          ap (λ (t : Candidate). t.name) q ∙ w,
          (Perm.mem_iff same_names).1 (
              subst
                (λ (t : Candidate).
                  Mem t.name (candidate_names (accepted_candidates domain served rs)))
                (sym q) (mem-map_of_mem (λ (t : Candidate). t.name) ma)),
          (mem-canonical_zones loser.zones x.zone).0
              (subst (λ (t : Candidate). Mem x.zone t.zones) (sym p) z),
          (mem-canonical_zones winner.zones x.zone).0
              (subst (λ (t : Candidate). Mem x.zone t.zones) (sym q) (contains→mem _ _ held)),
          (older-IsOlder winner loser).0 (
              subst (λ (t : Candidate). older t (candidate_of loser) ≡ true) (sym q)
                (subst (λ (t : Candidate). older a t ≡ true) (sym p) o)),
        )

queue-Reported :
    (domain : Text) (served : Dict OwnedByCoreDns) (rs : List Route)
    → Nodup (route_names rs)
    → (y : Decision) (x : ZoneConflict) → Mem y (outcomes [] (queue domain served rs))
    → Mem x y.conflicts
    → Reported (queue domain served rs) (accepted_candidates domain served rs) y x
unfolding accepted_candidates
queue-Reported domain served rs distinct y x my mx =
    Reported-widen _ _ _ _ y x (λ c m. m) (λ a m. subst (Mem a) (append-nil _) m)
      (outcomes-Reported (queue domain served rs) []
        (queue-StrictlySorted domain served rs distinct) (λ a c m. absurd (not-mem-nil m)) y x my
        mx)

-- Suppose that the routes have distinct names and that `Resolve` returns decisions. Every
-- conflict in a decision names a zone that a route of the decision's name claims, and as its
-- winner an accepted route that is older and claims it too.
pub resolve-LostTo :
    (rs : List Route) (es : List Existing) (d : Text) (ds : List Decision)
    → Nodup (route_names rs)
    → resolve rs es d ≡ some ds
    → (y : Decision) (x : ZoneConflict) → Mem y ds
    → Mem x y.conflicts
    → LostTo rs ds y x
resolve-LostTo rs es d ds distinct ran y x my mx =
    let domain = canonical d in
    let served = serve_all [] es in
    let unsorted = Perm.mem_iff (sort-perm by_name (decide domain served rs)) in
    let my' = unsorted.0 (subst (Mem y) (resolve-some rs es d ds ran) my) in
    lost_routes domain served rs ds (resolve-accepted rs es d ds ran) y x (
      Or.elim squash₁ (mem-append.0 (subst (Mem y) (decide-outcomes domain served rs) my'))
        (λ m. absurd (no_early_conflict domain served _ y x m mx))
        (λ m. queue-Reported domain served rs distinct y x m mx))
