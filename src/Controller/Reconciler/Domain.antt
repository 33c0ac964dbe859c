-- ===== src/Controller/Reconciler/Domain.antt =====
-- The cluster domain that `ClusterDomain` lets through is one that `Resolve` can use.
use zoneroute.Base.{
  false, List, [], ◌∷◌, ◌++◌, none, ◌≡◌, ◌≢◌, ◌⊎◌, refl, ◌∙◌, ap, sym, subst, inl, inr, arith,
  Bool-cases,
}
use zoneroute.Result.{ok}
use zoneroute.Text.{Text, same, is_space, trim_left, trim_right, trim_space, trim_suffix, to_lower}
use zoneroute.Text.Order.{same_iff}
use zoneroute.Dnsname.{dot, canonical}
use zoneroute.Dnsname.Canonical.{canonical_idem}
use zoneroute.Conflict.{Route, Existing, resolve}
use zoneroute.Conflict.Decisions.{resolve-none_iff}
use zoneroute.Controller.ClusterDomain.{cluster_domain}

trim_left-dot : (s : Text) → (t : Text) × (trim_left (s ++ dot) ≡ t ++ dot)
unfolding trim_left is_space
trim_left-dot [] = ([], refl)
trim_left-dot (c ∷ s) = elim (Bool-cases (is_space c)) [
  | inl e ↦ let (t, q) = trim_left-dot s in (t, rw (e, trim_left) q)
  | inr e ↦ (c ∷ s, rw (e, trim_left) refl)
]

ends_in_dot : (s : Text) → same (s ++ dot) [] ≡ false
unfolding same
ends_in_dot [] = refl
ends_in_dot (c ∷ s) = refl

trim_right-dot : (s : Text) → trim_right (s ++ dot) ≡ s ++ dot
unfolding trim_right is_space
trim_right-dot [] = unfold same in refl
trim_right-dot (c ∷ s) = ground (arith, trim_right-dot s, ends_in_dot s)

trim_space-dot : (s : Text) → trim_space (s ++ dot) ≢ []
unfolding trim_space
trim_space-dot s e =
    let (t, q) = trim_left-dot s in
    let kept : t ++ dot ≡ [] = sym (trim_right-dot t) ∙ ap trim_right (sym q) ∙ e in
    let some_left = ends_in_dot t in
    let same_left = (same_iff (t ++ dot) []).1 kept in ground (arith, some_left, same_left)

list-cases : (l : List Text) → (l ≡ []) ⊎ ((x : Text) × (xs : List Text) × (l ≡ x ∷ xs))
list-cases [] = inl refl
list-cases (x ∷ xs) = inr (x, xs, refl)

cluster_domain-canonical :
    (is_subdomain : Text → List Text) (raw d : Text)
    → cluster_domain is_subdomain raw ≡ ok d
    → canonical (trim_space raw) ≡ d
unfolding cluster_domain
cluster_domain-canonical is_subdomain raw d h = elim (Bool-cases (same (trim_space raw) [])) [
  | inl e ↦ absurd (ground (arith, h, e))
  | inr e ↦ elim (list-cases (is_subdomain (trim_suffix (canonical (trim_space raw)) dot))) [
    | inl f ↦ ground (arith, h, e, f)
    | inr (x, xs, f) ↦ absurd (ground (arith, h, e, f))
  ]
]

-- Suppose that `ClusterDomain` accepts a flag. Then what it returns is in canonical form, and
-- `Resolve` never fails with it.
pub cluster_domain-resolve :
    (is_subdomain : Text → List Text) (raw d : Text)
    → cluster_domain is_subdomain raw ≡ ok d
    → (canonical d ≡ d) × ((rs : List Route) (es : List Existing) → resolve rs es d ≢ none)
unfolding canonical
cluster_domain-resolve is_subdomain raw d h =
    let e = cluster_domain-canonical is_subdomain raw d h in
    (
      subst (λ t. canonical t ≡ t) e (canonical_idem (trim_space raw)),
      λ rs es n.
          trim_space-dot (to_lower (trim_suffix (trim_space raw) dot))
            (ap trim_space e ∙ (resolve-none_iff rs es d).0 n),
    )
