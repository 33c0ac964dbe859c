-- ===== src/Conflict/Served.antt =====
-- The map `served`: each zone that CoreDNS serves on the listener identity of ZoneRoute, with the
-- bytewise smallest source.
use mathlib.Core.Bool.{Bool-set, false≢true}
use mathlib.Core.Logic.{∥∥₁_map}
use mathlib.Core.List.{Mem, Perm, foldr, mem-cons, mem-cons_self, mem-cons_of_mem}
use mathlib.Core.List.Perm
use mathlib.Core.Logic.Or
use native.Mathlib.Decide.{ℕ_discrete}
use zoneroute.Base.{
  Bool, true, false, ◌&&◌, List, [], ◌∷◌, ◌≡◌, refl, ◌∙◌, ap, sym, subst, Option, none, some, inl,
  inr, arith, if◌then◌else◌, Bool-cases,
}
use zoneroute.Base.Lists.{any}
use zoneroute.Base.Members.{any-false}
use zoneroute.Text.{Text, same}
use zoneroute.Text.Order.{lt, lt_asym, lt_cotrans, lt_connected, lt_irrefl, same_iff, same_refl}
use zoneroute.Dict.{Dict, lookup, lookup-insert}
use zoneroute.Dnsname.{canonical}
use zoneroute.Conflict.{
  Existing, OwnedByCoreDns, listener_port, is_own_listener, replaces, serve, serve_all,
}
use zoneroute.Conflict.Eligible.{is_some}

-- The listener serves the zone on ZoneRoute's identity.
unfoldable pub covers : Text → Existing → Bool
covers z e = is_own_listener e && same (canonical e.zone) z

abbrev entry : Text → Existing → OwnedByCoreDns
entry z e = record { zone = z; port = listener_port; source = e.source }

-- What one more listener makes of the entry for a zone.
merge : Text → Existing → Option OwnedByCoreDns → Option OwnedByCoreDns
unfolding replaces
merge z e cur = if covers z e && replaces e.source cur then some (entry z e) else cur

lookup-serve :
    (z : Text) (served : Dict OwnedByCoreDns) (e : Existing)
    → lookup z (serve served e) ≡ merge z e (lookup z served)
lookup-serve z served e = elim (Bool-cases (same (canonical e.zone) z)) [
  | inl h ↦
      subst (λ w. lookup w (serve served e) ≡ merge w e (lookup w served))
        ((same_iff (canonical e.zone) z).0 h) at_zone
  | inr h ↦
      unfold serve covers merge in
      ground (arith, h, lookup-insert (canonical e.zone) z (entry (canonical e.zone) e) served)
]
  where
    at_zone :
        lookup (canonical e.zone) (serve served e)
        ≡ merge (canonical e.zone) e (lookup (canonical e.zone) served)
    at_zone =
        unfold serve covers merge in
        ground (
          arith,
          same_refl (canonical e.zone),
          lookup-insert (canonical e.zone) (canonical e.zone) (entry (canonical e.zone) e) served,
        )

merge_comm :
    (z : Text) (e f : Existing) (cur : Option OwnedByCoreDns)
    → merge z e (merge z f cur) ≡ merge z f (merge z e cur)
unfolding merge
merge_comm z e f none =
    ground
      (arith, lt_asym e.source f.source, lt_asym f.source e.source, lt_connected e.source f.source)
merge_comm z e f (some o) = ground (
  arith,
  lt_asym e.source f.source,
  lt_asym f.source e.source,
  lt_connected e.source f.source,
  lt_cotrans e.source o.source f.source,
  lt_cotrans f.source o.source e.source,
)

lookup-serve_all :
    (z : Text) (es : List Existing) (served : Dict OwnedByCoreDns)
    → lookup z (serve_all served es) ≡ foldr (merge z) (lookup z served) es
unfolding serve_all
lookup-serve_all z [] served = refl
lookup-serve_all z (e ∷ es) served =
    lookup-serve_all z es (serve served e) ∙ rw lookup-serve (slide es (lookup z served))
  where
    slide :
        (es : List Existing) (cur : Option OwnedByCoreDns)
        → foldr (merge z) (merge z e cur) es ≡ merge z e (foldr (merge z) cur es)
    slide [] cur = refl
    slide (f ∷ es) cur = ap (merge z f) (slide es cur) ∙ merge_comm z f e (foldr (merge z) cur es)

OwnedByCoreDns-set : IsSet OwnedByCoreDns
OwnedByCoreDns-set = hlevel ℕ_discrete

-- The order in which the listeners are given does not matter.
pub lookup-served_perm :
    (z : Text) {es fs : List Existing}
    → Perm es fs
    → lookup z (serve_all [] es) ≡ lookup z (serve_all [] fs)
lookup-served_perm z {es} {fs} p =
    lookup-serve_all z es []
    ∙ Perm.foldr-eq (hlevel OwnedByCoreDns-set) (merge z) (merge_comm z) p (lookup z [])
    ∙ sym (lookup-serve_all z fs [])

is_some-foldr :
    (z : Text) (es : List Existing) → is_some (foldr (merge z) none es) ≡ any (covers z) es
unfolding any merge
is_some-foldr z [] = refl
is_some-foldr z (e ∷ es) = ground (arith, is_some-foldr z es)

-- A zone has an entry exactly when some listener covers it.
pub is_some-served :
    (z : Text) (es : List Existing) → is_some (lookup z (serve_all [] es)) ≡ any (covers z) es
unfolding lookup
is_some-served z es = rw lookup-serve_all (is_some-foldr z es)

-- The entry of a zone is for that zone, and no covering listener has a smaller source.
abbrev pub IsLeast : Text → List Existing → OwnedByCoreDns → Type 0
IsLeast z es o =
    (o.zone ≡ z)
    × (o.port ≡ listener_port)
    × ((e : Existing) → Mem e es → covers z e ≡ true → lt e.source o.source ≡ false)
    × ∥ ((e : Existing) × Mem e es × (covers z e ≡ true) × (e.source ≡ o.source)) ∥₁

-- The first listener has the smallest source.
first-IsLeast :
    (z : Text) (e : Existing) (es : List Existing)
    → covers z e ≡ true
    → ((f : Existing) → Mem f es → covers z f ≡ true → lt f.source e.source ≡ false)
    → IsLeast z (e ∷ es) (entry z e)
first-IsLeast z e es c least = (
  refl,
  refl,
  λ f m k.
      Or.elim (Bool-set _ _) (mem-cons.0 m) (λ p. rw p (lt_irrefl e.source)) (λ r. least f r k),
  ∣ (e, mem-cons_self, c, refl) ∣₁,
)

-- The first listener is not smaller than the least of the others.
later-IsLeast :
    (z : Text) (e : Existing) (es : List Existing) (o : OwnedByCoreDns)
    → (covers z e ≡ true → lt e.source o.source ≡ false)
    → IsLeast z es o
    → IsLeast z (e ∷ es) o
later-IsLeast z e es o k (q, port, least, found) = (
  q,
  port,
  λ f m c. Or.elim (Bool-set _ _) (mem-cons.0 m) (λ p. rw p (k (rw p at c))) (λ r. least f r c),
  ∥∥₁_map found (λ (f, m, c, t). (f, mem-cons_of_mem e m, c, t)),
)

foldr-merge_step :
    (z : Text) (e : Existing) (es : List Existing) (cur : Option OwnedByCoreDns)
    (o : OwnedByCoreDns)
    → merge z e cur ≡ some o
    → is_some cur ≡ any (covers z) es
    → ((p : OwnedByCoreDns) → cur ≡ some p → IsLeast z es p)
    → IsLeast z (e ∷ es) o
unfolding merge
foldr-merge_step z e es none o h found ih =
    let (c, q) : (covers z e ≡ true) × (entry z e ≡ o) = ground arith in
    subst (IsLeast z (e ∷ es)) q (
      first-IsLeast z e es c
        λ f m k. absurd (false≢true (sym (any-false (covers z) es (sym found) f m) ∙ k)))
foldr-merge_step z e es (some p) o h found ih =
    let (q, port, least, source) = ih p refl in
    elim (Bool-cases (covers z e && lt e.source p.source)) [
      | inl t ↦
          let (c, k) : (covers z e ≡ true) × (lt e.source p.source ≡ true) = ground (arith, t) in
          let same_entry : entry z e ≡ o = ground (arith, t, h) in
          subst (IsLeast z (e ∷ es)) same_entry (
            first-IsLeast z e es c λ f m d. ground (
              arith,
              k,
              least f m d,
              lt_cotrans f.source e.source p.source,
              lt_asym e.source p.source,
            ))
      | inr t ↦
          let same_entry : p ≡ o = ground (arith, t, h) in
          subst (IsLeast z (e ∷ es)) same_entry
            (later-IsLeast z e es p (λ c. ground (arith, c, t)) (ih p refl))
    ]

foldr-IsLeast :
    (z : Text) (es : List Existing) (o : OwnedByCoreDns)
    → foldr (merge z) none es ≡ some o
    → IsLeast z es o
foldr-IsLeast z [] o h = cc
foldr-IsLeast z (e ∷ es) o h =
    foldr-merge_step z e es _ o h (is_some-foldr z es) (foldr-IsLeast z es)

-- The source that is reported for a served zone is the bytewise smallest of the listeners on
-- ZoneRoute's identity that serve it.
pub served-IsLeast :
    (z : Text) (es : List Existing) (o : OwnedByCoreDns)
    → lookup z (serve_all [] es) ≡ some o
    → IsLeast z es o
unfolding lookup
served-IsLeast z es o h = foldr-IsLeast z es o (sym (lookup-serve_all z es []) ∙ h)
