-- ===== src/Controller/ClusterDomain.antt =====
-- internal/controller/reconciler.go: the check of the --cluster-domain flag.
use zoneroute.Base.{List, [], ◌∷◌, if◌then◌else◌}
use zoneroute.Result.{Result, ok, err}
use zoneroute.Text.{Text, same, trim_space, trim_suffix}
use zoneroute.Dnsname.{dot, canonical}

-- The errors of `ClusterDomain`; the messages are those of the validation.
pub data DomainError : Type 0 where
  empty_domain : DomainError
  invalid_domain : Text → List Text → DomainError

-- `ClusterDomain`; `is_subdomain` is Kubernetes' `IsDNS1123Subdomain`, which lists what is wrong.
unfoldable pub cluster_domain : (Text → List Text) → Text → Result DomainError Text
cluster_domain is_subdomain raw =
    let s = trim_space raw in
    let c = canonical s in
    if same s [] then err empty_domain else elim (is_subdomain (trim_suffix c dot)) [
      | [] ↦ ok c
      | e ∷ es ↦ err (invalid_domain raw (e ∷ es))
    ]
