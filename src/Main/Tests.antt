-- ===== src/Main/Tests.antt =====
-- The start of the process, on a platform that answers every call.
use zoneroute.Base.{ℕ, Bool, true, List, [], ◌∷◌, Option, none, some, ◌≡◌, refl}
use zoneroute.Result.{ok}
use zoneroute.Text.{Text, codes}
use zoneroute.Api.Registration.{
  GroupVersion, Kind, SchemeApi, group_version, zone_route, zone_route_list,
}
use zoneroute.Main.{Platform, run}
use zoneroute.Main.Flags.{FlagValues, parse_flags}
use zoneroute.Main.Started.{has_start, Started, run-Started}

-- The scheme is what was registered.
abbrev schemes : SchemeApi Text
schemes = record {
  Scheme = List (GroupVersion × List Kind);
  new_scheme = [];
  add_known_types = λ gv kinds s. (gv, kinds) ∷ s;
  add_to_group_version = λ gv s. s;
  apply_builder = apply_all;
  add_client_go = λ s. (none, s);
}
  where
    apply_all :
        List (List (GroupVersion × List Kind) → Option Text × List (GroupVersion × List Kind))
        → List (GroupVersion × List Kind)
        → Option Text × List (GroupVersion × List Kind)
    apply_all [] s = (none, s)
    apply_all (f ∷ fs) s = elim (f s).0 [ none ↦ apply_all fs (f s).1 | some e ↦ (some e, (f s).1) ]

abbrev willing : Platform
willing = record {
  Error = Text;
  schemes = schemes;
  answer = λ past x. none;
  is_subdomain = λ s. [];
  generation_changed = λ e. true;
}

abbrev arguments : List Text
arguments = codes "--cluster-domain" ∷ codes "Corp.example" ∷ codes "-leader-elect=false" ∷ []

-- Flags in other spellings, and those that are left out.
flags_run :
    parse_flags arguments
    ≡ ok (record {
      cluster_domain = codes "Corp.example";
      leader_elect = Bool.false;
      probe_addr = codes ":8081";
      metrics_addr = codes "0";
    })
unfolding parse_flags zoneroute.Text.same zoneroute.Net.split_first zoneroute.Dict.contains
flags_run = refl

started : has_start (run willing arguments).0 ≡ true
unfolding run has_start zoneroute.Base.Lists.any parse_flags zoneroute.Text.same
    zoneroute.Net.split_first zoneroute.Dict.contains
    zoneroute.Controller.ClusterDomain.cluster_domain zoneroute.Text.trim_space
    zoneroute.Api.Registration.add_to_scheme zoneroute.Api.Registration.add_known_types
started = refl

run-Started_example : Started willing arguments (run willing arguments).0
run-Started_example = run-Started willing arguments started

abbrev some_flags : FlagValues
some_flags = record {
  cluster_domain = codes "a=b";
  leader_elect = true;
  probe_addr = [];
  metrics_addr = codes "-0";
}
