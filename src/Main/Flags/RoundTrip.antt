-- ===== src/Main/Flags/RoundTrip.antt =====
-- Flags that are written out are read back.
use zoneroute.Base.{Bool, true, false, List, [], ◌∷◌, ◌++◌, ◌≡◌, refl, ◌∙◌, none}
use zoneroute.Result.{ok}
use zoneroute.Text.{Text, codes, same}
use zoneroute.Net.{split_first}
use zoneroute.Dict.{contains}
use zoneroute.Main.Flags.{
  FlagValues, parse_flags, parse_args, parse_bool, flag_step, argument_of, named_argument,
  flag_named, proceed, flag_defaults, known_step, set_flag, set_bool, after_set,
}

abbrev pub bool_text : Bool → Text
bool_text true = codes "true"
bool_text false = codes "false"

-- The arguments that set all four flags.
unfoldable pub print_flags : FlagValues → List Text
print_flags f =
    (codes "--cluster-domain=" ++ f.cluster_domain)
    ∷ (codes "--leader-elect=" ++ bool_text f.leader_elect)
    ∷ (codes "--health-probe-bind-address=" ++ f.probe_addr)
    ∷ (codes "--metrics-bind-address=" ++ f.metrics_addr)
    ∷ []

parse_args-step :
    (arg : Text) (args : List Text) (f g : FlagValues)
    → flag_step (argument_of arg) arg f ≡ proceed none g
    → parse_args none (arg ∷ args) f ≡ parse_args none args g
unfolding parse_args
parse_args-step arg args f g h = rw (h, parse_args) refl

module _ (v : Text) (f : FlagValues) where
  cluster_domain_step :
      flag_step (argument_of (codes "--cluster-domain=" ++ v)) (codes "--cluster-domain=" ++ v) f
      ≡ proceed none (record f { cluster_domain = v })
  unfolding flag_step argument_of named_argument split_first flag_named known_step set_flag
      after_set same
  cluster_domain_step = refl

  probe_addr_step :
      flag_step
        (argument_of (codes "--health-probe-bind-address=" ++ v))
        (codes "--health-probe-bind-address=" ++ v)
        f
      ≡ proceed none (record f { probe_addr = v })
  unfolding flag_step argument_of named_argument split_first flag_named known_step set_flag
      after_set same
  probe_addr_step = refl

  metrics_addr_step :
      flag_step
        (argument_of (codes "--metrics-bind-address=" ++ v))
        (codes "--metrics-bind-address=" ++ v)
        f
      ≡ proceed none (record f { metrics_addr = v })
  unfolding flag_step argument_of named_argument split_first flag_named known_step set_flag
      after_set same
  metrics_addr_step = refl

leader_elect_step :
    (b : Bool) (f : FlagValues)
    → flag_step
        (argument_of (codes "--leader-elect=" ++ bool_text b))
        (codes "--leader-elect=" ++ bool_text b)
        f
      ≡ proceed none (record f { leader_elect = b })
unfolding flag_step argument_of named_argument split_first flag_named known_step set_flag set_bool
    parse_bool after_set same contains
leader_elect_step true f = refl
leader_elect_step false f = refl

-- All four flags written out as arguments, whatever their values, are read back.
pub parse_flags-print_flags : (f : FlagValues) → parse_flags (print_flags f) ≡ ok f
unfolding parse_flags print_flags parse_args
parse_flags-print_flags f =
    let set_domain = record flag_defaults { cluster_domain = f.cluster_domain } in
    let set_elect = record set_domain { leader_elect = f.leader_elect } in
    let set_probe = record set_elect { probe_addr = f.probe_addr } in
    let metrics = (codes "--metrics-bind-address=" ++ f.metrics_addr) ∷ [] in
    let probe = (codes "--health-probe-bind-address=" ++ f.probe_addr) ∷ metrics in
    let elect = (codes "--leader-elect=" ++ bool_text f.leader_elect) ∷ probe in
    parse_args-step (codes "--cluster-domain=" ++ f.cluster_domain) elect flag_defaults set_domain
      (cluster_domain_step f.cluster_domain flag_defaults)
    ∙ parse_args-step (codes "--leader-elect=" ++ bool_text f.leader_elect) probe set_domain
        set_elect (leader_elect_step f.leader_elect set_domain)
    ∙ parse_args-step (codes "--health-probe-bind-address=" ++ f.probe_addr) metrics set_elect
        set_probe (probe_addr_step f.probe_addr set_elect)
    ∙ parse_args-step (codes "--metrics-bind-address=" ++ f.metrics_addr) [] set_probe f
        (metrics_addr_step f.metrics_addr set_probe)
