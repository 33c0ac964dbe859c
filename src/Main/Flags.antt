-- ===== src/Main/Flags.antt =====
-- cmd/zoneroute-controller/main.go: the four flags of the command, read as package `flag` documents it. A
-- flag that an imported package adds, as -kubeconfig of controller-runtime, counts as not defined.
pub mod RoundTrip
use zoneroute.Base.{
  ℕ, Bool, true, false, not, ◌&&◌, ◌||◌, List, [], ◌∷◌, Option, none, some, ◌==◌, if◌then◌else◌,
}
use zoneroute.Result.{Result, ok, err}
use zoneroute.Text.{Text, codes, same}
use zoneroute.Net.{split_first}
use zoneroute.Dict.{contains}

-- The four variables of `run`.
pub record FlagValues : Type 0 where
  pub cluster_domain : Text
  pub leader_elect : Bool
  pub probe_addr : Text
  pub metrics_addr : Text

abbrev pub flag_defaults : FlagValues
flag_defaults = record {
  cluster_domain = codes "cluster.local";
  leader_elect = true;
  probe_addr = codes ":8081";
  metrics_addr = codes "0";
}

-- The flags that `run` declares.
pub data FlagName : Type 0 where
  cluster_domain_flag leader_elect_flag probe_addr_flag metrics_addr_flag : FlagName

-- Why `flag.Parse` ends the process.
pub data FlagError : Type 0 where
  bad_syntax : Text → FlagError
  undefined_flag : Text → FlagError
  needs_argument : FlagName → FlagError
  bad_value : Text → Text → FlagError
  help_requested : FlagError

-- `strconv.ParseBool`
unfoldable pub parse_bool : Text → Option Bool
parse_bool s =
    if contains
      (codes "1" ∷ codes "t" ∷ codes "T" ∷ codes "true" ∷ codes "TRUE" ∷ codes "True" ∷ []) s
    then some true
    else if contains
        (codes "0" ∷ codes "f" ∷ codes "F" ∷ codes "false" ∷ codes "FALSE" ∷ codes "False" ∷ []) s
    then some false
    else none

unfoldable pub flag_named : Text → Option FlagName
flag_named name =
    if same name (codes "cluster-domain")
    then some cluster_domain_flag
    else if same name (codes "leader-elect")
    then some leader_elect_flag
    else if same name (codes "health-probe-bind-address")
    then some probe_addr_flag
    else if same name (codes "metrics-bind-address")
    then some metrics_addr_flag
    else none

-- An argument, taken apart.
pub data Argument : Type 0 where
  -- No flag: it and what follows are left alone. So is what follows `--`.
  plain_argument : Argument
  malformed : Argument
  flag_argument : Text → Option Text → Argument

-- The name, and the value behind the first `=` that does not stand at the start.
unfoldable pub named_argument : Text → Argument
named_argument [] = malformed
named_argument (c ∷ s) = if c == b'-' || c == b'=' then malformed else elim (split_first b'=' s) [
  | none ↦ flag_argument (c ∷ s) none
  | some (name, value) ↦ flag_argument (c ∷ name) (some value)
]

unfoldable pub argument_of : Text → Argument
unfolding named_argument
argument_of [] = plain_argument
argument_of (c ∷ []) = plain_argument
argument_of (c ∷ d ∷ s) =
    if not (c == b'-')
    then plain_argument
    else if not (d == b'-')
    then named_argument (d ∷ s)
    else if same s []
    then plain_argument
    else named_argument s

unfoldable pub set_bool : Text → FlagValues → Result FlagError FlagValues
unfolding parse_bool
set_bool value f = elim (parse_bool value) [
  | none ↦ err (bad_value (codes "leader-elect") value)
  | some b ↦ ok (record f { leader_elect = b })
]

-- `flag.Value.Set`
unfoldable pub set_flag : FlagName → Text → FlagValues → Result FlagError FlagValues
unfolding set_bool
set_flag cluster_domain_flag value f = ok (record f { cluster_domain = value })
set_flag leader_elect_flag value f = set_bool value f
set_flag probe_addr_flag value f = ok (record f { probe_addr = value })
set_flag metrics_addr_flag value f = ok (record f { metrics_addr = value })

unfoldable pub is_bool_flag : FlagName → Bool
is_bool_flag leader_elect_flag = true
is_bool_flag _ = false

-- A flag that is not declared.
unfoldable pub unknown_flag : Text → FlagError
unknown_flag name =
    if same name (codes "help") || same name (codes "h")
    then help_requested
    else undefined_flag name

-- What an argument leads to: the end of the flags, an error, or the next argument, which is the
-- value of a flag that is pending.
pub data FlagStep : Type 0 where
  no_more_flags : FlagStep
  failed : FlagError → FlagStep
  proceed : Option FlagName → FlagValues → FlagStep

unfoldable pub after_set : Result FlagError FlagValues → FlagStep
after_set (err e) = failed e
after_set (ok f) = proceed none f

-- A declared flag: a Boolean one needs no value, another one takes the next argument.
unfoldable pub known_step : FlagName → Option Text → FlagValues → FlagStep
unfolding set_flag after_set is_bool_flag
known_step n (some value) f = after_set (set_flag n value f)
known_step n none f =
    if is_bool_flag n then after_set (set_flag n (codes "true") f) else proceed (some n) f

-- `parseOne`
unfoldable pub flag_step : Argument → Text → FlagValues → FlagStep
unfolding known_step unknown_flag flag_named
flag_step plain_argument arg f = no_more_flags
flag_step malformed arg f = failed (bad_syntax arg)
flag_step (flag_argument name value) arg f = elim (flag_named name) [
  | none ↦ failed (unknown_flag name)
  | some n ↦ known_step n value f
]

-- `flag.Parse`, on the arguments behind the name of the command, with the flag that is pending.
unfoldable pub parse_args : Option FlagName → List Text → FlagValues → Result FlagError FlagValues
unfolding flag_step argument_of set_flag
parse_args none [] f = ok f
parse_args (some n) [] f = err (needs_argument n)
parse_args (some n) (arg ∷ args) f = elim (set_flag n arg f) [
  | err e ↦ err e
  | ok g ↦ parse_args none args g
]
parse_args none (arg ∷ args) f = elim (flag_step (argument_of arg) arg f) [
  | no_more_flags ↦ ok f
  | failed e ↦ err e
  | proceed pending g ↦ parse_args pending args g
]

unfoldable pub parse_flags : List Text → Result FlagError FlagValues
unfolding parse_args
parse_flags args = parse_args none args flag_defaults
