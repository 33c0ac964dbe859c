-- ===== src/Main.antt =====
-- cmd/zoneroute-controller/main.go: the start of the process. What it calls of controller-runtime is
-- a list of calls, which the platform answers.
pub mod Flags
pub mod Started
pub mod Tests
use zoneroute.Base.{ℕ, Bool, List, [], ◌∷◌, ◌++◌, Option, none, some}
use zoneroute.Result.{Result, ok, err}
use zoneroute.Text.{Text, codes}
use zoneroute.Api.Registration.{SchemeApi, add_to_scheme}
use zoneroute.Controller.Predicates.{Event, core_dns_namespace}
use zoneroute.Controller.ClusterDomain.{DomainError, cluster_domain}
use zoneroute.Controller.Setup.{Builder, setup_with_manager}
use zoneroute.Main.Flags.{FlagValues, FlagError, help_requested, parse_flags}

abbrev pub leader_election_id : Text
leader_election_id = codes "zoneroute.dns.mihnk.org"

-- `ctrl.Options`, with the fields that are set. ConfigMaps are cached in the namespaces alone.
pub record Options (Scheme : Type 0) : Type 0 where
  pub scheme : Scheme
  pub leader_election : Bool
  pub leader_election_id : Text
  pub probe_addr : Text
  pub metrics_addr : Text
  pub config_map_namespaces : List Text

-- The calls that change something outside of `run`, in controller-runtime's words.
pub data Call (Scheme : Type 0) : Type 0 where
  set_logger : Call Scheme
  get_config_or_die : Call Scheme
  new_manager : Options Scheme → Call Scheme
  complete : Builder → Call Scheme
  add_healthz_check : Text → Call Scheme
  add_readyz_check : Text → Call Scheme
  setup_signal_handler : Call Scheme
  start : Call Scheme

-- How the process ends. `exited` is an exit out of a library's function.
pub data RunError (E : Type 0) : Type 0 where
  bad_domain : DomainError → RunError E
  registration_failed : E → RunError E
  creating_manager : E → RunError E
  setting_up_controller : E → RunError E
  check_failed : E → RunError E
  manager_stopped : E → RunError E

pub data End (E : Type 0) : Type 0 where
  finished : End E
  returned : RunError E → End E
  exited : ℕ → End E

-- What the process runs on. `answer` is the error, if there is one, of a call behind the earlier
-- calls.
pub record Platform : Type 1 where
  pub Error : Type 0
  pub schemes : SchemeApi Error
  pub answer : List (Call schemes.Scheme) → Call schemes.Scheme → Option Error
  pub is_subdomain : Text → List Text
  pub generation_changed : Event → Bool

-- The status with which `flag.Parse` ends the process.
unfoldable pub flag_exit : FlagError → ℕ
flag_exit help_requested = 0
flag_exit _ = 2

module _ (p : Platform) where
  open p use {Error, schemes, answer, is_subdomain, generation_changed}

  abbrev pub CallOf : Type 0
  CallOf = Call schemes.Scheme

  -- What has been called when the process ends, and how it ends.
  abbrev pub Trace : Type 0
  Trace = List CallOf × End Error

  -- A call whose failure ends `run`, and what is done if it does not fail.
  unfoldable pub or_end : CallOf → (Error → End Error) → (List CallOf → Trace) → List CallOf → Trace
  or_end x fail rest past = elim (answer past x) [
    | some e ↦ (past ++ (x ∷ []), fail e)
    | none ↦ rest (past ++ (x ∷ []))
  ]

  -- A call that does not fail.
  unfoldable pub and_then : CallOf → (List CallOf → Trace) → List CallOf → Trace
  and_then x rest past = rest (past ++ (x ∷ []))

  unfoldable pub manager_options : FlagValues → schemes.Scheme → Options schemes.Scheme
  manager_options f s = record {
    scheme = s;
    leader_election = f.leader_elect;
    leader_election_id = leader_election_id;
    probe_addr = f.probe_addr;
    metrics_addr = f.metrics_addr;
    config_map_namespaces = core_dns_namespace ∷ [];
  }

  unfoldable pub registered : Option Error × schemes.Scheme → Result Error schemes.Scheme
  registered (none, s) = ok s
  registered (some e, s) = err e

  -- Both registrations: the scheme, or the error of the first that fails.
  unfoldable pub register : schemes.Scheme → Result Error schemes.Scheme
  unfolding registered
  register s = elim (registered (schemes.add_client_go s)) [
    | err e ↦ err e
    | ok t ↦ registered (add_to_scheme schemes t)
  ]

  -- The rest of `run` behind the registrations, from its end.
  unfoldable pub start_manager : List CallOf → Trace
  unfolding or_end and_then
  start_manager =
      and_then setup_signal_handler
        (or_end start (λ e. returned (manager_stopped e)) (λ past. (past, finished)))

  unfoldable pub add_checks : List CallOf → Trace
  unfolding or_end start_manager
  add_checks =
      or_end (add_healthz_check (codes "healthz")) (λ e. returned (check_failed e))
        (or_end (add_readyz_check (codes "readyz")) (λ e. returned (check_failed e)) start_manager)

  unfoldable pub set_up : Text → List CallOf → Trace
  unfolding or_end add_checks
  set_up domain =
      or_end (complete (setup_with_manager generation_changed domain))
        (λ e. returned (setting_up_controller e)) add_checks

  unfoldable pub run_manager : FlagValues → Text → schemes.Scheme → List CallOf → Trace
  unfolding or_end set_up manager_options
  run_manager f domain s =
      or_end get_config_or_die (λ e. exited 1)
        (or_end (new_manager (manager_options f s)) (λ e. returned (creating_manager e))
          (set_up domain))

  unfoldable pub run_registered :
      FlagValues → Text → List CallOf → Result Error schemes.Scheme → Trace
  unfolding run_manager
  run_registered f domain past (err e) = (past, returned (registration_failed e))
  run_registered f domain past (ok s) = run_manager f domain s past

  unfoldable pub run_domain : FlagValues → Result DomainError Text → Trace
  unfolding run_registered register
  run_domain f (err e) = ([], returned (bad_domain e))
  run_domain f (ok domain) =
      and_then set_logger (λ past. run_registered f domain past (register schemes.new_scheme)) []

  unfoldable pub run_flags : Result FlagError FlagValues → Trace
  unfolding run_domain flag_exit
  run_flags (err e) = ([], exited (flag_exit e))
  run_flags (ok f) = run_domain f (cluster_domain is_subdomain f.cluster_domain)

  -- `run`, on the arguments of the command.
  unfoldable pub run : List Text → Trace
  unfolding run_flags
  run args = run_flags (parse_flags args)

  -- `main`: the status with which the process ends.
  unfoldable pub exit_status : End Error → ℕ
  exit_status finished = 0
  exit_status (returned e) = 1
  exit_status (exited n) = n
