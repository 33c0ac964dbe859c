-- ===== src/Main/Started.antt =====
-- When the manager is started.
use zoneroute.Base.{
  Bool, true, false, ◌||◌, List, [], ◌∷◌, ◌++◌, none, ◌≡◌, ◌≢◌, refl, ◌∙◌, inl, inr, arith,
  Option-cases,
}
use zoneroute.Base.Lists.{any}
use zoneroute.Result.{Result, ok, err}
use zoneroute.Text.{Text, codes}
use zoneroute.Dnsname.{canonical}
use zoneroute.Conflict.{Route, Existing, resolve}
use zoneroute.Controller.ClusterDomain.{DomainError, cluster_domain}
use zoneroute.Controller.Reconciler.Domain.{cluster_domain-resolve}
use zoneroute.Controller.Setup.{setup_with_manager}
use zoneroute.Main.{
  Call, set_logger, get_config_or_die, new_manager, complete, add_healthz_check, add_readyz_check,
  setup_signal_handler, start, Platform, End, exited, finished, returned, CallOf, Trace, or_end,
  and_then, manager_options, register, start_manager, add_checks, set_up, run_manager,
  run_registered, run_domain, run_flags, run, creating_manager, setting_up_controller, check_failed,
  manager_stopped,
}
use zoneroute.Main.Flags.{FlagValues, FlagError, parse_flags}

unfoldable pub is_start : {S : Type 0} → Call S → Bool
is_start start = true
is_start _ = false

-- The manager is started.
unfoldable pub has_start : {S : Type 0} → List (Call S) → Bool
unfolding is_start
has_start xs = any is_start xs

has_start-append :
    {S : Type 0} (xs ys : List (Call S)) → has_start (xs ++ ys) ≡ (has_start xs || has_start ys)
unfolding has_start any
has_start-append [] ys = refl
has_start-append (x ∷ xs) ys = ground (arith, has_start-append xs ys)

module _ (p : Platform) where
  open p use {Error, schemes, answer, is_subdomain, generation_changed}

  -- The calls up to the start, in order.
  abbrev pub before_start : FlagValues → Text → schemes.Scheme → List (CallOf p)
  before_start f domain s =
      set_logger
      ∷ get_config_or_die
      ∷ new_manager (manager_options p f s)
      ∷ complete (setup_with_manager generation_changed domain)
      ∷ add_healthz_check (codes "healthz")
      ∷ add_readyz_check (codes "readyz")
      ∷ setup_signal_handler
      ∷ []

  or_end-started :
      (x : CallOf p) (fail : Error → End Error) (rest : List (CallOf p) → Trace p)
      (past : List (CallOf p))
      → has_start past ≡ false
      → is_start x ≡ false
      → has_start (or_end p x fail rest past).0 ≡ true
      → (answer past x ≡ none)
        × (has_start (rest (past ++ (x ∷ []))).0 ≡ true)
        × ((or_end p x fail rest past).0 ≡ (rest (past ++ (x ∷ []))).0)
  unfolding or_end
  or_end-started x fail rest past clear plain h = elim (Option-cases (answer past x)) [
    | inl e ↦ (e, rw (e, or_end) at h, rw (e, or_end) refl)
    | inr (y, e) ↦
        let reached : has_start (past ++ (x ∷ [])) ≡ true = rw (e, or_end) at h in
        absurd (clear_end past x clear plain reached)
  ]
    where
      clear_end :
          (past : List (CallOf p)) (x : CallOf p)
          → has_start past ≡ false
          → is_start x ≡ false
          → ¬ (has_start (past ++ (x ∷ [])) ≡ true)
      clear_end past x clear plain h =
          let split = has_start-append past (x ∷ []) in
          let last : has_start (x ∷ []) ≡ false = unfold has_start any in ground (arith, plain) in
          ground (arith, split, clear, last, h)

  -- Every call of the list is answered without an error, behind the calls before it.
  abbrev pub Answered : List (CallOf p) → List (CallOf p) → Type 0
  Answered past [] = Unit
  Answered past (x ∷ xs) = (answer past x ≡ none) × Answered (past ++ (x ∷ [])) xs

  -- The calls that can fail, up to the start.
  abbrev pub needed : FlagValues → Text → schemes.Scheme → List (CallOf p)
  needed f domain s =
      get_config_or_die
      ∷ new_manager (manager_options p f s)
      ∷ complete (setup_with_manager generation_changed domain)
      ∷ add_healthz_check (codes "healthz")
      ∷ add_readyz_check (codes "readyz")
      ∷ []

  -- What it takes to start the manager.
  pub record Started (args : List Text) (calls : List (CallOf p)) : Type 0 where
    pub values : FlagValues
    pub domain : Text
    pub scheme : schemes.Scheme
    pub flags_read : parse_flags args ≡ ok values
    pub domain_accepted : cluster_domain is_subdomain values.cluster_domain ≡ ok domain
    pub domain_canonical : canonical domain ≡ domain
    pub domain_resolves : (rs : List Route) (es : List Existing) → resolve rs es domain ≢ none
    pub types_registered : register p schemes.new_scheme ≡ ok scheme
    pub manager_ready : Answered (set_logger ∷ []) (needed values domain scheme)
    pub in_order : calls ≡ before_start values domain scheme ++ (start ∷ [])

  start-last :
      (past : List (CallOf p))
      → (or_end p start (λ e. returned (manager_stopped e)) (λ calls. (calls, finished)) past).0
        ≡ past ++ (start ∷ [])
  unfolding or_end
  start-last past = elim (Option-cases (answer past start)) [
    | inl e ↦ rw (e, or_end) refl
    | inr (y, e) ↦ rw (e, or_end) refl
  ]

  run_manager-started :
      (f : FlagValues) (domain : Text) (s : schemes.Scheme)
      → has_start (run_manager p f domain s (set_logger ∷ [])).0 ≡ true
      → Answered (set_logger ∷ []) (needed f domain s)
        × ((run_manager p f domain s (set_logger ∷ [])).0 ≡ before_start f domain s ++ (start ∷ []))
  unfolding run_manager set_up add_checks start_manager has_start is_start any and_then
  run_manager-started f domain s h =
      let ready =
        or_end p (add_readyz_check (codes "readyz")) (λ e. returned (check_failed e))
          (start_manager p) in
      let manager =
        or_end p (new_manager (manager_options p f s)) (λ e. returned (creating_manager e))
          (set_up p domain) in
      let (a0, h0, e0) =
        or_end-started get_config_or_die (λ e. exited 1) manager (set_logger ∷ []) refl refl h in
      let (a1, h1, e1) =
        or_end-started (new_manager (manager_options p f s)) (λ e. returned (creating_manager e))
          (set_up p domain) (set_logger ∷ get_config_or_die ∷ []) refl refl h0 in
      let past : List (CallOf p) =
        set_logger ∷ get_config_or_die ∷ new_manager (manager_options p f s) ∷ [] in
      let (a2, h2, e2) =
        or_end-started (complete (setup_with_manager generation_changed domain))
          (λ e. returned (setting_up_controller e)) (add_checks p) past refl refl h1 in
      let later : List (CallOf p) =
        past ++ (complete (setup_with_manager generation_changed domain) ∷ []) in
      let (a3, h3, e3) =
        or_end-started (add_healthz_check (codes "healthz")) (λ e. returned (check_failed e)) ready
          later refl refl h2 in
      let (a4, h4, e4) =
        or_end-started (add_readyz_check (codes "readyz")) (λ e. returned (check_failed e))
          (start_manager p) (later ++ (add_healthz_check (codes "healthz") ∷ [])) refl refl h3 in
      (
        (a0, (a1, (a2, (a3, (a4, tt))))),
        e0 ∙ e1 ∙ e2 ∙ e3 ∙ e4 ∙ start-last (before_start f domain s),
      )

  Ends : List Text → FlagValues → List (CallOf p) → Type 0
  Ends args f calls = has_start calls ≡ true → parse_flags args ≡ ok f → Started args calls

  run_registered-started :
      (args : List Text) (f : FlagValues) (domain : Text)
      → cluster_domain is_subdomain f.cluster_domain ≡ ok domain
      → (r : Result Error schemes.Scheme) → register p schemes.new_scheme ≡ r
      → Ends args f (run_registered p f domain (set_logger ∷ []) r).0
  unfolding run_registered Ends has_start is_start any
  run_registered-started args f domain d (err e) q h flags = absurd (ground (arith, h))
  run_registered-started args f domain d (ok s) q h flags =
      let (ready, order) = run_manager-started f domain s h in
      let (same, resolves) = cluster_domain-resolve is_subdomain f.cluster_domain domain d in
      record {
        values = f;
        domain = domain;
        scheme = s;
        flags_read = flags;
        domain_accepted = d;
        domain_canonical = same;
        domain_resolves = resolves;
        types_registered = q;
        manager_ready = ready;
        in_order = order;
      }

  run_domain-started :
      (args : List Text) (f : FlagValues) (r : Result DomainError Text)
      → cluster_domain is_subdomain f.cluster_domain ≡ r
      → Ends args f (run_domain p f r).0
  unfolding run_domain Ends has_start any and_then
  run_domain-started args f (err e) q = λ h flags. absurd (ground (arith, h))
  run_domain-started args f (ok domain) q =
      run_registered-started args f domain q (register p schemes.new_scheme) refl

  run_flags-Started :
      (args : List Text) (r : Result FlagError FlagValues)
      → parse_flags args ≡ r
      → has_start (run_flags p r).0 ≡ true
      → Started args (run_flags p r).0
  unfolding run_flags has_start any Ends
  run_flags-Started args (err e) q h = absurd (ground (arith, h))
  run_flags-Started args (ok f) q h =
      run_domain-started args f (cluster_domain is_subdomain f.cluster_domain) refl h q

  -- The manager is only started if the flags parse, `ClusterDomain` accepts the cluster domain, both
  -- registrations succeed, the manager is created with them, the controller is set up and both checks
  -- are added without an error. Then these calls were made in this order and once each, the start is
  -- the last call, and the reconciler's domain is canonical and one with which `Resolve` never fails.
  pub run-Started :
      (args : List Text) → has_start (run p args).0 ≡ true → Started args (run p args).0
  unfolding run
  run-Started args h = run_flags-Started args (parse_flags args) refl h
