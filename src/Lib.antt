-- ===== src/Lib.antt =====
-- ZoneRoute is a Kubernetes controller: it takes ZoneRoute objects, each a list of DNS zones and
-- of resolvers for them, decides which of them may be published beside what CoreDNS already
-- serves, and writes the accepted ones as one fragment into the ConfigMap
-- kube-system/coredns-custom, which the Corefile imports.
--
-- The parts, and the files that model them:
--   internal/dnsname/dnsname.go           Dnsname: Canonical.
--   internal/conflict/conflict.go         Conflict: Resolve is `resolve`. The loop over the
--     listeners is `serve_all`, the first loop over the routes `triage` with `early_decisions`
--     and `candidates`, the loop over the sorted candidates `assign`. The modules below it prove
--     what these loops do.
--   internal/corefile/corefile.go         Corefile: Inspect is `inspect`, with scanImports in
--     Corefile/Scan and parseKey in Corefile/Key. Corefile/Tokens has the tokens of a text, apart
--     from the code that goes through them.
--   internal/render/render.go             Render: Render is `render`.
--   internal/controller/convert.go        Controller/Convert.
--   internal/controller/status.go         Controller/Status.
--   internal/controller/predicates.go     Controller/Predicates.
--   internal/controller/reconciler.go     Controller/Reconciler: Reconcile is `reconcile`, one
--     function for each stage that can return early, from `with_items` to `act`.
--     Controller/ClusterDomain has ClusterDomain, Controller/Setup SetupWithManager.
--   cmd/zoneroute-controller/main.go      Main: run is `run`, which returns the calls that it makes
--     and how the process ends, with package flag in Main/Flags.
--   api/v1alpha1/types.go                 Api: the fields and constants that the controller uses;
--     Api/Schema: the rules of the markers, with the pattern of a zone in Api/Schema/Pattern and all
--     rules on a spec together in Api/Schema/Rules.
--   api/v1alpha1/zz_generated.deepcopy.go Api/Copies, on the memory of Api/Memory.
--   api/v1alpha1/groupversion_info.go     Api/Registration.
-- Reconcile lists the routes, reads both ConfigMaps, hands their text to `inspect`, the listeners
-- found and the routes to `resolve`, and the accepted routes to `render`; it then publishes the
-- fragment and refreshes the conditions of every route. Controller/Fragment follows a route from
-- the listeners found to the keys written, and Controller/Admitted does so for routes that passed
-- the schema. Below Controller/Reconciler stand what a reconcile writes (Trace), what it never
-- touches (Owned), when it succeeds (Live), when it returns early (Blocked, Closed), when it is done
-- (Converged), and what a dropped event cannot hide (Missed, on what a reconcile reads, Reading).
--
-- Strings are lists of bytes (Text), with the functions of package strings; ToLower, ToUpper and
-- TrimSpace are those of ASCII text. Itoa and Atoi (Strconv) and SplitHostPort and JoinHostPort
-- (Net) follow their documented behaviour. Maps are association lists (Dict). Sort is insertion
-- sort, which is stable; where the code calls sort.Slice no two items are equal. Times count
-- seconds; ports and generations are not negative, as the schema has them. The loop of
-- scanImports runs on as much fuel as there are tokens, and one more, which Corefile/Scan/Total
-- shows to be enough; the digits of n are printed on n + 1 steps.
--
-- The deep copies run on a memory of arrays, by their addresses (Api/Memory), in which slices and
-- pointers are shared; all other modules pass values. `updateStatus`, the one place where the
-- controller changes an object that it has read, works on such a copy. Conditions refer to no
-- memory, and what metadata refers to is kept apart from the arrays.
--
-- CoreDNS's lexer and parser (Caddyfile), the API server behind client.Client with
-- meta.SetStatusCondition (Client in Controller/Client), IsDNS1123Subdomain, the scheme
-- (SchemeApi in Api/Registration), the metadata of objects (MetaApi in Api/Copies), isIP and
-- ip.isCanonical (IpLibrary in Api/Schema/Rules) and controller-runtime (Platform in Main) are
-- parameters. The copies of metadata are taken to read as the originals (IsFaithful). The
-- lexer is taken to walk over finitely many tokens (IsFinite), and where a theorem says so to number
-- them within the lines of its text (HasLines in Corefile/Lines). Where a theorem says so the API
-- server keeps its promises (IsLawful in Controller/Reconciler/Lawful): names and keys are distinct,
-- a merge patch sets its entry alone, a status update writes the status of its object alone, and
-- SetStatusCondition sets the condition of its type. Reads are taken to be up to date, as if no
-- cache stood before the server. Caddyfile/Sample, Controller/Sample and the modules named Tests
-- have small instances, on which the tests run.
--
-- Not modelled: letters beyond ASCII, of which (?i) in the pattern of a zone takes two more; flags
-- that the imported packages add to flag.CommandLine, as controller-runtime does with -kubeconfig
-- (Main/Flags has the four of main.go, and ends a command line with any other);
-- logging, contexts and signals beyond the calls that set them up; how controller-runtime queues and retries
-- requests; the contents of wrapped error messages, which are kept as values.
pub mod Base
pub mod Text
pub mod Sort
pub mod Dict
pub mod Dnsname
pub mod Conflict
pub mod Result
pub mod Strconv
pub mod Net
pub mod Caddyfile
pub mod Corefile
pub mod Render
pub mod Api
pub mod Controller
pub mod Main
