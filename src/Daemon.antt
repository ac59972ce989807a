-- ===== src/Daemon.antt =====
-- cmd/sumd/main.go: how the server of a node or of a master starts and stops.
pub mod Modes
use sum.Prelude.{String, Bool, Option, none, some, List, [], ◌∷◌}
use sum.Prelude.Tests.{Result, ok, err, string_eq, ◌==◌, ◌◇◌, if◌then◌else◌}

pub record Flags : Type 0 where
  pub listen : String
  pub creds : String
  pub data_path : String
  pub log_file : String
  pub master_cfg : String
  pub cpu_profile : String
  pub mem_profile : String

-- The packages that main calls, on the world `W`: os, pprof, log, the path of a file, TLS, net, grpc, and
-- the constructors of the services of a master `M` and of a node `N`. A missing text is success.
pub record Machine (W M N : Type 0) : Type 0 where
  pub create_file : String → W → W × Option String
  pub start_cpu_profile : String → W → W × Option String
  pub stop_cpu_profile : W → W
  pub write_heap_profile : String → W → W × Option String
  pub open_file : String → W → W × Option String
  pub open_log : W → W × Option String
  pub join : String → String → String
  pub load_key_pair : String → String → W → W × Option String
  pub listen : String → W → W × Option String
  pub new_master : Flags → W → W × Result String M
  pub new_node : Flags → W → W × Result String N

-- How a part ends; `fatal` is log.Fatal, which is taken to end the program also before setupLogging
-- says so.
pub data Ending (A : Type 0) : Type 0 where
  returned : A → Ending A
  fatal : String → Ending A
  panicked : String → Ending A

pub data GrpcService : Type 0 where
  master_service internal_service sum_service : GrpcService

-- nodeSvc and masterSvc, and what is registered
pub record Server (M N : Type 0) : Type 0 where
  pub node_svc : Option N
  pub master_svc : Option M
  pub registered : List GrpcService

abbrev pub Step : Type 0 → Type 0 → Type 0
Step W A = W → W × Ending A

module _ {W : Type 0} where
  unfoldable pub continue_with : {A B : Type 0} → (A → Step W B) → W × Ending A → W × Ending B
  continue_with f (w, returned a) = f a w
  continue_with f (w, fatal e) = (w, fatal e)
  continue_with f (w, panicked e) = (w, panicked e)

  infixl 5 ◌>>=◌
  unfoldable pub ◌>>=◌ : {A B : Type 0} → Step W A → (A → Step W B) → Step W B
  unfolding continue_with
  ◌>>=◌ m f w = continue_with f (m w)

  unfoldable pub or_fatal : String → W × Option String → W × Ending (Unit {0})
  or_fatal prefix (w, none) = (w, returned tt)
  or_fatal prefix (w, some e) = (w, fatal (prefix ◇ e))

  unfoldable pub or_panic : W × Option String → W × Ending (Unit {0})
  or_panic (w, none) = (w, returned tt)
  or_panic (w, some e) = (w, panicked e)

  unfoldable pub made : {A B : Type 0} → String → (A → B) → W × Result String A → W × Ending B
  made prefix f (w, ok a) = (w, returned (f a))
  made prefix f (w, err e) = (w, fatal (prefix ◇ e))

module _ {W M N : Type 0} (machine : Machine W M N) (flags : Flags) where
  unfoldable pub start_profiling : Step W (Unit {0})
  unfolding or_fatal ◌>>=◌
  start_profiling w =
      if flags.cpu_profile == ""
      then (w, returned tt)
      else ((λ v. or_fatal "" (machine.create_file flags.cpu_profile v))
            >>= (λ _ v. or_fatal "" (machine.start_cpu_profile flags.cpu_profile v)))
          w

  -- setupLogging, without the levels
  unfoldable pub setup_logging : Step W (Unit {0})
  unfolding or_panic ◌>>=◌
  setup_logging =
      (λ w.
        if flags.log_file == ""
        then (w, returned tt)
        else or_panic (machine.open_file flags.log_file w))
      >>= (λ _ w. or_panic (machine.open_log w))

  unfoldable pub setup_grpc_server : Step W (Unit {0})
  unfolding or_fatal ◌>>=◌
  setup_grpc_server =
      (λ w. or_fatal ("failed to load credentials from " ◇ flags.creds ◇ ": ") (
        machine.load_key_pair (machine.join flags.creds "cert.pem")
          (machine.join flags.creds "key.pem") w))
      >>= (λ _ w. or_fatal "failed to create listener: " (machine.listen flags.listen w))

  -- the part of main that makes the service and registers it
  unfoldable pub create_service : Step W (Server M N)
  unfolding made
  create_service w =
      if flags.master_cfg == ""
      then made ""
          (λ svc. record {
            node_svc = some svc;
            master_svc = none;
            registered = internal_service ∷ sum_service ∷ [];
          })
          (machine.new_node flags w)
      else made "cannot start master service: "
          (λ svc. record {
            node_svc = none;
            master_svc = some svc;
            registered = master_service ∷ internal_service ∷ sum_service ∷ [];
          })
          (machine.new_master flags w)

  -- main up to Serve
  unfoldable pub start : Step W (Server M N)
  unfolding start_profiling setup_logging setup_grpc_server create_service ◌>>=◌
  start =
      start_profiling
      >>= (λ _. setup_logging)
      >>= (λ _. setup_grpc_server)
      >>= (λ _. create_service)

  -- doCleanup, which the first signal calls before os.Exit
  unfoldable pub save_heap : W → W
  save_heap w =
      let (w1, e) = machine.create_file flags.mem_profile w in
      elim e [ some _ ↦ w1 | none ↦ (machine.write_heap_profile flags.mem_profile w1).0 ]

  unfoldable pub do_cleanup : W → W
  unfolding save_heap
  do_cleanup w =
      let w1 = if flags.cpu_profile == "" then w else machine.stop_cpu_profile w in
      if flags.mem_profile == "" then w1 else save_heap w1

-- the choice of statsReport
pub data Reporter (M N : Type 0) : Type 0 where
  of_node : N → Reporter M N
  of_master : M → Reporter M N

unfoldable pub stats_reporter : {M N : Type 0} → Server M N → Ending (Reporter M N)
stats_reporter server = elim server.node_svc [
  | some svc ↦ returned (of_node svc)
  | none ↦ elim server.master_svc [
    | some svc ↦ returned (of_master svc)
    | none ↦ panicked "no service has been created"
  ]
]
