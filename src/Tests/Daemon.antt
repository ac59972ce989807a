-- ===== src/Tests/Daemon.antt =====
-- The theorem about the start of the server, on a machine where everything succeeds.
use sum.Prelude.{ℕ, refl, String, none, some, List, [], ◌∷◌}
use sum.Prelude.Tests.{ok}
use sum.Daemon.{
  Flags, Machine, Server, internal_service, sum_service, start, start_profiling, setup_logging,
  setup_grpc_server, create_service, made, or_fatal, or_panic, continue_with, ◌>>=◌,
}
use sum.Daemon.Modes.{set_up, Runs, start-Runs}

abbrev flags : Flags
flags = record {
  listen = "127.0.0.1:50051";
  creds = "/etc/sumd/creds";
  data_path = "/var/lib/sumd";
  log_file = "";
  master_cfg = "";
  cpu_profile = "";
  mem_profile = "";
}

-- the world is the list of what was listened on
abbrev machine : Machine (List String) String ℕ
machine = record {
  create_file = λ p w. (w, none);
  start_cpu_profile = λ p w. (w, none);
  stop_cpu_profile = λ w. w;
  write_heap_profile = λ p w. (w, none);
  open_file = λ p w. (w, none);
  open_log = λ w. (w, none);
  join = λ folder name. name;
  load_key_pair = λ c k w. (w, none);
  listen = λ a w. (a ∷ w, none);
  new_master = λ fl w. (w, ok "master");
  new_node = λ fl w. (w, ok 1);
}

abbrev server : Server String ℕ
server = record {
  node_svc = some 1;
  master_svc = none;
  registered = internal_service ∷ sum_service ∷ [];
}

start-Runs_example : Runs machine flags ("127.0.0.1:50051" ∷ []) server
unfolding set_up start start_profiling setup_logging setup_grpc_server create_service made or_fatal
    or_panic continue_with ◌>>=◌
start-Runs_example = start-Runs machine flags [] server refl
