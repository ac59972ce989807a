-- ===== src/Cluster.antt =====
-- cmd/sumcluster/main.go: the processes of a cluster on one machine, and the file for its master.
pub mod Saved
pub mod Ready
use sum.Prelude.{
  ℕ, zero, suc, ◌+◌, ◌≤◌, String, Bool, true, false, Option, none, some, List, [], ◌∷◌, ◌++◌,
}
use sum.Prelude.Tests.{Result, ok, err, ◌◇◌, if◌then◌else◌}
use sum.Prelude.Lists.{set}
use sum.Prelude.Int.{ℤ, pos, negsuc}
use sum.Prelude.Decimal.{format_uint}
use sum.Master.Network.{Network, NodeConfig, Config}

-- The flags, with what other packages make of them: `cert_dir` is filepath.Dir of the certificate,
-- `data_path` the data path formatted with a number, `num_cpu` the number of processors. The base port
-- is not negative, and no port leaves int.
pub record Flags : Type 0 where
  pub master_address : String
  pub master_file : String
  pub cert_path : String
  pub cert_dir : String
  pub base_port : ℕ
  pub num_nodes : ℤ
  pub max_msg_size : ℕ
  pub data_path : ℕ → String
  pub num_cpu : ℕ

-- os.Stat with os.IsNotExist, os.MkdirAll, the start of a process that runs beside this one, and a
-- process that is run to its end
pub record Host (W : Type 0) : Type 0 where
  pub is_missing : String → W → Bool
  pub mkdir_all : String → W → W × Option String
  pub start : String → List String → W → W
  pub run : String → List String → W → W × Option String

-- `masterConfig.Nodes`, the world, and the arguments of the processes that were started beside this
-- one, in the order in which they were started
pub record Cluster (W : Type 0) : Type 0 where
  pub world : W
  pub nodes : List NodeConfig
  pub spawned : List (List String)

-- How a part ends; `waiting` is a poll that goes on past the fuel.
pub data Status : Type 0 where
  done : Status
  panicked : String → Status
  fatal : String → Status
  waiting : Status

-- the answer of checkClient, or what log.Fatal reports in it
pub data Check : Type 0 where
  is_ready : Check
  not_ready : String → Check
  stopped : String → Check

unfoldable pub panicked_by : Option String → Status
panicked_by none = done
panicked_by (some e) = panicked e

unfoldable pub nodes_wanted : Flags → ℕ
nodes_wanted (flags) = elim flags.num_nodes [
  | pos zero ↦ flags.num_cpu
  | pos (suc n) ↦ suc n
  | negsuc n ↦ flags.num_cpu
]

-- `make([]NodeConfig, n)`
unfoldable pub blanks : ℕ → List NodeConfig
blanks zero = []
blanks (suc n) = record { address = ""; cert_file = "" } ∷ blanks n

unfoldable pub node_address : Flags → ℕ → String
node_address flags idx = "localhost:" ◇ format_uint (flags.base_port + idx)

unfoldable pub node_args : Flags → ℕ → List String
unfolding node_address
node_args flags idx =
    "-listen"
    ∷ node_address flags idx
    ∷ "-datapath"
    ∷ flags.data_path idx
    ∷ "-creds"
    ∷ flags.cert_dir
    ∷ "-max-msg-size"
    ∷ format_uint flags.max_msg_size
    ∷ []

module _ {W : Type 0} (host : Host W) (flags : Flags) where
  -- the loop of checkDatapath
  unfoldable pub check_paths : List String → W → W × Option String
  check_paths [] w = (w, none)
  check_paths (p ∷ rest) w =
      if host.is_missing p w
      then (let (w1, e) = host.mkdir_all p w in
          elim e [ some failed ↦ (w1, some failed) | none ↦ check_paths rest w1 ])
      else check_paths rest w

  unfoldable pub check_datapath : String → W → W × Option String
  unfolding check_paths
  check_datapath path w = check_paths (path ∷ (path ◇ "/oracles") ∷ (path ◇ "/data") ∷ []) w

  -- runNode: the process runs beside this one
  unfoldable pub run_node : ℕ → Cluster W → Cluster W
  unfolding node_address node_args
  run_node idx c = record c {
    world = host.start "sumd" (node_args flags idx) c.world;
    nodes =
        set c.nodes idx (record { address = node_address flags idx; cert_file = flags.cert_path });
    spawned = c.spawned ++ node_args flags idx ∷ [];
  }

  -- the loop of main over the ports, `n` of them from the index `idx` on
  unfoldable pub spawn_nodes : ℕ → ℕ → Cluster W → Cluster W × Status
  unfolding check_datapath run_node
  spawn_nodes zero idx c = (c, done)
  spawn_nodes (suc n) idx c =
      let (w1, e) = check_datapath (flags.data_path idx) c.world in
      elim e [
        | some failed ↦ (record c { world = w1 }, panicked failed)
        | none ↦ spawn_nodes n (suc idx) (run_node idx (record c { world = w1 }))
      ]

module _ {W B : Type 0} (net : Network W B) (host : Host W) (flags : Flags) where
  -- checkClient; the name of the server in the credentials is left out
  unfoldable pub check_client : String → W → W × Check
  check_client addr w = elim (net.load_credentials flags.cert_path w) [
    | err e ↦ (w, stopped ("failed to create TLS credentials: " ◇ e))
    | ok creds ↦
        let (w1, dialled) = net.dial addr (some creds) w in
        elim dialled [
          | err e ↦ (w1, stopped ("failed to dial " ◇ addr ◇ ": " ◇ e))
          | ok connection ↦
              let (w2, reply) = net.info connection w1 in
              elim reply [ err e ↦ (w2, not_ready e) | ok _ ↦ (w2, is_ready) ]
        ]
  ]

  -- a poll of waitClient, given the polls after it
  unfoldable pub polled : (W → W × Status) → W × Check → W × Status
  polled again (w, is_ready) = (w, done)
  polled again (w, not_ready e) = again w
  polled again (w, stopped e) = (w, fatal e)

  -- waitClient: it polls until the node is ready, for ever if it never is; the fuel bounds the polls
  unfoldable pub wait_client : ℕ → String → W → W × Status
  unfolding check_client polled
  wait_client zero addr w = (w, waiting)
  wait_client (suc fuel) addr w = polled (wait_client fuel addr) (check_client addr w)

  -- the loop of main that waits for the nodes
  unfoldable pub wait_all : ℕ → List NodeConfig → W → W × Status
  unfolding wait_client
  wait_all fuel [] w = (w, done)
  wait_all fuel (n ∷ rest) w =
      let (w1, status) = wait_client fuel n.address w in
      elim status [
        | done ↦ wait_all fuel rest w1
        | panicked e ↦ (w1, panicked e)
        | fatal e ↦ (w1, fatal e)
        | waiting ↦ (w1, waiting)
      ]

  -- the part of main that saves the configuration
  unfoldable pub save : List NodeConfig → W → W × Status
  unfolding panicked_by
  save nodes w = elim (net.marshal_config (record { nodes = nodes })) [
    | err e ↦ (w, panicked e)
    | ok js ↦ let (w1, e) = net.write_file flags.master_file js w in (w1, panicked_by e)
  ]

  -- main up to the start of the master
  unfoldable pub waited : Cluster W → W × Status → Cluster W × Status
  unfolding save
  waited c (w, done) = let (w1, status) = save c.nodes w in (record c { world = w1 }, status)
  waited c (w, panicked e) = (record c { world = w }, panicked e)
  waited c (w, fatal e) = (record c { world = w }, fatal e)
  waited c (w, waiting) = (record c { world = w }, waiting)

  unfoldable pub spawned_all : ℕ → Cluster W × Status → Cluster W × Status
  unfolding waited wait_all
  spawned_all fuel (c, done) = waited c (wait_all fuel c.nodes c.world)
  spawned_all fuel (c, panicked e) = (c, panicked e)
  spawned_all fuel (c, fatal e) = (c, fatal e)
  spawned_all fuel (c, waiting) = (c, waiting)

  unfoldable pub prepare : ℕ → W → Cluster W × Status
  unfolding nodes_wanted blanks spawn_nodes spawned_all
  prepare fuel w = spawned_all fuel (
      spawn_nodes host flags (nodes_wanted flags) 0
        (record { world = w; nodes = blanks (nodes_wanted flags); spawned = [] }))

  -- runMaster, which ends with the process of the master
  unfoldable pub run_master : Cluster W → Cluster W × Status
  unfolding panicked_by
  run_master c =
      let (w1, e) =
        host.run "sumd"
          ("-listen"
            ∷ flags.master_address
            ∷ "-master"
            ∷ flags.master_file
            ∷ "-max-msg-size"
            ∷ format_uint flags.max_msg_size
            ∷ [])
          c.world in
      (record c { world = w1 }, panicked_by e)

  unfoldable pub prepared : Cluster W × Status → Cluster W × Status
  unfolding run_master
  prepared (c, done) = run_master c
  prepared (c, panicked e) = (c, panicked e)
  prepared (c, fatal e) = (c, fatal e)
  prepared (c, waiting) = (c, waiting)

  unfoldable pub main : ℕ → W → Cluster W × Status
  unfolding prepare prepared
  main fuel w = prepared (prepare fuel w)
