-- ===== src/Node/Info.antt =====
-- node/service/info.go, and Info of the node's and of the master's service.
pub mod Counts
use sum.Prelude.{ℕ, ◌%◌, String, List}
use sum.Prelude.Lists.{length}
use sum.Proto.{Record, Oracle, ServerInfo, uint64_mod}
use sum.Storage.Env.{Env}
use sum.Storage.Index
use sum.Storage.Records.{Records}
use sum.Backend.{Implementation, Memory}
use sum.Node.Interpreter.{Interpreter}
use sum.Node.Service.{Service}
use sum.Master.Raccoon.{Parser}
use sum.Master.State
use sum.Master.State.{num_records}

-- What the runtime and the operating system report, and the constant Version. `uptime` is the number of seconds since
-- the start.
pub record Runtime : Type 0 where
  pub version : String
  pub os : String
  pub arch : String
  pub go_version : String
  pub cpus : ℕ
  pub max_cpus : ℕ
  pub goroutines : ℕ
  pub alloc : ℕ
  pub num_gc : ℕ
  pub uptime : ℕ
  pub pid : ℕ
  pub uid : ℕ
  pub argv : List String
  pub memory : Memory

-- the fields of a service that only Info reads
pub record Place : Type 0 where
  pub datapath : String
  pub credspath : String
  pub address : String

-- Info; `backend` is the selected implementation
unfoldable pub info :
    {F : Type 0}
    → Runtime
    → Implementation F
    → Place
    → (records oracles next_record_id : ℕ) → ServerInfo
info rt backend place records oracles next_record_id = record {
  version = rt.version;
  os = rt.os;
  arch = rt.arch;
  go_version = rt.go_version;
  cpus = rt.cpus;
  max_cpus = rt.max_cpus;
  goroutines = rt.goroutines;
  alloc = rt.alloc;
  sys = rt.memory.sys;
  num_gc = rt.num_gc;
  backend = backend.name;
  backend_space = backend.space rt.memory;
  backend_used = backend.used rt.memory;
  uptime = rt.uptime;
  records = records % uint64_mod;
  oracles = oracles % uint64_mod;
  pid = rt.pid;
  uid = rt.uid;
  argv = rt.argv;
  datapath = place.datapath;
  credspath = place.credspath;
  address = place.address;
  next_record_id = next_record_id;
}

-- Info of a node
unfoldable pub node_info :
    {env : Env Record} {oenv : Env Oracle} {js : Interpreter (Records env)} {F : Type 0}
    → Runtime
    → Implementation F
    → Place
    → Service oenv js
    → ServerInfo
unfolding info Index.size
node_info rt backend place s =
    info rt backend place (Index.size s.records.base) (Index.size s.oracles) s.records.base.next_id

-- Info of the master, whose oracles are its raccoons
unfoldable pub master_info :
    {js : Parser} {F : Type 0} → Runtime → Implementation F → Place → State.Service js → ServerInfo
unfolding info num_records
master_info rt backend place s =
    info rt backend (record place { datapath = "" }) (num_records s) (length s.raccoons) s.next_id
