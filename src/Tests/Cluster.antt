-- ===== src/Tests/Cluster.antt =====
-- The theorems about the cluster runner, on a machine in memory that can make every folder.
use sum.Prelude.{◌≡◌, refl, String, Bool, true, false, none, List, [], ◌∷◌, arith}
use sum.Prelude.Tests.{ok, err, ◌==◌, nat_eq, string_eq, if◌then◌else◌, beq_self}
use sum.Prelude.Int.{pos}
use sum.Master.Network.{Network}
use sum.Master.Configuration.{load_config}
use sum.Master.Configuration.Stored.{FileLaws}
use sum.Cluster.{Flags, Host, done, prepare, check_client, nodes_wanted}
use sum.Cluster.Saved.{nodes_from, args_of, prepare-done}
use sum.Cluster.Ready.{HostLaws, Answers, at_once, prepare-comes}
use sum.Tests.Master.{Cluster, cluster, blank, cluster-FileLaws, marshal_one}

abbrev flags : Flags
flags = record {
  master_address = "localhost:50051";
  master_file = "master.json";
  cert_path = "";
  cert_dir = ".";
  base_port = 1000;
  num_nodes = pos 1;
  max_msg_size = 50;
  data_path = λ i. "/var/lib/sumd/00";
  num_cpu = 4;
}

abbrev host : Host Cluster
host = record {
  is_missing = λ p w. true;
  mkdir_all = λ p w. (w, none);
  start = λ name args w. w;
  run = λ name args w. (w, none);
}

-- nodes that answer, and a file for one node without a certificate
abbrev answering : Network Cluster String
answering = record cluster { info = λ c w. (w, ok blank) }

answering-FileLaws : FileLaws answering
answering-FileLaws = record {
  read-write = cluster-FileLaws.read-write;
  unmarshal-marshal = cluster-FileLaws.unmarshal-marshal;
}

prepare-done_example :
    (load_config answering "master.json" (prepare answering host flags 1 ([], [])).0.world
      ≡ ok (record { nodes = nodes_from flags (nodes_wanted flags) 0 }))
    × ((prepare answering host flags 1 ([], [])).0.spawned
        ≡ args_of flags 0 (nodes_from flags (nodes_wanted flags) 0))
unfolding marshal_one prepare
prepare-done_example = prepare-done answering host flags answering-FileLaws 1 ([], []) refl

-- The world of the machine that starts processes: the arguments of those that run, whose nodes
-- answer where one of them listens. A connection is 1 where one does.
abbrev Running : Type 0
Running = List (List String)

listens : String → List String → Bool
listens addr [] = false
listens addr (flag ∷ []) = false
listens addr (flag ∷ value ∷ rest) = value == addr

is_up : String → Running → Bool
unfolding listens
is_up addr [] = false
is_up addr (args ∷ w) = let rest = is_up addr w in if listens addr args then true else rest

abbrev starting : Host Running
starting = record {
  is_missing = λ p w. true;
  mkdir_all = λ p w. (w, none);
  start = λ name args w. args ∷ w;
  run = λ name args w. (w, none);
}

abbrev polling : Network Running String
polling = record {
  load_credentials = λ f w. ok f;
  dial = λ a c w. (w, ok (if is_up a w then 1 else 0));
  info = λ c w. (w, if c == 1 then ok blank else err "connection refused");
  create_record_with_id = λ c r w. (w, err "offline");
  create_records_with_id = λ c l w. (w, err "offline");
  update_record = λ c r w. (w, err "offline");
  read_record = λ c id w. (w, err "offline");
  list_records = λ c req w. (w, err "offline");
  delete_record = λ c id w. (w, err "offline");
  delete_records = λ c ids w. (w, err "offline");
  find_records = λ c m w. (w, err "offline");
  create_oracle = λ c o w. (w, err "offline");
  read_oracle = λ c id w. (w, err "offline");
  delete_oracle = λ c id w. (w, err "offline");
  cancelled_delete_oracle = λ c id w. (w, err "offline");
  run = λ c call w. (w, err "offline");
  schedule = λ {A} l w. (w, l);
  read_file = λ p w. err "no such file";
  write_file = λ p t w. (w, none);
  unmarshal_config = λ t. err "no configuration";
  marshal_config = λ c. ok "nodes";
}

start_up :
    (addr : String) (rest : List String) (w : Running)
    → is_up addr (("-listen" ∷ addr ∷ rest) ∷ w) ≡ true
unfolding is_up listens
start_up addr rest w = rw (beq_self addr, is_up, listens) refl

stay_up :
    (addr name : String) (args : List String) (w : Running)
    → is_up addr w ≡ true
    → is_up addr (args ∷ w) ≡ true
unfolding is_up
stay_up addr name args w h = ground (arith, h)

up_answers :
    (addr : String) (w : Running) → is_up addr w ≡ true → Answers polling starting flags addr 1 w
unfolding check_client
up_answers addr w h = at_once (rw (h, check_client) refl)

polling-HostLaws : HostLaws polling starting flags 1 (λ addr w. is_up addr w ≡ true)
polling-HostLaws = record {
  mkdir_all = λ p w. refl;
  marshal = λ c. ("nodes", refl);
  write = λ t w. refl;
  starts = start_up;
  start_keeps = stay_up;
  mkdir_keeps = λ addr p w h. h;
  dial_keeps = λ addr a creds w h. h;
  info_keeps = λ addr c w h. h;
  answers = up_answers;
}

prepare-comes_example : (prepare polling starting flags 1 []).1 ≡ done
prepare-comes_example =
    prepare-comes polling starting flags 1 (λ addr w. is_up addr w ≡ true) polling-HostLaws []
