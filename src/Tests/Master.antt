-- ===== src/Tests/Master.antt =====
-- The theorems about the master at concrete inputs, over nodes in memory.
use text.Mathlib.TextEquality.{eq_iff}
use mathlib.Core.List.{Memᴰ}
use sum.Prelude.{
  subst, sym, ℕ, ◌≡◌, refl, ap, String, true, false, ◌⊎◌, inl, inr, Option, none, some, List, [],
  ◌∷◌, ◌++◌, map, arith,
}
use sum.Prelude.Tests.{
  Result, ok, err, ◌==◌, nat_eq, string_eq, if◌then◌else◌, beq_self, Bool-cases,
}
use sum.Prelude.Lists.{take}
use sum.Prelude.Map.{get, put, get-put}
use sum.Prelude.Decimal.{format_uint}
use sum.Proto.{ServerInfo, Record, Oracle, RecordResponse}
use sum.Node.Interpreter.{returned}
use sum.Master.Network.{Network, NodeConfig}
use sum.Master.Replies.{settled, err_record_response, record_response}
use sum.Master.Raccoon.{
  Parser, serialised, CallExpression, found, AstRaccoon, call, new_ast_raccoon, get_source,
}
use sum.Master.Raccoon.Patch.{patch_code, takes}
use sum.Prelude.Text.{size}
use sum.Master.Raccoon.Patch.Pieces.{patch_code_lem}
use sum.Master.Raccoon.Patch.Layout.{sites_of, layout, old_text, new_text}
use sum.Master.State.{NodeInfo, Service, total_records}
use sum.Master.Oracles
use sum.Master.Oracles.{create_oracle, serve}
use sum.Master.Oracles.Cage.{IsCaged, view, changed, target, serve-IsCaged, serve-refines}
use sum.Master.Records.{read_record, not_found_error}
use sum.Master.Records.Reads.{IsFair, Answers, read_record_found}
use sum.Master.Records.{record_success}
use sum.Master.Batch.{create_records_with_id}
use sum.Master.Batch.Total.{Accepts, create_records_with_id-total}
use sum.Master.Runner.{Runtime, deploy}
use sum.Master.Runner.Cleanup.{StoreLaws, deploy_leaves}
use sum.Prelude.Decimal.{parse_uint}
use sum.Prelude.{◌+◌, ◌%◌}
use sum.Proto.{ServerInfo, uint64_mod}
use sum.Node.Payload.{build_payload}
use sum.Master.Listing.{list_records}
use sum.Master.Listing.Partial.{list_records_partial}
use sum.Master.Configuration.{configured}
use sum.Master.Configuration.Stored.{FileLaws}
use sum.Master.Balancer.{balance_nodes}
use sum.Master.Balancer.Total.{balance_nodes-total}
use sum.Master.Merger.{array, object, default_merger}
use sum.Master.Merger.Merged.{default_merger_maps, first_of}

setup : Unit {0}
unfolding takes serialised size get put settled create_oracle new_ast_raccoon get_source sites_of
    layout old_text new_text configured
setup = tt

-- the records of each node by its connection, and the files
abbrev pub Cluster : Type 0
Cluster = List (ℕ × List Record) × List (String × String)

unfoldable pub stored : ℕ → Cluster → List Record
unfolding setup
stored c w = elim (get c w.0) [ none ↦ [] | some l ↦ l ]

with_id : ℕ → List Record → Option Record
with_id id [] = none
with_id id (r ∷ records) = let later = with_id id records in if r.id == id then some r else later

abbrev accepted : RecordResponse
accepted = record { success = true; msg = ""; stored = none }

unfoldable pub read_from : ℕ → List Record → Result String RecordResponse
unfolding with_id
read_from id records = elim (with_id id records) [
  | none ↦ ok (err_record_response (not_found_error id))
  | some r ↦ ok (record { success = true; msg = ""; stored = some r })
]

-- a configuration of one node without a certificate
unfoldable pub marshal_one : List NodeConfig → Result String String
marshal_one (n ∷ []) = if n.cert_file == "" then ok n.address else err "a certificate"
marshal_one _ = err "not one node"

abbrev pub cluster : Network Cluster String
cluster = record {
  load_credentials = λ f w. ok f;
  dial = λ a c w. (w, ok 0);
  info = λ c w. (w, err "offline");
  create_record_with_id = λ c r w. ((put c (r ∷ stored c w) w.0, w.1), ok accepted);
  create_records_with_id = λ c l w. ((put c (l ++ stored c w) w.0, w.1), ok accepted);
  update_record = λ c r w. (w, err "offline");
  read_record = λ c id w. (w, read_from id (stored c w));
  list_records =
      λ c req w. (w, ok (record { total = 0; pages = 1; items = take req.per_page (stored c w) }));
  delete_record = λ c id w. (w, err "offline");
  delete_records = λ c ids w. (w, err "offline");
  find_records = λ c m w. (w, err "offline");
  create_oracle = λ c o w. (w, err "offline");
  read_oracle = λ c id w. (w, err "offline");
  delete_oracle = λ c id w. (w, err "offline");
  cancelled_delete_oracle = λ c id w. (w, err "offline");
  run = λ c call w. (w, err "offline");
  schedule = λ {A} l w. (w, l);
  read_file = λ p w. elim (get p w.1) [ none ↦ err "no such file" | some t ↦ ok t ];
  write_file = λ p t w. ((w.0, put p t w.1), none);
  unmarshal_config = λ t. ok (record { nodes = record { address = t; cert_file = "" } ∷ [] });
  marshal_config = λ c. marshal_one c.nodes;
}

-- a parser of the one oracle below
abbrev source : String
source = "function f(id){return records.Find(id);}"

abbrev find_call : CallExpression
find_call = record {
  idx0 = 22;
  idx1 = 38;
  callee_idx0 = 22;
  callee_idx1 = 34;
  arguments = some "id" ∷ [];
}

abbrev js : Parser
js = record {
  Body = CallExpression;
  parse_file = λ code.
      if code == ""
      then ok []
      else ok (some (record { name = "f"; parameters = "id" ∷ []; body = find_call }) ∷ []);
  walk = λ {S} visit body s. (visit (call body) s).0;
  has_merge_prefix = λ name. false;
  join_fields = λ s. s;
  json_record = λ r. ok "{}";
}

abbrev raccoon : ℕ → AstRaccoon js
raccoon id = record {
  id = id;
  name = "sum";
  src = source;
  call_nodes = find_call ∷ [];
  parameters = "id" ∷ [];
  parameters_to_lookup = 0 ∷ [];
  merger_function = none;
}

analysis : new_ast_raccoon js source ≡ ok (record (raccoon 0) { name = "" })
unfolding setup
analysis = refl

abbrev rec : ℕ → Record
rec id = record { id = id; elems = none; shape = none; meta = none }

patch_code_example :
    patch_code (some (found (rec 3)) ∷ []) (raccoon 1)
    ≡ returned "function f(id){return records.New({});}"
unfolding setup
patch_code_example =
    patch_code_lem (raccoon 1) (some (found (rec 3)) ∷ []) ((22, 38, "records.New({})") ∷ [])
      (record { gap = "function f(id){return "; old = "records.Find(id)"; new = "records.New({})" }
        ∷ [])
      ";}" refl refl refl

abbrev pub blank : ServerInfo
blank = record {
  version = "1.3.0";
  os = "linux";
  arch = "amd64";
  go_version = "go1.11";
  cpus = 4;
  max_cpus = 4;
  goroutines = 9;
  alloc = 1;
  sys = 2;
  num_gc = 0;
  datapath = "/var/lib/sumd";
  credspath = "/etc/sumd/creds";
  address = "localhost:50051";
  uptime = 1;
  pid = 2;
  uid = 0;
  argv = "sumd" ∷ [];
  records = 0;
  oracles = 0;
  backend = "blas32";
  backend_space = 2;
  backend_used = 1;
  next_record_id = 1;
}

abbrev node : ℕ → ℕ → NodeInfo
node id records = record {
  id = id;
  name = "host";
  cert_file = "";
  connection = id;
  status = record blank { records = records; next_record_id = 9 };
}

abbrev master : Service js
master = record {
  nodes = node 1 2 ∷ node 2 1 ∷ [];
  next_node_id = 3;
  next_id = 9;
  raccoons = (1, raccoon 1) ∷ [];
  next_raccoon_id = 2;
  config_file = "nodes.json";
}

abbrev world : Cluster
world = ((1, rec 1 ∷ rec 2 ∷ []) ∷ (2, rec 3 ∷ []) ∷ [], [])

master-IsCaged : IsCaged master
unfolding get
master-IsCaged = record {
  is_map = (refl, tt);
  own_id = λ id a p. ground arith;
  below = λ id a p. ground arith;
}

abbrev named : String → Oracle
named name = record { id = 1; name = name; code = source }

serve-IsCaged_example : IsCaged (serve (Oracles.create (named "mean")) master).0
serve-IsCaged_example =
    serve-IsCaged (Oracles.create (named "mean")) master master-IsCaged (omega arith)

serve-refines_example :
    ((serve (Oracles.update (named "mean")) master).1.success ≡ false)
      × ((serve (Oracles.update (named "mean")) master).0 ≡ master)
    ⊎ ((serve (Oracles.update (named "mean")) master).1.success ≡ true)
      × ((id : ℕ)
          → view (serve (Oracles.update (named "mean")) master).0 id ≡ (
              if target (Oracles.update (named "mean")) master == id
              then changed
                  (Oracles.update (named "mean"))
                  (target (Oracles.update (named "mean")) master)
              else view master id))
serve-refines_example =
    serve-refines (Oracles.update (named "mean")) master master-IsCaged (omega arith)

cluster-IsFair : IsFair cluster
cluster-IsFair = record { runs = λ n l w p. p; only = λ n l w p. p }

-- the answers of the nodes in the world above
abbrev answer : ℕ → NodeInfo → Result String RecordResponse
answer id n = settled (cluster.read_record n.connection id world).1

cluster-Answers : (id : ℕ) → Answers cluster id (answer id) (λ w. w ≡ world)
cluster-Answers id = record {
  reads = λ n w e. ap (λ v. settled (cluster.read_record n.connection id v).1) e;
  keeps = λ n w e. e;
  schedules = λ l w e. e;
}

only_three :
    (m : NodeInfo) (x : RecordResponse)
    → Memᴰ m master.nodes
    → answer 3 m ≡ ok x
    → x.stored ≡ some (rec 3)
unfolding setup stored with_id read_from
only_three m x (Memᴰ.head q) e =
    let e' : answer 3 (node 1 2) ≡ ok x = subst (λ n. answer 3 n ≡ ok x) q e in ground (arith, e')
only_three m x (Memᴰ.tail (Memᴰ.head q)) e =
    let e' : answer 3 (node 2 1) ≡ ok x = subst (λ n. answer 3 n ≡ ok x) q e in ground (arith, e')
only_three m x (Memᴰ.tail (Memᴰ.tail p)) e = elim p [ ]

nowhere_seven : (m : NodeInfo) → Memᴰ m master.nodes → answer 7 m ≡ err (not_found_error 7)
unfolding setup stored with_id read_from
nowhere_seven m (Memᴰ.head q) = subst (λ n. answer 7 n ≡ err (not_found_error 7)) (sym q) refl
nowhere_seven m (Memᴰ.tail (Memᴰ.head q)) =
    subst (λ n. answer 7 n ≡ err (not_found_error 7)) (sym q) refl
nowhere_seven m (Memᴰ.tail (Memᴰ.tail p)) = elim p [ ]

read_record_found_example :
    (read_record cluster 3 (master, world)).1
    ≡ record { success = true; msg = ""; stored = some (rec 3) }
unfolding setup stored with_id read_from
read_record_found_example =
    read_record_found cluster (λ w. w ≡ world) 3 (some (rec 3)) (answer 3) master world (node 2 1)
      (record { success = true; msg = ""; stored = some (rec 3) }) cluster-IsFair
      (cluster-Answers 3) refl only_three (Memᴰ.tail (Memᴰ.head refl)) refl

-- the second page of two records, of three
list_records_partial_example :
    list_records cluster (record { page = 2; per_page = 2 }) master world
    ≡ (world, record { total = total_records master.nodes; pages = 2; items = [] })
unfolding total_records
list_records_partial_example =
    list_records_partial cluster (record { page = 2; per_page = 2 }) master world (omega arith)
      (omega arith)

abbrev alone : Service js
alone = record master { nodes = node 1 2 ∷ [] }

marshalled :
    (l : List NodeConfig) (t : String)
    → marshal_one l ≡ ok t
    → ◌≡◌ {A = List NodeConfig} (record { address = t; cert_file = "" } ∷ []) l
unfolding marshal_one
marshalled [] t e = cc
marshalled (n ∷ []) t e = ground (arith, eq_iff n.cert_file "")
marshalled (n ∷ m ∷ l) t e = cc

read_back :
    (p t : String) (w : Cluster)
    → (cluster.write_file p t w).1 ≡ none
    → cluster.read_file p (cluster.write_file p t w).0 ≡ ok t
read_back p t w e = ground (arith, get-put p p t w.1, beq_self p)

pub cluster-FileLaws : FileLaws cluster
cluster-FileLaws = record {
  read-write = read_back;
  unmarshal-marshal =
      λ c t e. ap (λ (l : List NodeConfig). ok (record { nodes = l })) (marshalled c.nodes t e);
}

balance_nodes-total_example :
    total_records (balance_nodes cluster (node 1 9 ∷ node 2 1 ∷ []) world).1
    ≡ total_records (node 1 9 ∷ node 2 1 ∷ [])
balance_nodes-total_example = balance_nodes-total cluster (node 1 9 ∷ node 2 1 ∷ []) world

abbrev maps : List (List (String × ℕ))
maps = (("a", 1) ∷ []) ∷ (("b", 2) ∷ []) ∷ []

a_or_b :
    (k : String)
    → ◌⊎◌ {0, 0} (get {V = ℕ} k (("a", 1) ∷ []) ≡ none) (get {V = ℕ} k (("b", 2) ∷ []) ≡ none)
unfolding get
a_or_b k = elim (Bool-cases ("a" == k)) [
  | inl q ↦ inr (ground (arith, q, eq_iff "a" k, eq_iff "b" k, eq_iff "a" "b"))
  | inr q ↦ inl (ground (arith, q))
]

default_merger_maps_example :
    (out : List (String × ℕ)) × (default_merger format_uint (map object maps)
      ≡ returned (object out))
    × ((k : String) → get k out ≡ first_of k maps)
unfolding get
default_merger_maps_example =
    default_merger_maps format_uint (("a", 1) ∷ []) ((("b", 2) ∷ []) ∷ [])
      ((refl, tt), ((refl, tt), tt)) ((a_or_b, tt), (tt, tt))

cluster-Accepts : Accepts cluster
unfolding settled
cluster-Accepts connection l w = (accepted, refl)

create_records_with_id-total_example :
    ((create_records_with_id cluster (rec 5 ∷ rec 6 ∷ rec 7 ∷ []) (master, world)).1
      ≡ record_success)
    × (total_records
          (create_records_with_id cluster (rec 5 ∷ rec 6 ∷ rec 7 ∷ []) (master, world)).0.0.nodes
        ≡ (total_records master.nodes + 3) % uint64_mod)
create_records_with_id-total_example =
    create_records_with_id-total cluster (rec 5 ∷ rec 6 ∷ rec 7 ∷ []) master world (node 1 2)
      (node 2 1 ∷ []) cluster-Accepts refl

-- nodes that keep oracles, as pairs of a connection and an oracle
abbrev Live : Type 0
Live = List (ℕ × Oracle)

unfoldable IsLive : ℕ → Oracle → Live → Type 0
IsLive c o w = Memᴰ (c, o) w

drop_oracles : ℕ → Live → Live
drop_oracles c [] = []
drop_oracles c ((c', o) ∷ w) =
    let rest = drop_oracles c w in if c' == c then rest else (c', o) ∷ rest

abbrev lab : Network Live String
lab = record {
  load_credentials = λ f w. ok f;
  dial = λ a c w. (w, ok 0);
  info = λ c w. (w, err "offline");
  create_record_with_id = λ c r w. (w, err "offline");
  create_records_with_id = λ c l w. (w, err "offline");
  update_record = λ c r w. (w, err "offline");
  read_record = λ c id w. (w, err "offline");
  list_records = λ c req w. (w, err "offline");
  delete_record = λ c id w. (w, err "offline");
  delete_records = λ c ids w. (w, err "offline");
  find_records = λ c m w. (w, err "offline");
  create_oracle = λ c o w. ((c, o) ∷ w, ok (record { success = true; msg = "7"; oracle = none }));
  read_oracle = λ c id w. (w, err "offline");
  delete_oracle =
      λ c id w. (drop_oracles c w, ok (record { success = true; msg = ""; oracle = none }));
  run = λ c call w. (
    w,
    ok (record {
      success = true;
      msg = "";
      body = some (record { compressed = false; payload = "[1]" });
    }),
  );
  cancelled_delete_oracle = λ c id w. (w, err "context canceled");
  schedule = λ {A} l w. (w, l);
  read_file = λ p w. err "no such file";
  write_file = λ p t w. (w, none);
  unmarshal_config = λ t. err "no configuration";
  marshal_config = λ c. err "no configuration";
}

abbrev runtime : Runtime Live String ℕ
runtime = record {
  gzip = record { size = λ b. 1; gzip = λ b. ok (7, b); gunzip = λ b. ok b };
  unmarshal = λ b. ok (array (1 ∷ []));
  marshal = λ v. ok "[1,1]";
  uint_error = λ s. "invalid syntax";
  vm = record {
    Ret = String;
    print = format_uint;
    set_results = λ p v w. (w, none);
    set_context = λ w. (w, none);
    run = λ code w. ((w, record { message = ""; is_error = false }), err "no interpreter");
    export = λ r. err "no value";
  };
}

lab-StoreLaws : StoreLaws lab runtime.vm IsLive
unfolding IsLive settled
lab-StoreLaws = record {
  creates = λ c o w resp e. Memᴰ.head refl;
  speaks = λ c o w e f. ground (arith, f);
  create_keeps = λ c c' o o' w h. Memᴰ.tail h;
  run_keeps = λ c c' o call w h. h;
  not_sent = λ c id w. refl;
  results_keep = λ c o p l w h. h;
  context_keeps = λ c o w h. h;
  merger_keeps = λ c o code w h. h;
}

lab-IsFair : IsFair lab
lab-IsFair = record { runs = λ n l w p. p; only = λ n l w p. p }

deploy_runs :
    (deploy lab runtime (raccoon 1) "code" [] (master, [])).1
    ≡ returned (record {
      success = true;
      msg = "";
      body = some (record { compressed = false; payload = "[1,1]" });
    })
unfolding deploy parse_uint build_payload
deploy_runs = refl

deploy_leaves_example :
    IsLive 1
      (record { id = 0; name = (raccoon 1).name; code = "code" })
      (deploy lab runtime (raccoon 1) "code" [] (master, [])).0.1
deploy_leaves_example =
    deploy_leaves lab runtime IsLive lab-StoreLaws (raccoon 1) "code" [] master [] (node 1 2)
      (record {
        success = true;
        msg = "";
        body = some (record { compressed = false; payload = "[1,1]" });
      })
      lab-IsFair (Memᴰ.head refl) deploy_runs refl
