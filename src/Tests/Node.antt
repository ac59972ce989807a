-- ===== src/Tests/Node.antt =====
-- The theorems about the service of a node at concrete inputs, over an interpreter of which every
-- run returns the same value.
use sum.Prelude.{ℕ, ◌≤◌, ◌≡◌, refl, String, true, false, none, some, List, [], ◌∷◌, arith}
use sum.Prelude.Tests.{ok, nat_eq, ◌==◌}
use sum.Prelude.Map.{get, put}
use sum.Prelude.Decimal.{parse_uint}
use sum.Proto.{Record, Oracle, Call, RecordResponse}
use sum.Storage.Env.{Env}
use sum.Storage.Driver.{oracle_driver}
use sum.Storage.Files.{flush}
use sum.Storage.Index
use sum.Storage.Index.{Index, for_each, path_for_id, next}
use sum.Storage.Index.Validity.{IsValid}
use sum.Storage.Records
use sum.Storage.Records.{Records, with_shape}
use sum.Wrapper.Context.{Context, new_context}
use sum.Node.Interpreter.{Interpreter, Ending, returned}
use sum.Node.Compiler.{Compiled, compile, validate, prototype, call_of, join_comma}
use sum.Node.Pool.{
  ExecutionPool, create_execution_pool, create_clones, create_clone, set_free, get_vm,
}
use sum.Node.Pool.Exclusive.{
  Shared, Reach, Step, start, IsExclusive, Reach-IsExclusive, release_ready,
}
use sum.Node.Run.{compiled_run, result, evaluate}
use sum.Node.Run.Outcome.{IsReady, program, ran, first_vm, bind_args, compiled_run_lem}
use sum.Node.Payload.{
  Gzip, GzipLaws, build_payload, read_payload, read-build_payload, gzip_response_size,
}
use sum.Node.Service.{Service, precompile, precompiled, serving}
use sum.Node.Service.Precompiled.{RangeLaws}
use sum.Node.Oracles.{run, respond}
use sum.Node.Oracles.Cached.{IsCached, compile-IsReady}
use sum.Node.Oracles.Cached.Serving
use sum.Node.Oracles.Cached.Runs.{run_stored}
use sum.Node.Oracles.Cached.Startup.{precompiled-IsCached}
use sum.Node.Records.{create_record, read_record}
use sum.Node.Records.Reads.{create_record-read}
use sum.Tests.Memory.{memory}

setup : Unit {0}
unfolding create_execution_pool create_clones create_clone compile validate prototype call_of
    join_comma precompiled serving precompile for_each put get Index.update Index.create flush
    Index.find
setup = tt

abbrev pub env : Env Record
env = memory Record

abbrev pub oenv : Env Oracle
oenv = memory Oracle

abbrev pub js : Interpreter (Records env)
js = record {
  Vm = List String;
  Script = String;
  Value = String;
  Json = String;
  Bytes = String;
  parse_file = λ code. ok (some (record { name = "f"; parameters = some ("a" ∷ "b" ∷ []) }) ∷ []);
  new_vm = [];
  copy_vm = λ vm. vm;
  run_text = λ vm code. ok (code ∷ vm);
  compile_call = λ vm text. text;
  set_value = λ vm name v. name ∷ v ∷ vm;
  set_globals = λ vm r. "records" ∷ vm;
  run_call = λ vm call r ctx. some ((vm, (r, ctx)), returned "42");
  export = λ v. returned v;
  marshal = λ v. returned v;
  unmarshal = λ raw. ok raw;
}

abbrev pub sum_oracle : ℕ → Oracle
sum_oracle id = record { id = id; name = "sum"; code = "function f(a, b) {}" }

abbrev pub oracles : Index oenv
oracles = record {
  data_path = "oracles/";
  index = (1, sum_oracle 1) ∷ [];
  next_id = 2;
  disk = ("oracles/1.dat", sum_oracle 1) ∷ [];
}

abbrev pub records : Records env
records = record {
  base = record { data_path = "data/"; index = []; next_id = 1; disk = [] };
  meta_by = [];
}

abbrev pub compiled : Compiled js
compiled = record {
  pool = create_execution_pool js.copy_vm ("function f(a, b) {}" ∷ []);
  oracle = sum_oracle 1;
  call = "f(a,b)";
  argc = 2;
  args = "a" ∷ "b" ∷ [];
}

abbrev pub node : Service oenv js
node = record { records = records; oracles = oracles; cache = (1, compiled) ∷ [] }

pub oracles-IsValid : IsValid oracle_driver oracles
unfolding get
oracles-IsValid = record { map = (refl, tt); ids = λ id m p. ground arith }

pub same_order-RangeLaws : RangeLaws {V = Oracle} (λ es. es)
same_order-RangeLaws = record { get-range = λ es id h. refl; range-IsMap = λ es h. h }

node_started : precompiled js (λ es. es) records oracles ≡ ok node
unfolding setup
node_started = refl

node-IsCached : IsCached node
node-IsCached =
    precompiled-IsCached (λ es. es) records oracles node same_order-RangeLaws oracles-IsValid
      node_started

precompiled-IsCached_example : IsCached node
precompiled-IsCached_example =
    precompiled-IsCached (λ es. es) records oracles node same_order-RangeLaws oracles-IsValid
      node_started

serve-IsCached_example : IsCached (Serving.serve (Serving.update (sum_oracle 1)) node).0
unfolding setup
serve-IsCached_example =
    Serving.serve-IsCached (Serving.update (sum_oracle 1)) node (λ old p. refl) node-IsCached

-- a compression that gives the bytes back
abbrev plain : Gzip String
plain = record { size = λ b. 5000; gzip = λ b. ok (7, b); gunzip = λ b. ok b }

plain-GzipLaws : GzipLaws plain
plain-GzipLaws = record { gunzip-gzip = λ b out n e. ground arith }

read-build_payload_example :
    (read_payload plain (build_payload plain "long") ≡ ok "long")
    × (plain.size "long" ≤ gzip_response_size → (build_payload plain "long").compressed ≡ false)
read-build_payload_example = read-build_payload plain plain-GzipLaws "long"

abbrev call : Call
call = record { oracle_id = 1; args = "3" ∷ [] }

-- how the oracle of the cache ends on the argument
abbrev ending : (js.Vm × (Records env × Context)) × Ending js.Value
ending = (
  ("b" ∷ "null" ∷ "a" ∷ "3" ∷ "records" ∷ "function f(a, b) {}" ∷ [], (records, new_context)),
  returned "42",
)

run_stored_example :
    (out : Service oenv js) × (c : Compiled js) × (run plain call node
      ≡ some (out, respond plain 1 (result js ending.0.1.1 ending.1)))
    × IsCached out
    × (out.records ≡ records)
    × (compile js (sum_oracle 1) ≡ ok c)
    × (program js compiled ≡ program js c)
unfolding setup ran first_vm bind_args evaluate
run_stored_example =
    run_stored plain call node (sum_oracle 1) compiled ending node-IsCached refl refl refl

compiled-IsReady : IsReady js compiled
unfolding setup
compiled-IsReady = compile-IsReady js (sum_oracle 1) compiled refl

compiled_run_example :
    (c' : Compiled js) × (compiled_run js records ("3" ∷ []) compiled
      ≡ some (c', records, result js ending.0.1.1 ending.1))
    × IsReady js c'
    × (program js c' ≡ program js compiled)
unfolding setup ran first_vm bind_args evaluate
compiled_run_example = compiled_run_lem js records ("3" ∷ []) compiled ending compiled-IsReady refl

abbrev busy : Shared String
busy = record {
  pool = record (create_execution_pool (λ vm. vm) "vm") {
    free_way = 1 ∷ 2 ∷ 3 ∷ 4 ∷ 5 ∷ 6 ∷ 7 ∷ [];
  };
  held = 0 ∷ [];
}

busy-Reach : Reach (start (λ vm. vm) "vm") busy
unfolding setup get_vm
busy-Reach = Reach.next Reach.here (Step.acquire (start (λ vm. vm) "vm") 0 busy.pool refl)

Reach-IsExclusive_example : IsExclusive busy
Reach-IsExclusive_example = Reach-IsExclusive (λ vm. vm) "vm" busy busy-Reach

release_ready_example : (p : ExecutionPool String) × (set_free 0 busy.pool ≡ some p)
release_ready_example = release_ready (λ vm. vm) "vm" busy [] [] 0 busy-Reach refl

abbrev point : Record
point = record { id = 0; elems = some (7 ∷ []); shape = none; meta = none }

create_record-read_example :
    (s' : Service oenv js) × (resp : RecordResponse) × (id : ℕ) × (create_record point node
      ≡ some (s', resp))
    × (resp.success ≡ true)
    × (parse_uint resp.msg ≡ some id)
    × (Records.find id node.records ≡ none)
    × (read_record id s' ≡ record {
      success = true;
      msg = "";
      stored = some (record (with_shape point) { id = id });
    })
    × ((j : ℕ) → (id == j) ≡ false → read_record j s' ≡ read_record j node)
unfolding setup
create_record-read_example = create_record-read point node (omega arith) refl
