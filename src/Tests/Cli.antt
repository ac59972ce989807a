-- ===== src/Tests/Cli.antt =====
-- The theorems about the command line client, before a node in memory.
use sum.Prelude.{
  ℕ, Option, suc, ◌%◌, ◌<◌, ◌≡◌, refl, ap, String, none, some, List, [], ◌∷◌, ◌++◌, arith,
}
use sum.Prelude.Tests.{Result, ok, err, string_eq, nat_eq, ◌==◌, ◌◇◌, if◌then◌else◌}
use sum.Prelude.Lists.{length, All}
use sum.Prelude.Map.{get}
use sum.Proto.{Record, RecordResponse, uint64_mod}
use sum.Storage.Files.{flush}
use sum.Storage.Index
use sum.Storage.Index.{next}
use sum.Node.Service.{Service}
use sum.Node.Oracles
use sum.Storage.Records.{with_shape}
use sum.Node.Records
use sum.Node.Info.{Runtime, Place, node_info}
use sum.Node.Info.Counts.{node_info-create_record}
use sum.Backend.{naive}
use sum.Cli.Console.{Console, ended, returned, line, interrupt, eof, Client, Tools}
use sum.Cli.Console.Soundness.{IsSound}
use sum.Cli.Info.{Value, info_fields}
use sum.Cli.Dispatch.{dispatch}
use sum.Cli.Dispatch.Arity.Expressions.{groups, ToolsLaws, dispatch-IsSound}
use sum.Cli.Session.{session}
use sum.Cli.Session.Total.{HasEnded, session-HasEnded}
use sum.Cli.Records.{create_record, read_record, show_record}
use sum.Cli.Records.Roundtrip
use sum.Cli.Text.{parse_values}
use sum.Cli.Records.Metas.{lines_of, stops}
use sum.Cli.Oracles.Naming.{IsUnique, NamesDiffer}
use sum.Cli.Oracles.Commands.{Delivers, ocreate, perform, perform-IsUnique}
use sum.Tests.Node.{oenv, js, node, oracles, oracles-IsValid, same_order-RangeLaws}
use sum.Tests.Distances.{whole}

-- libraries that know one command, one line of meta data and one file
abbrev tools : Tools String
tools = record {
  comma = λ s. s ∷ [];
  split_by = λ s sep. if s == "k:v" then "k" ∷ "v" ∷ [] else s ∷ [];
  parse_float32 = λ s. ok 7;
  parse_uint_error = λ s. s;
  format_float = λ f. "7";
  is_equal32 = λ a b. a == b;
  sort_strings = λ l. l;
  table = λ head rows. "";
  bytes = λ n. "";
  duration = λ n. "";
  equal_fold = λ a b. a == b;
  read_file = λ p. ok "function g() {}";
  new_reader = λ b. some b;
  read_all = λ b. ok b;
  text = λ b. b;
  find_submatch =
      λ p s. if p == "^(?i)(READ|R)\\s+(\\d+)$" then some (s ∷ "READ" ∷ "1" ∷ []) else none;
  num_subexp = groups;
}

comma-tag : (fields : List (String × Value)) → All (λ f. 0 < length (tools.comma f.0)) fields
comma-tag [] = tt
comma-tag (f ∷ fields) = (omega arith, comma-tag fields)

tools-ToolsLaws : ToolsLaws tools
tools-ToolsLaws = record {
  num_subexp-groups = λ p listed. refl;
  comma-tag = λ i. comma-tag (info_fields i);
}

abbrev client : Client (Service oenv js) String
client = record {
  info = λ s. (s, err "offline");
  create_record = λ r s. (s, err "offline");
  read_record = λ id s. (s, err "offline");
  update_record = λ r s. (s, err "offline");
  delete_record = λ id s. (s, err "offline");
  list_records = λ req s. (s, err "offline");
  find_records = λ q s. (s, err "offline");
  create_oracle = λ o s. ((Oracles.create_oracle o s).0, ok (Oracles.create_oracle o s).1);
  read_oracle = λ id s. (s, ok (Oracles.read_oracle id s));
  update_oracle = λ o s. ((Oracles.update_oracle o s).0, ok (Oracles.update_oracle o s).1);
  delete_oracle = λ id s. ((Oracles.delete_oracle id s).0, ok (Oracles.delete_oracle id s).1);
  find_oracle = λ name s. (s, ok (Oracles.find_oracle (λ es. es) name s));
  list_oracles = λ req s. (s, err "offline");
  run = λ call s. (s, err "offline");
  add_node = λ a s. (s, err "offline");
  list_nodes = λ s. (s, err "offline");
  delete_node = λ id s. (s, err "offline");
}

client-Delivers : Delivers client
client-Delivers = record {
  order = λ name s es. es;
  order-RangeLaws = λ name s. same_order-RangeLaws;
  find = λ name s. refl;
  read = λ id s. refl;
  create = λ o s. refl;
  update = λ o s. refl;
  delete = λ id s. refl;
}

abbrev console : Console (Service oenv js)
console = record {
  world = node;
  input = line "READ 1" ∷ interrupt "" ∷ [];
  output = [];
  closing = ended;
}

oracles-NamesDiffer : NamesDiffer oracles.index
unfolding get
oracles-NamesDiffer i j a b p q e = ground (arith, nat_eq.means_eq 1 i, nat_eq.means_eq 1 j)

perform-IsUnique_example :
    IsUnique (perform tools client (ocreate ("mean" ∷ "mean.js" ∷ [])) console).0.world.oracles
perform-IsUnique_example =
    perform-IsUnique tools client client-Delivers (ocreate ("mean" ∷ "mean.js" ∷ [])) console
      (record { valid = oracles-IsValid; differ = oracles-NamesDiffer })

dispatch-IsSound_example : IsSound (dispatch tools client "READ 1")
dispatch-IsSound_example = dispatch-IsSound tools client tools-ToolsLaws "READ 1"

session-HasEnded_example : HasEnded (session tools client "INFO" console)
session-HasEnded_example = session-HasEnded tools client tools-ToolsLaws "INFO" console refl

answered :
    Service oenv js
    → Option (Service oenv js × RecordResponse)
    → Service oenv js × Result String RecordResponse
answered s none = (s, err "offline")
answered s (some (s', resp)) = (s', ok resp)

-- with the records of the node as well
abbrev storing : Client (Service oenv js) String
storing = record client {
  create_record = λ r s. answered s (Records.create_record r s);
  read_record = λ id s. (s, ok (Records.read_record id s));
}

storing-Delivers : Roundtrip.Delivers storing
unfolding answered
storing-Delivers = record { create = λ r s s' resp e. ap (answered s) e; read = λ id s. refl }

create-read_example :
    (c : Console (Service oenv js)) × (id : ℕ) × (text : String) × (create_record tools storing
        (record {
          world = node;
          input = line "7" ∷ lines_of (("k:v", ("k", "v")) ∷ []) ++ eof ∷ line "HELP" ∷ [];
          output = [];
          closing = ended;
        })
      ≡ (c, returned tt))
    × (c.output ≡ ("record created with id " ◇ text ◇ "\n") ∷ [])
    × (c.input ≡ line "HELP" ∷ [])
    × (read_record tools storing (text ∷ []) c
        ≡ show_record tools 0
            (record (with_shape (Roundtrip.sent (7 ∷ []) (("k:v", ("k", "v")) ∷ []))) { id = id })
            c)
unfolding stops Index.create get flush parse_values
create-read_example =
    Roundtrip.create-read tools storing storing-Delivers "7" "7" [] (7 ∷ [])
      (("k:v", ("k", "v")) ∷ []) eof (line "HELP" ∷ []) node [] ended refl refl refl
      ((refl, refl), tt) refl (omega arith) refl

abbrev vector : Record
vector = record { id = 0; elems = some (3 ∷ []); shape = none; meta = none }

abbrev machine : Runtime
machine = record {
  version = "1.3.0";
  os = "linux";
  arch = "amd64";
  go_version = "go1.11";
  cpus = 4;
  max_cpus = 4;
  goroutines = 9;
  alloc = 1;
  num_gc = 0;
  uptime = 1;
  pid = 2;
  uid = 0;
  argv = "sumd" ∷ [];
  memory = record { total = 8; sys = 2 };
}

abbrev place : Place
place = record {
  datapath = "/var/lib/sumd";
  credspath = "/etc/sumd/creds";
  address = "localhost:50051";
}

node_info_example :
    (s' : Service oenv js) × (resp : RecordResponse) × (Records.create_record vector node
      ≡ some (s', resp))
    × ((node_info machine (naive whole) place s').records
        ≡ suc (node_info machine (naive whole) place node).records % uint64_mod)
    × ((node_info machine (naive whole) place s').next_record_id
        ≡ next (node_info machine (naive whole) place node).next_record_id)
unfolding Index.create get flush
node_info_example = node_info-create_record machine (naive whole) place vector node refl
