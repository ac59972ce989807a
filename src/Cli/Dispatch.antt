-- ===== src/Cli/Dispatch.antt =====
-- The table of handlers and Dispatch of cmd/sumcli/handlers/handlers.go.
pub mod Arity
use sum.Prelude.{ℕ, suc, String, Bool, true, false, Option, none, some, List, [], ◌∷◌}
use sum.Prelude.Tests.{nat_eq, ◌==◌, ◌◇◌, if◌then◌else◌}
use sum.Prelude.Lists.{length, drop}
use sum.Cli.Console.{Act, Client, Tools, ◌>>=◌, fail, exit, arg}
use sum.Cli.Commands
use sum.Cli.Commands.{Command}
use sum.Cli.Records.{
  create_record, read_record, update_record, delete_record, list_records, find_record,
}
use sum.Cli.Oracles.{
  create_oracle, read_oracle, update_oracle, delete_oracle, find_oracle, list_oracles, call_oracle,
}
use sum.Cli.Nodes.{create_node, list_nodes, delete_node}
use sum.Cli.Info.{help, info}

-- The two kinds of callbacks, of which a handler has one; both get the command and its arguments.
pub data Callback (W : Type 0) : Type 0 where
  for_service : (String → List String → Act W (Unit {0})) → Callback W
  for_master : (String → List String → Act W (Unit {0})) → Callback W

pub record Handler (W : Type 0) : Type 0 where
  pub command : Command
  pub callback : Callback W

unfoldable pub is_master : {W : Type 0} → Handler W → Bool
is_master h = elim h.callback [ for_service _ ↦ false | for_master _ ↦ true ]

-- How a handler takes a command: not at all, by its name, or by its expression with all its groups.
pub data Match : Type 0 where
  unmatched : Match
  by_name : Match
  by_parser : List String → Match

module _ {W B : Type 0} (tools : Tools B) (client : Client W B) where
  -- Handlers, as init leaves it
  unfoldable pub handlers : List (Handler W)
  unfolding help info exit create_record read_record update_record delete_record list_records
      find_record create_oracle read_oracle update_oracle delete_oracle find_oracle list_oracles
      call_oracle create_node list_nodes delete_node
  handlers =
      record { command = Commands.help_command; callback = for_service (λ cmd args. help tools) }
      ∷ record { command = Commands.quit_command; callback = for_service (λ cmd args. exit 0) }
      ∷ record {
        command = Commands.info_command;
        callback = for_service (λ cmd args. info tools client);
      }
      ∷ record {
        command = Commands.create_record_command;
        callback = for_service (λ cmd args. create_record tools client);
      }
      ∷ record {
        command = Commands.read_record_command;
        callback = for_service (λ cmd args. read_record tools client args);
      }
      ∷ record {
        command = Commands.update_record_command;
        callback = for_service (λ cmd args. update_record tools client args);
      }
      ∷ record {
        command = Commands.delete_record_command;
        callback = for_service (λ cmd args. delete_record tools client args);
      }
      ∷ record {
        command = Commands.list_records_command;
        callback = for_service (λ cmd args. list_records tools client args);
      }
      ∷ record {
        command = Commands.find_record_command;
        callback = for_service (λ cmd args. find_record tools client args);
      }
      ∷ record {
        command = Commands.create_oracle_command;
        callback = for_service (λ cmd args. create_oracle tools client args);
      }
      ∷ record {
        command = Commands.read_oracle_command;
        callback = for_service (λ cmd args. read_oracle tools client args);
      }
      ∷ record {
        command = Commands.update_oracle_command;
        callback = for_service (λ cmd args. update_oracle tools client args);
      }
      ∷ record {
        command = Commands.delete_oracle_command;
        callback = for_service (λ cmd args. delete_oracle tools client args);
      }
      ∷ record {
        command = Commands.find_oracle_command;
        callback = for_service (λ cmd args. find_oracle tools client args);
      }
      ∷ record {
        command = Commands.list_oracles_command;
        callback = for_service (λ cmd args. list_oracles tools client args);
      }
      ∷ record {
        command = Commands.call_oracle_command;
        callback = for_service (λ cmd args. call_oracle tools client cmd args);
      }
      ∷ record {
        command = Commands.create_node_command;
        callback = for_master (λ cmd args. create_node tools client args);
      }
      ∷ record {
        command = Commands.list_nodes_command;
        callback = for_master (λ cmd args. list_nodes tools client);
      }
      ∷ record {
        command = Commands.delete_node_command;
        callback = for_master (λ cmd args. delete_node tools client args);
      }
      ∷ []

unfoldable pub match_command : {B : Type 0} → Tools B → Command → String → Match
match_command tools h cmd = elim h.parser [
  | none ↦ if tools.equal_fold h.name cmd then by_name else unmatched
  | some p ↦ elim (tools.find_submatch p cmd) [
    | none ↦ unmatched
    | some result ↦
        if length result == suc (tools.num_subexp p) then by_parser result else unmatched
  ]
]

module _ {W : Type 0} where
  unfoldable pub run_callback : Callback W → String → List String → Act W (Unit {0})
  run_callback (for_service f) cmd args = f cmd args
  run_callback (for_master f) cmd args = f cmd args

  -- a turn of the loop of Dispatch, given the turns after it; the first group is the command
  unfoldable pub run_match : Handler W → String → Act W (Unit {0}) → Match → Act W (Unit {0})
  unfolding run_callback ◌>>=◌ arg
  run_match h cmd later unmatched = later
  run_match h cmd later by_name = run_callback h.callback cmd []
  run_match h cmd later (by_parser result) =
      arg result 1 >>= (λ first. run_callback h.callback first (drop 2 result))

  unfoldable pub dispatch_from :
      {B : Type 0} → Tools B → List (Handler W) → String → Act W (Unit {0})
  unfolding match_command run_match fail
  dispatch_from tools [] cmd = fail ("command not found: " ◇ cmd)
  dispatch_from tools (h ∷ rest) cmd =
      run_match h cmd (dispatch_from tools rest cmd) (match_command tools h.command cmd)

unfoldable pub dispatch : {W B : Type 0} → Tools B → Client W B → String → Act W (Unit {0})
unfolding dispatch_from handlers
dispatch tools client cmd = dispatch_from tools (handlers tools client) cmd
