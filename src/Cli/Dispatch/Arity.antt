-- ===== src/Cli/Dispatch/Arity.antt =====
-- The callbacks of cmd/sumcli/handlers against the number of arguments that their expressions give.
pub mod Expressions
use sum.Prelude.{
  arith, ℕ, zero, suc, ◌+◌, ◌<◌, String, Bool, true, false, Option, none, some, List, [], ◌∷◌,
}
use sum.Prelude.Tests.{ok, err, string_eq, nat_eq, ◌==◌, if◌then◌else◌}
use sum.Prelude.Lists.{length}
use sum.Proto.{Record, Oracle, OracleResponse, NodeEntry, Data, ServerInfo}
use sum.Cli.Console.{
  Act, Event, line, interrupt, eof, failure, Client, Tools, try, fail, print, ◌>>=◌,
}
use sum.Cli.Console.Soundness.{
  IsSound, sound_parts, then-IsSound, bind-IsSound, fail-IsSound, try-IsSound, deref-IsSound,
  pure-IsSound,
}
use sum.Cli.Text.{parse_values, parse_meta}
use sum.Cli.Records.{
  read_answer, read_with_prompt, parse_data, read_data, metas_loop, read_metas, show_record,
  values_data, show_found, show_records, create_with, create_record, read_record, update_with,
  update_record, delete_record, list_records, find_record,
}
use sum.Cli.Oracles.{
  taken, check_free, check_other, payload_text, create_oracle, read_oracle, update_oracle,
  delete_oracle, find_oracle, list_oracles, call_oracle, show_oracle,
}
use sum.Cli.Nodes.{node_row, node_rows, create_node, list_nodes, delete_node}
use sum.Cli.Info.{Value, info_rows, info_fields, info, help}

module _ {W B : Type 0} (tools : Tools B) where
  read_answer-IsSound : (e : Event) → IsSound (read_answer {W = W} tools e)
  unfolding read_answer
  read_answer-IsSound (line s) = search sound_parts depth 20
  read_answer-IsSound (interrupt s) = search sound_parts depth 20
  read_answer-IsSound eof = search sound_parts depth 20
  read_answer-IsSound (failure s e) = search sound_parts depth 20

  read_with_prompt-IsSound : IsSound (read_with_prompt {W = W} tools)
  unfolding read_with_prompt
  read_with_prompt-IsSound = search (sound_parts, read_answer-IsSound) depth 20

  values_data-IsSound : (vs : List String) → IsSound (values_data {W = W} tools vs)
  unfolding values_data
  values_data-IsSound [] = search sound_parts depth 20
  values_data-IsSound (v ∷ rest) = search sound_parts depth 20

  read_data-IsSound : IsSound (read_data {W = W} tools)
  unfolding read_data parse_data
  read_data-IsSound = search (sound_parts, read_with_prompt-IsSound, values_data-IsSound) depth 20

  metas_loop-IsSound :
      (fuel : ℕ) (meta : List (String × String)) → IsSound (metas_loop {W = W} tools fuel meta)
  unfolding metas_loop
  metas_loop-IsSound zero meta = search sound_parts depth 20
  metas_loop-IsSound (suc fuel) meta =
      search (sound_parts, read_with_prompt-IsSound, metas_loop-IsSound fuel) depth 20

  read_metas-IsSound : IsSound (read_metas {W = W} tools)
  unfolding read_metas
  read_metas-IsSound = record { on = λ c. (metas_loop-IsSound (suc (length c.input)) []).on c }

  show_record-IsSound : (n : ℕ) (rec : Record) → IsSound (show_record {W = W} tools n rec)
  unfolding show_record
  show_record-IsSound n rec = search sound_parts depth 20

  show_records-IsSound : (recs : List Record) → IsSound (show_records {W = W} tools recs)
  unfolding show_records
  show_records-IsSound [] = search sound_parts depth 20
  show_records-IsSound (rec ∷ rest) =
      then-IsSound (show_record-IsSound 0 rec) (show_records-IsSound rest)

  node_row-IsSound : (n : NodeEntry) → IsSound (node_row {W = W} tools n)
  unfolding node_row
  node_row-IsSound n = search sound_parts depth 20

  node_rows-IsSound : (nodes : List NodeEntry) → IsSound (node_rows {W = W} tools nodes)
  unfolding node_rows
  node_rows-IsSound [] = search sound_parts depth 20
  node_rows-IsSound (n ∷ nodes) =
      bind-IsSound (node_row-IsSound n)
        (λ row. bind-IsSound (node_rows-IsSound nodes) (λ rows. pure-IsSound (row ∷ rows)))

weaker : (args : List String) → 1 < length args → 0 < length args
weaker args h = omega arith

second : (args : List String) → 2 < length args → 1 < length args
second args h = omega arith

module _ {W B : Type 0} (tools : Tools B) (client : Client W B) where
  create_with-IsSound : (d : Option (List ℕ)) → IsSound (create_with tools client d)
  unfolding create_with
  create_with-IsSound none = search sound_parts depth 20
  create_with-IsSound (some d) = search (sound_parts, read_metas-IsSound tools) depth 20

  pub create_record-IsSound : IsSound (create_record tools client)
  unfolding create_record
  create_record-IsSound =
      search (sound_parts, read_data-IsSound tools, create_with-IsSound) depth 20

  update_with-IsSound : (id : ℕ) (d : Option (List ℕ)) → IsSound (update_with tools client id d)
  unfolding update_with
  update_with-IsSound id none = search sound_parts depth 20
  update_with-IsSound id (some d) = search (sound_parts, read_metas-IsSound tools) depth 20

  pub update_record-IsSound :
      (args : List String) → 0 < length args → IsSound (update_record tools client args)
  unfolding update_record
  update_record-IsSound args h =
      search (sound_parts, show_record-IsSound tools, read_data-IsSound tools, update_with-IsSound)
        depth 20

  pub read_record-IsSound :
      (args : List String) → 0 < length args → IsSound (read_record tools client args)
  unfolding read_record
  read_record-IsSound args h = search (sound_parts) depth 20

  pub delete_record-IsSound :
      (args : List String) → 0 < length args → IsSound (delete_record tools client args)
  unfolding delete_record
  delete_record-IsSound args h = search (sound_parts) depth 20

  pub list_records-IsSound :
      (args : List String) → 1 < length args → IsSound (list_records tools client args)
  unfolding list_records
  list_records-IsSound args h = search (sound_parts, weaker args h) depth 20

  show_found-IsSound : (recs : List Record) → IsSound (show_found tools client recs)
  unfolding show_found
  show_found-IsSound [] = search sound_parts depth 20
  show_found-IsSound (r ∷ rest) = show_records-IsSound tools (r ∷ rest)

  pub find_record-IsSound :
      (args : List String) → 1 < length args → IsSound (find_record tools client args)
  unfolding find_record
  find_record-IsSound args h = search (sound_parts, weaker args h, show_found-IsSound) depth 20

  pub create_oracle-IsSound :
      (args : List String) → 1 < length args → IsSound (create_oracle tools client args)
  unfolding create_oracle check_free taken
  create_oracle-IsSound args h = search (sound_parts, weaker args h) depth 20

  pub read_oracle-IsSound :
      (args : List String) → 0 < length args → IsSound (read_oracle tools client args)
  unfolding read_oracle show_oracle
  read_oracle-IsSound args h = search (sound_parts) depth 20

  pub update_oracle-IsSound :
      (args : List String) → 2 < length args → IsSound (update_oracle tools client args)
  unfolding update_oracle check_other taken
  update_oracle-IsSound args h =
      search (sound_parts, second args h, weaker args (second args h)) depth 20

  pub delete_oracle-IsSound :
      (args : List String) → 0 < length args → IsSound (delete_oracle tools client args)
  unfolding delete_oracle
  delete_oracle-IsSound args h = search (sound_parts) depth 20

  pub find_oracle-IsSound :
      (args : List String) → 0 < length args → IsSound (find_oracle tools client args)
  unfolding find_oracle show_oracle
  find_oracle-IsSound args h = search (sound_parts) depth 20

  pub list_oracles-IsSound :
      (args : List String) → 1 < length args → IsSound (list_oracles tools client args)
  unfolding list_oracles
  list_oracles-IsSound args h = search (sound_parts, weaker args h) depth 20

  pub call_oracle-IsSound :
      (name : String) (args : List String)
      → 0 < length args
      → IsSound (call_oracle tools client name args)
  unfolding call_oracle payload_text
  call_oracle-IsSound name args h = search sound_parts depth 20

  pub create_node-IsSound :
      (args : List String) → 1 < length args → IsSound (create_node tools client args)
  unfolding create_node
  create_node-IsSound args h = search (sound_parts, weaker args h) depth 20

  pub list_nodes-IsSound : IsSound (list_nodes tools client)
  unfolding list_nodes
  list_nodes-IsSound = search (sound_parts, node_rows-IsSound tools) depth 20

  pub delete_node-IsSound :
      (args : List String) → 0 < length args → IsSound (delete_node tools client args)
  unfolding delete_node
  delete_node-IsSound args h = search (sound_parts) depth 20
