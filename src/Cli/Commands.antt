-- ===== src/Cli/Commands.antt =====
-- The handlers of cmd/sumcli/handlers without their callbacks, in the order of Handlers.
use sum.Prelude.{String, Option, none, some, List, [], ◌∷◌}

-- handler; the completer is the text of its PcItem
pub record Command : Type 0 where
  pub name : String
  pub mnemonic : String
  pub description : String
  pub parser : Option String
  pub completer : Option String

abbrev pub help_command : Command
help_command = record {
  name = "HELP";
  mnemonic = "HELP";
  description = "Show the available client commands and their descriptions.";
  parser = none;
  completer = some "help";
}

abbrev pub quit_command : Command
quit_command = record {
  name = "QUIT";
  mnemonic = "QUIT, Q or EXIT";
  description = "Exit the client.";
  parser = some "^(?i)(QUIT|Q|EXIT)$";
  completer = some "quit";
}

abbrev pub info_command : Command
info_command = record {
  name = "INFO";
  mnemonic = "INFO";
  description = "Display server information.";
  parser = none;
  completer = some "info";
}

abbrev pub create_record_command : Command
create_record_command = record {
  name = "CREATE";
  mnemonic = "CREATE or C";
  description = "Create a new record with specified elements and metadata.";
  parser = some "^(?i)(CREATE|C)$";
  completer = some "create";
}

abbrev pub read_record_command : Command
read_record_command = record {
  name = "READ";
  mnemonic = "READ or R <ID>";
  description = "Read the data and metadata of a record given its <ID>.";
  parser = some "^(?i)(READ|R)\\s+(\\d+)$";
  completer = some "read";
}

abbrev pub update_record_command : Command
update_record_command = record {
  name = "UPDATE";
  mnemonic = "UPDATE or U <ID>";
  description = "Update a record given its <ID> with specified elements and metadata.";
  parser = some "^(?i)(UPDATE|U)\\s+(\\d+)$";
  completer = some "update";
}

abbrev pub delete_record_command : Command
delete_record_command = record {
  name = "DELETE";
  mnemonic = "DELETE or D <ID>";
  description = "Delete a vector given its <ID>.";
  parser = some "^(?i)(DELETE|D)\\s+(\\d+)$";
  completer = some "delete";
}

abbrev pub list_records_command : Command
list_records_command = record {
  name = "LIST";
  mnemonic = "LIST or L <PAGE> <PER PAGE>";
  description = "Show records at <PAGE> while including <PER PAGE> elements per page.";
  parser = some "^(?i)(LIST|L)\\s+(\\d+)\\s+(\\d+)$";
  completer = some "list";
}

abbrev pub find_record_command : Command
find_record_command = record {
  name = "FIND";
  mnemonic = "FIND or F <KEY> <VALUE>";
  description = "Find a record by the <KEY> meta data with <VALUE>.";
  parser = some "^(?i)(FIND|F)\\s+([^\\s]+)\\s+(.+)$";
  completer = some "find";
}

abbrev pub create_oracle_command : Command
create_oracle_command = record {
  name = "OCREATE";
  mnemonic = "OCREATE or OC <NAME> <FILEPATH>";
  description = "Create an oracle with a given <NAME> and the code from a given <FILEAPATH>.";
  parser = some "^(?i)(OCREATE|OC)\\s+([^\\s]+)\\s+(.+)$";
  completer = some "ocreate";
}

abbrev pub read_oracle_command : Command
read_oracle_command = record {
  name = "OREAD";
  mnemonic = "OREAD or OR <ID>";
  description = "Read an oracle given its <ID>.";
  parser = some "^(?i)(OREAD|OR)\\s+(\\d+)$";
  completer = some "oread";
}

abbrev pub update_oracle_command : Command
update_oracle_command = record {
  name = "OUPDATE";
  mnemonic = "OUPDATE or OU <ID> <NAME> <FILEPATH>";
  description =
      "Update an oracle given its <ID> with a new <NAME> and the code from a given <FILEAPATH>.";
  parser = some "^(?i)(OUPDATE|OU)\\s+(\\d+)\\s+([^\\s]+)\\s+(.+)$";
  completer = some "oupdate";
}

abbrev pub delete_oracle_command : Command
delete_oracle_command = record {
  name = "ODELETE";
  mnemonic = "ODELETE or OD <ID>";
  description = "Delete an oracle given its <ID>.";
  parser = some "^(?i)(ODELETE|OD)\\s+(\\d+)$";
  completer = some "odelete";
}

abbrev pub find_oracle_command : Command
find_oracle_command = record {
  name = "OFIND";
  mnemonic = "OFIND or OF <NAME>";
  description = "Find an oracle given its <NAME>.";
  parser = some "^(?i)(OFIND|OF)\\s+(.+)$";
  completer = some "ofind";
}

abbrev pub list_oracles_command : Command
list_oracles_command = record {
  name = "OLIST";
  mnemonic = "OLIST or OL <PAGE> <PER PAGE>";
  description = "Show oracles at <PAGE> while including <PER PAGE> elements per page.";
  parser = some "^(?i)(OLIST|OL)\\s+(\\d+)\\s+(\\d+)$";
  completer = some "olist";
}

abbrev pub call_oracle_command : Command
call_oracle_command = record {
  name = "CALL";
  mnemonic = "<NAME>(<ARGUMENTS>)";
  description = "Call the oracle <NAME> with the specified <ARGUMENTS>.";
  parser = some "^(?i)([^\\(]+)\\(([^\\)]*)\\)$";
  completer = none;
}

abbrev pub create_node_command : Command
create_node_command = record {
  name = "NCREATE";
  mnemonic = "NCREATE or NC <ADDR> <FILEPATH>";
  description = "Create a node with listening on ADDR with the given certificate FILEPATH.";
  parser = some "^(?i)(NCREATE|NC)\\s+([^\\s]+)\\s+(.+)$";
  completer = some "ncreate";
}

abbrev pub list_nodes_command : Command
list_nodes_command = record {
  name = "NLIST";
  mnemonic = "NLIST or NL";
  description = "List attached nodes and their stats.";
  parser = none;
  completer = some "nlist";
}

abbrev pub delete_node_command : Command
delete_node_command = record {
  name = "NDELETE";
  mnemonic = "NDELETE or ND <ID>";
  description = "Create a node by its <ID>.";
  parser = some "^(?i)(NDELETE|ND)\\s+(\\d+)\\s*$";
  completer = some "ndelete";
}

abbrev pub commands : List Command
commands =
    help_command ∷ quit_command ∷ info_command ∷ create_record_command ∷ read_record_command
    ∷ update_record_command ∷ delete_record_command ∷ list_records_command ∷ find_record_command
    ∷ create_oracle_command ∷ read_oracle_command ∷ update_oracle_command ∷ delete_oracle_command
    ∷ find_oracle_command ∷ list_oracles_command ∷ call_oracle_command ∷ create_node_command
    ∷ list_nodes_command ∷ delete_node_command ∷ []
