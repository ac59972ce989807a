-- ===== src/Cli/Records.antt =====
-- The callbacks of cmd/sumcli/handlers on records, and what they read from and print to the terminal.
pub mod Metas
pub mod Roundtrip
use sum.Prelude.{
  ℕ, zero, suc, ◌+◌, ◌-◌, String, Bool, true, false, ◌&&◌, Option, none, some, List, [], ◌∷◌, ◌++◌,
  map,
}
use sum.Prelude.Tests.{Result, ok, err, nat_eq, string_eq, ◌==◌, ◌◇◌, ltb, if◌then◌else◌}
use sum.Prelude.Lists.{length, take}
use sum.Prelude.Map.{get, put}
use sum.Prelude.Decimal.{format_uint, parse_uint}
use sum.Proto.{Record, ListRequest}
use sum.Storage.Meta.{entries}
use sum.Cli.Text.{elements, page_line, parse_values, parse_meta, data_as_string, meta_as_string}
use sum.Cli.Console.{
  Act, Event, line, interrupt, eof, failure, Client, Tools, ◌>>=◌, ◌>>◌, pure, fail, print,
  readline, arg, deref, try, call, check,
}

module _ {W B : Type 0} (tools : Tools B) where
  -- ParseUint(s, 10, 64)
  unfoldable pub parse_id : String → Act W ℕ
  unfolding try
  parse_id s = try (elim (parse_uint s) [ none ↦ err (tools.parse_uint_error s) | some n ↦ ok n ])

  -- readWithPrompt; the prompt and the history file are left out
  unfoldable pub read_answer : Event → Act W String
  unfolding pure fail
  read_answer (line s) = pure s
  read_answer (interrupt s) = pure ""
  read_answer eof = pure ""
  read_answer (failure s e) = if s == "" then pure "" else fail e

  unfoldable pub read_with_prompt : Act W String
  unfolding ◌>>=◌ read_answer readline
  read_with_prompt = readline >>= read_answer

  unfoldable pub values_data : List String → Act W (Option (List ℕ))
  unfolding fail try parse_values
  values_data [] = fail "could not create empty vector"
  values_data (v ∷ vs) =
      try (elim (parse_values tools (v ∷ vs)) [ err e ↦ err e | ok fs ↦ ok (some fs) ])

  -- readData after the reading; `none` is nil
  unfoldable pub parse_data : String → Act W (Option (List ℕ))
  unfolding pure values_data
  parse_data raw = if raw == "" then pure none else values_data (tools.comma raw)

  unfoldable pub read_data : Act W (Option (List ℕ))
  unfolding ◌>>=◌ read_with_prompt parse_data
  read_data = read_with_prompt >>= parse_data

  -- the loop of readMetas. It takes at least one event a turn: the fuel is the number of events left and one
  -- more, for the end of the terminal.
  unfoldable pub metas_loop : ℕ → List (String × String) → Act W (List (String × String))
  unfolding ◌>>=◌ read_with_prompt pure try parse_meta
  metas_loop zero meta = pure meta
  metas_loop (suc fuel) meta = do
    raw ← read_with_prompt
    if raw == "" then pure meta else (try (parse_meta tools raw meta) >>= metas_loop fuel)

  unfoldable pub read_metas : Act W (List (String × String))
  unfolding metas_loop
  read_metas c = metas_loop (suc (length c.input)) [] c

  unfoldable pub show_record : ℕ → Record → Act W (Unit {0})
  unfolding ◌>>◌ print data_as_string meta_as_string elements
  show_record limit rec = do
    print ("id   : " ◇ format_uint rec.id ◇ "\n")
    print ("data : " ◇ data_as_string tools (elements rec) limit ◇ "\n")
    print ("meta : " ◇ meta_as_string tools (entries rec) ◇ "\n")

  unfoldable pub show_records : List Record → Act W (Unit {0})
  unfolding ◌>>◌ show_record pure
  show_records [] = pure tt
  show_records (rec ∷ rest) = do show_record 0 rec; show_records rest

module _ {W B : Type 0} (tools : Tools B) (client : Client W B) where
  unfoldable pub show_found : List Record → Act W (Unit {0})
  unfolding print show_records
  show_found [] = print "no records found.\n"
  show_found (r ∷ rest) = show_records tools (r ∷ rest)

  -- createRecordHandler after readData
  unfoldable pub create_with : Option (List ℕ) → Act W (Unit {0})
  unfolding ◌>>=◌ ◌>>◌ pure read_metas call check print
  create_with none = pure tt
  create_with (some d) = do
    meta ← read_metas tools
    resp ←
        call
          (client.create_record (record { id = 0; elems = some d; shape = none; meta = some meta }))
    check resp.success resp.msg
    print ("record created with id " ◇ resp.msg ◇ "\n")

  unfoldable pub create_record : Act W (Unit {0})
  unfolding ◌>>=◌ read_data create_with
  create_record = read_data tools >>= create_with

  unfoldable pub read_record : List String → Act W (Unit {0})
  unfolding ◌>>=◌ ◌>>◌ arg parse_id call check deref show_record
  read_record args = do
    s ← arg args 0
    id ← parse_id tools s
    resp ← call (client.read_record id)
    check resp.success resp.msg
    rec ← deref resp.stored
    show_record tools 0 rec

  -- updateRecordHandler after readData
  unfoldable pub update_with : ℕ → Option (List ℕ) → Act W (Unit {0})
  unfolding ◌>>=◌ ◌>>◌ pure read_metas call check print
  update_with id none = pure tt
  update_with id (some d) = do
    meta ← read_metas tools
    resp ←
        call (
          client.update_record (record { id = id; elems = some d; shape = none; meta = some meta }))
    check resp.success resp.msg
    print ("record " ◇ format_uint id ◇ " successfully updated.\n")

  unfoldable pub update_record : List String → Act W (Unit {0})
  unfolding ◌>>=◌ ◌>>◌ arg parse_id call check deref show_record print read_data update_with
  update_record args = do
    s ← arg args 0
    id ← parse_id tools s
    resp ← call (client.read_record id)
    check resp.success resp.msg
    print "updating:\n\n"
    rec ← deref resp.stored
    show_record tools 10 rec
    print "\n"
    d ← read_data tools
    update_with id d

  unfoldable pub delete_record : List String → Act W (Unit {0})
  unfolding ◌>>=◌ ◌>>◌ arg parse_id call check print
  delete_record args = do
    s ← arg args 0
    id ← parse_id tools s
    resp ← call (client.delete_record id)
    check resp.success resp.msg
    print ("record " ◇ format_uint id ◇ " successfully deleted.\n")

  unfoldable pub record_row : Record → List String
  unfolding data_as_string meta_as_string elements
  record_row r =
      format_uint r.id
      ∷ format_uint (length (elements r))
      ∷ data_as_string tools (elements r) 10
      ∷ meta_as_string tools (entries r)
      ∷ []

  unfoldable pub list_records : List String → Act W (Unit {0})
  unfolding ◌>>=◌ ◌>>◌ arg parse_id call print record_row page_line
  list_records args = do
    s ← arg args 0
    page ← parse_id tools s
    t ← arg args 1
    per_page ← parse_id tools t
    resp ← call (client.list_records (record { page = page; per_page = per_page }))
    print (tools.table ("id" ∷ "size" ∷ "data" ∷ "meta" ∷ []) (map record_row resp.items))
    print (page_line page resp.pages resp.total "records")

  unfoldable pub find_record : List String → Act W (Unit {0})
  unfolding ◌>>=◌ ◌>>◌ arg call check show_found
  find_record args = do
    key ← arg args 0
    value ← arg args 1
    resp ← call (client.find_records (key, value))
    check resp.success resp.msg
    show_found resp.records
