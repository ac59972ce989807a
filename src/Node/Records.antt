-- ===== src/Node/Records.antt =====
-- The handlers of node/service/records.go. A handler's result is `none` where it panics.
pub mod Reads
use sum.Prelude.{ℕ, String, Bool, true, false, Option, none, some, List, [], ◌∷◌}
use sum.Prelude.Tests.{Result, ok, err, ◌◇◌}
use sum.Prelude.Decimal.{format_uint}
use sum.Proto.{Record, Oracle, RecordResponse, FindResponse, ListRequest, ListResponse}
use sum.Storage.Env.{Env}
use sum.Storage.Driver.{record_driver}
use sum.Storage.Files.{Error, error_text}
use sum.Storage.Index
use sum.Storage.Index.{objects}
use sum.Storage.Records
use sum.Storage.Records.{Records, Done, with_shape, find_by}
use sum.Node.Interpreter.{Interpreter}
use sum.Node.Paging.{list_records}
use sum.Node.Service.{Service}

abbrev pub err_record_response : String → RecordResponse
err_record_response msg = record { success = false; msg = msg; stored = none }

abbrev pub record_response : String → RecordResponse
record_response msg = record { success = true; msg = msg; stored = none }

-- an answer with the records found, or else the message that the name is not indexed
unfoldable pub found_or : String → Option (List Record) → FindResponse
found_or meta none = record {
  success = false;
  msg = "meta " ◇ meta ◇ " not indexed.";
  records = [];
}
found_or meta (some rs) = record { success = true; msg = ""; records = rs }

-- an answer that has a record, or else the message that there is none
unfoldable pub record_or : ℕ → Option Record → RecordResponse
record_or id none = err_record_response ("record " ◇ format_uint id ◇ " not found.")
record_or id (some rec) = record { success = true; msg = ""; stored = some rec }

module _ {env : Env Record} {oenv : Env Oracle} {js : Interpreter (Records env)} where
  -- `if err := ...; err != nil` after a method of the storage, with the message of a success
  unfoldable pub after :
      Service oenv js → String → Done env → Option (Service oenv js × RecordResponse)
  after s msg none = none
  after s msg (some (r, some e)) =
      some (record s { records = r }, err_record_response (error_text e))
  after s msg (some (r, none)) = some (record s { records = r }, record_response msg)

  -- the message of a success is the identifier that Create has given to the caller's record
  unfoldable pub create_record :
      Record → Service oenv js → Option (Service oenv js × RecordResponse)
  unfolding after
  create_record rec s =
      after s (format_uint (Index.created record_driver (with_shape rec) s.records.base).id)
        (Records.create rec s.records)

  unfoldable pub create_record_with_id :
      Record → Service oenv js → Option (Service oenv js × RecordResponse)
  unfolding after
  create_record_with_id rec s = after s (format_uint rec.id) (Records.create_with_id rec s.records)

  unfoldable pub create_records_with_id :
      List Record → Service oenv js → Option (Service oenv js × RecordResponse)
  unfolding after
  create_records_with_id recs s = after s "" (Records.create_many_with_id recs s.records)

  unfoldable pub update_record :
      Record → Service oenv js → Option (Service oenv js × RecordResponse)
  unfolding after
  update_record rec s = after s "" (Records.update rec s.records)

  unfoldable pub read_record : ℕ → Service oenv js → RecordResponse
  unfolding record_or
  read_record id s = record_or id (Records.find id s.records)

  unfoldable pub list_stored :
      (List (ℕ × Record) → List (ℕ × Record))
      → ListRequest
      → Service oenv js
      → Option (ListResponse Record)
  list_stored range req s = list_records (objects range s.records.base) req

  unfoldable pub delete_record : ℕ → Service oenv js → Option (Service oenv js × RecordResponse)
  delete_record id s = elim (Records.delete id s.records) [
    | none ↦ none
    | some (r, none) ↦
        some (
          record s { records = r },
          err_record_response ("record " ◇ format_uint id ◇ " not found."),
        )
    | some (r, some _) ↦ some (record s { records = r }, record_response "")
  ]

  unfoldable pub delete_records :
      List ℕ → Service oenv js → Option (Service oenv js × RecordResponse)
  delete_records ids s = elim (Records.delete_many ids s.records) [
    | none ↦ none
    | some (r, _) ↦ some (record s { records = r }, record_response "")
  ]

  unfoldable pub find_records : String → String → Service oenv js → FindResponse
  unfolding found_or
  find_records meta val s = found_or meta (find_by meta val s.records)
