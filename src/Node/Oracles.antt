-- ===== src/Node/Oracles.antt =====
-- The handlers of node/service/oracles.go, and Run of service.go.
pub mod Cached
use sum.Prelude.{ℕ, String, Bool, true, false, Option, none, some, List, [], ◌∷◌}
use sum.Prelude.Tests.{Result, ok, err, nat_eq, string_eq, ◌==◌, ◌◇◌, if◌then◌else◌}
use sum.Prelude.Map.{get, put, del}
use sum.Prelude.Decimal.{format_uint}
use sum.Proto.{Record, Oracle, OracleResponse, Call, CallResponse, ListRequest, ListResponse}
use sum.Storage.Env.{Env}
use sum.Storage.Driver.{oracle_driver}
use sum.Storage.Files.{Error, error_text}
use sum.Storage.Index
use sum.Storage.Index.{Index, Outcome, for_each, objects}
use sum.Storage.Records.{Records}
use sum.Node.Interpreter.{Interpreter, Ending, returned, failed, panicked, Panic}
use sum.Node.Compiler.{Compiled, compile}
use sum.Node.Run.{compiled_run}
use sum.Node.Payload.{Gzip, build_payload}
use sum.Node.Paging.{list_page}
use sum.Node.Service.{Service}

-- errOracleResponse and errCallResponse of a formatted message
abbrev pub err_oracle_response : String → OracleResponse
err_oracle_response msg = record { success = false; msg = msg; oracle = none }

abbrev pub err_call_response : {B : Type 0} → String → CallResponse B
err_call_response msg = record { success = false; msg = msg; body = none }

-- an answer that has an oracle, or else the message that there is none
unfoldable pub oracle_or : String → Option Oracle → OracleResponse
oracle_or msg none = err_oracle_response msg
oracle_or msg (some oracle) = record { success = true; msg = ""; oracle = some oracle }

-- the callback of FindOracle
unfoldable pub keep_named : String → Option Oracle → Oracle → Option Oracle × Option Error
keep_named name found oracle = (if oracle.name == name then some oracle else found, none)

abbrev pub run_error : {B : Type 0} → ℕ → String → CallResponse B
run_error id e = err_call_response ("error while running oracle " ◇ format_uint id ◇ ": " ◇ e)

-- `v.(error)` panics on a value of a type that is no error
abbrev pub no_error : String → Panic
no_error type =
    Panic.error ("interface conversion: " ◇ type ◇ " is not error: missing method Error")

-- the response of Run and its error, for the end of the compiled oracle: the deferred recover answers
-- where the panic is an error, and panics otherwise
unfoldable pub respond :
    {B : Type 0} → Gzip B → ℕ → Ending B → Ending (CallResponse B × Option String)
respond z id (failed e) = returned (run_error id e, none)
respond z id (returned raw) =
    returned (record { success = true; msg = ""; body = some (build_payload z raw) }, none)
respond z id (panicked (Panic.error e)) = returned (run_error id e, some e)
respond z id (panicked (Panic.text t)) = panicked (no_error "string")
respond z id (panicked (Panic.other type v)) = panicked (no_error type)

module _ {env : Env Record} {oenv : Env Oracle} {js : Interpreter (Records env)} where
  -- CreateOracle after Create of the storage. The compiled oracle refers to the caller's message,
  -- which has its identifier by now.
  unfoldable pub oracle_created :
      Oracle → Compiled js → Service oenv js → Outcome oenv → Service oenv js × OracleResponse
  oracle_created oracle c s (i, some e) =
      (record s { oracles = i }, err_oracle_response (error_text e))
  oracle_created oracle c s (i, none) = (
    record s { oracles = i; cache = put oracle.id (record c { oracle = oracle }) s.cache },
    record { success = true; msg = format_uint oracle.id; oracle = none },
  )

  unfoldable pub create_oracle : Oracle → Service oenv js → Service oenv js × OracleResponse
  unfolding oracle_created
  create_oracle oracle s = elim (compile js oracle) [
    | err e ↦ (s, err_oracle_response e)
    | ok c ↦
        oracle_created (Index.created oracle_driver oracle s.oracles) c s
          (Index.create oracle_driver oracle s.oracles)
  ]

  -- UpdateOracle after Update of the storage
  unfoldable pub oracle_updated :
      Oracle → Compiled js → Service oenv js → Outcome oenv → Service oenv js × OracleResponse
  oracle_updated oracle c s (i, some e) =
      (record s { oracles = i }, err_oracle_response (error_text e))
  oracle_updated oracle c s (i, none) = (
    record s { oracles = i; cache = put oracle.id c s.cache },
    record { success = true; msg = ""; oracle = none },
  )

  unfoldable pub update_oracle : Oracle → Service oenv js → Service oenv js × OracleResponse
  unfolding oracle_updated
  update_oracle oracle s = elim (compile js oracle) [
    | err e ↦ (s, err_oracle_response e)
    | ok c ↦ oracle_updated oracle c s (Index.update oracle_driver oracle s.oracles)
  ]

  unfoldable pub read_oracle : ℕ → Service oenv js → OracleResponse
  unfolding oracle_or
  read_oracle id s =
      oracle_or ("oracle " ◇ format_uint id ◇ " not found.") (Index.find id s.oracles)

  unfoldable pub find_oracle :
      (List (ℕ × Oracle) → List (ℕ × Oracle)) → String → Service oenv js → OracleResponse
  unfolding oracle_or keep_named
  find_oracle range name s =
      oracle_or ("oracle " ◇ name ◇ " not found.")
        (for_each (keep_named name) none (range s.oracles.index)).0

  -- DeleteOracle after Delete of the storage
  unfoldable pub oracle_deleted :
      ℕ → Service oenv js → Index oenv × Option Oracle → Service oenv js × OracleResponse
  oracle_deleted id s (i, none) =
      (record s { oracles = i }, err_oracle_response ("Oracle " ◇ format_uint id ◇ " not found."))
  oracle_deleted id s (i, some _) = (
    record s { oracles = i; cache = del id s.cache },
    record { success = true; msg = ""; oracle = none },
  )

  unfoldable pub delete_oracle : ℕ → Service oenv js → Service oenv js × OracleResponse
  unfolding oracle_deleted
  delete_oracle id s = oracle_deleted id s (Index.delete id s.oracles)

  unfoldable pub list_oracles :
      (List (ℕ × Oracle) → List (ℕ × Oracle))
      → ListRequest
      → Service oenv js
      → Option (ListResponse Oracle)
  list_oracles range req s = list_page (λ all. all) (objects range s.oracles) req

  -- Run; `none` where it waits or the oracle never ends. The compiled oracle is changed in place.
  unfoldable pub run :
      Gzip js.Bytes
      → Call
      → Service oenv js
      → Option (Service oenv js × Ending (CallResponse js.Bytes × Option String))
  unfolding respond
  run z call s = elim (get call.oracle_id s.cache) [
    | none ↦ some (
      s,
      returned (err_call_response ("oracle " ◇ format_uint call.oracle_id ◇ " not found."), none),
    )
    | some c ↦ elim (compiled_run js s.records call.args c) [
      | none ↦ none
      | some (c', r, res) ↦ some (
        record s { records = r; cache = put call.oracle_id c' s.cache },
        respond z call.oracle_id res,
      )
    ]
  ]
