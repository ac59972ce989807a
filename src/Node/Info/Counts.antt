-- ===== src/Node/Info/Counts.antt =====
-- What Info of a node counts, after CreateRecord and DeleteRecord.
use sum.Prelude.{suc, ◌%◌, ◌≡◌, none, some, arith}
use sum.Prelude.Tests.{nat_eq}
use sum.Prelude.Decimal.{format_uint}
use sum.Proto.{Record, Oracle, RecordResponse, uint64_mod}
use sum.Storage.Env.{Env}
use sum.Storage.Driver.{record_driver}
use sum.Storage.Index
use sum.Storage.Index.{next}
use sum.Storage.Index.Counts.{size-create}
use sum.Storage.Meta.{meta_index_create}
use sum.Storage.Records
use sum.Storage.Records.{Records, with_shape, finish}
use sum.Backend.{Implementation}
use sum.Node.Interpreter.{Interpreter}
use sum.Node.Service.{Service}
use sum.Node.Records.{after, create_record, record_response}
use sum.Node.Info.{Runtime, Place, info, node_info}

module _ {env : Env Record} {oenv : Env Oracle} {js : Interpreter (Records env)} {F : Type 0} where
  -- Where the storage accepts a record, CreateRecord does not panic, and Info of the node then
  -- reports one record more, modulo 2^64, and the identifier after the one that was given.
  pub node_info-create_record :
      (rt : Runtime) (backend : Implementation F) (place : Place) (rec : Record)
      (s : Service oenv js)
      → (Index.create record_driver (with_shape rec) s.records.base).1 ≡ none
      → (s' : Service oenv js) × (resp : RecordResponse) × (create_record rec s ≡ some (s', resp))
        × ((node_info rt backend place s').records
            ≡ suc (node_info rt backend place s).records % uint64_mod)
        × ((node_info rt backend place s').next_record_id
            ≡ next (node_info rt backend place s).next_record_id)
  unfolding create_record after Records.create finish node_info info Index.created
  node_info-create_record rt backend place rec s accepted =
      let (size, next_id) = size-create record_driver (with_shape rec) s.records.base accepted in
      let r : Records env = record {
        base = (Index.create record_driver (with_shape rec) s.records.base).0;
        meta_by =
            meta_index_create (Index.created record_driver (with_shape rec) s.records.base)
              s.records.meta_by;
      } in
      (
        record s { records = r },
        record_response (format_uint s.records.base.next_id),
        ground arith,
        rw (info, size) (omega arith),
        next_id,
      )
