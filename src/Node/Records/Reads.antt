-- ===== src/Node/Records/Reads.antt =====
-- CreateRecord and ReadRecord of node/service/records.go.
use sum.Prelude.{ℕ, ◌<◌, ◌≡◌, refl, true, false, none, some, arith}
use sum.Prelude.Tests.{nat_eq, ◌==◌}
use sum.Prelude.Decimal.{format_uint, parse_uint, parse-format_uint}
use sum.Proto.{Record, Oracle, RecordResponse, uint64_mod}
use sum.Storage.Env.{Env}
use sum.Storage.Driver.{record_driver}
use sum.Storage.Index
use sum.Storage.Index.{Outcome}
use sum.Storage.Index.Effects.{create_fresh}
use sum.Storage.Meta.{meta_index_create}
use sum.Storage.Records
use sum.Storage.Records.{Records, Done, with_shape, finish}
use sum.Node.Interpreter.{Interpreter}
use sum.Node.Service.{Service}
use sum.Node.Records.{after, create_record, read_record, record_or, record_response}

module _ {env : Env Record} {oenv : Env Oracle} {js : Interpreter (Records env)} where
  -- For a next identifier of 64 bits, where the storage accepts a record, CreateRecord does not
  -- panic, the message of its answer is the decimal numeral of an identifier, which was free, and
  -- ReadRecord of that identifier then answers with the created record; any other identifier is
  -- answered as before.
  pub create_record-read :
      (rec : Record) (s : Service oenv js)
      → s.records.base.next_id < uint64_mod
      → (Index.create record_driver (with_shape rec) s.records.base).1 ≡ none
      → (s' : Service oenv js) × (resp : RecordResponse) × (id : ℕ) × (create_record rec s
          ≡ some (s', resp))
        × (resp.success ≡ true)
        × (parse_uint resp.msg ≡ some id)
        × (Records.find id s.records ≡ none)
        × (read_record id s' ≡ record {
          success = true;
          msg = "";
          stored = some (record (with_shape rec) { id = id });
        })
        × ((j : ℕ) → (id == j) ≡ false → read_record j s' ≡ read_record j s)
  unfolding create_record after Records.create finish read_record record_or Records.find
      Index.created
  create_record-read rec s hn accepted =
      let (free, _, at) = create_fresh record_driver (with_shape rec) s.records.base accepted in
      let r : Records env = record {
        base = (Index.create record_driver (with_shape rec) s.records.base).0;
        meta_by =
            meta_index_create (Index.created record_driver (with_shape rec) s.records.base)
              s.records.meta_by;
      } in
      (
        record s { records = r },
        record_response (format_uint s.records.base.next_id),
        s.records.base.next_id,
        ground arith,
        refl,
        parse-format_uint s.records.base.next_id hn,
        free,
        ground (arith, at s.records.base.next_id),
        λ j ne. ground (arith, at j),
      )
