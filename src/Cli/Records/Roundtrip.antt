-- ===== src/Cli/Records/Roundtrip.antt =====
-- CREATE and READ of cmd/sumcli/handlers on a node.
use sum.Prelude.{ℕ, ◌<◌, ◌≡◌, refl, String, true, false, none, some, List, [], ◌∷◌, ◌++◌}
use sum.Prelude.Tests.{ok, string_eq, ◌==◌, ◌◇◌}
use sum.Prelude.Lists.{All}
use sum.Prelude.Decimal.{parse_uint}
use sum.Proto.{Record, Oracle, RecordResponse, uint64_mod}
use sum.Storage.Env.{Env}
use sum.Storage.Driver.{record_driver}
use sum.Storage.Index
use sum.Storage.Records.{Records, with_shape}
use sum.Node.Interpreter.{Interpreter}
use sum.Node.Service.{Service}
use sum.Node.Records
use sum.Node.Records.Reads.{create_record-read}
use sum.Cli.Console.{
  Console, Closing, returned, Event, line, Client, Tools, ◌>>=◌, ◌>>◌, continue_with, pure, try,
  call, check, print, arg, deref, readline,
}
use sum.Cli.Text.{parse_values}
use sum.Cli.Records.{
  read_answer, read_with_prompt, values_data, parse_data, read_data, create_with, create_record,
  parse_id, show_record, read_record,
}
use sum.Cli.Records.Metas.{Item, IsItem, lines_of, put_all, stops, read_metas_lem}

-- The connection to a node: a call gives what the node answers.
pub record Delivers {env : Env Record} {oenv : Env Oracle} {js : Interpreter (Records env)}
    {B : Type 0} (client : Client (Service oenv js) B) : Type 0 where
  pub create :
      (r : Record) (s s' : Service oenv js) (resp : RecordResponse)
      → Records.create_record r s ≡ some (s', resp)
      → client.create_record r s ≡ (s', ok resp)
  pub read :
      (id : ℕ) (s : Service oenv js) → client.read_record id s ≡ (s, ok (Records.read_record id s))

-- what CREATE sends
abbrev pub sent : List ℕ → List Item → Record
sent fs items = record { id = 0; elems = some fs; shape = none; meta = some (put_all items []) }

module _ {W B : Type 0} (tools : Tools B) where
  read_data_lem :
      (raw v : String) (vs : List String) (fs : List ℕ) (w : W) (rest : List Event)
      (printed : List String) (closing : Closing)
      → (raw == "") ≡ false
      → tools.comma raw ≡ v ∷ vs
      → parse_values tools (v ∷ vs) ≡ ok fs
      → read_data tools
          (record { world = w; input = line raw ∷ rest; output = printed; closing = closing })
        ≡ (
          record { world = w; input = rest; output = printed; closing = closing },
          returned (some fs),
        )
  unfolding read_data read_with_prompt read_answer readline parse_data values_data ◌>>=◌
      continue_with pure try
  read_data_lem raw v vs fs w rest printed closing b c p =
      rw (b) (rw (values_data, c) (rw (p) refl))

module _ {env : Env Record} {oenv : Env Oracle} {js : Interpreter (Records env)} {B : Type 0}
    (tools : Tools B) (client : Client (Service oenv js) B) (node : Delivers client) where
  create_with_lem :
      (fs : List ℕ) (items : List Item) (stop : Event) (rest : List Event) (s s' : Service oenv js)
      (printed : List String) (closing : Closing) (resp : RecordResponse)
      → All (IsItem tools) items
      → stops stop ≡ true
      → Records.create_record (sent fs items) s ≡ some (s', resp)
      → resp.success ≡ true
      → create_with tools client (some fs) (record {
        world = s;
        input = lines_of items ++ stop ∷ rest;
        output = printed;
        closing = closing;
      })
        ≡ (
          record {
            world = s';
            input = rest;
            output = printed ++ ("record created with id " ◇ resp.msg ◇ "\n") ∷ [];
            closing = closing;
          },
          returned tt,
        )
  unfolding create_with ◌>>=◌ ◌>>◌ continue_with call try check print
  create_with_lem fs items stop rest s s' printed closing resp m h e good =
      rw (create_with, read_metas_lem tools items stop rest s printed closing m h)
        (rw (call, node.create (sent fs items) s s' resp e) (rw (check, good) refl))

  -- READ of a text that is the identifier of a stored record
  read_record_lem :
      (id : ℕ) (text : String) (rec : Record) (c : Console (Service oenv js))
      → parse_uint text ≡ some id
      → Records.read_record id c.world ≡ record { success = true; msg = ""; stored = some rec }
      → read_record tools client (text ∷ []) c ≡ show_record tools 0 rec c
  unfolding read_record ◌>>=◌ ◌>>◌ continue_with arg parse_id try call check deref
  read_record_lem id text rec c numeral found =
      rw (read_record, parse_id, numeral) (rw (call, node.read id c.world) (rw (found) refl))

  -- On a node that accepts the record and whose next identifier has 64 bits, CREATE at a terminal
  -- that gives the elements, lines of a key and a value each, and a stop, ends well: it takes
  -- these lines and no more and prints a text; READ of this text then shows the record of the
  -- elements and the map of the lines.
  pub create-read :
      (raw v : String) (vs : List String) (fs : List ℕ) (items : List Item) (stop : Event)
      (rest : List Event) (s : Service oenv js) (printed : List String) (closing : Closing)
      → (raw == "") ≡ false
      → tools.comma raw ≡ v ∷ vs
      → parse_values tools (v ∷ vs) ≡ ok fs
      → All (IsItem tools) items
      → stops stop ≡ true
      → s.records.base.next_id < uint64_mod
      → (Index.create record_driver (with_shape (sent fs items)) s.records.base).1 ≡ none
      → (c : Console (Service oenv js)) × (id : ℕ) × (text : String) × (create_record tools client
            (record {
              world = s;
              input = line raw ∷ lines_of items ++ stop ∷ rest;
              output = printed;
              closing = closing;
            })
          ≡ (c, returned tt))
        × (c.output ≡ printed ++ ("record created with id " ◇ text ◇ "\n") ∷ [])
        × (c.input ≡ rest)
        × (read_record tools client (text ∷ []) c
            ≡ show_record tools 0 (record (with_shape (sent fs items)) { id = id }) c)
  unfolding create_record ◌>>=◌ continue_with
  create-read raw v vs fs items stop rest s printed closing b cm p m h hn accepted =
      let (s', resp, id, made, good, numeral, _, found, _) =
        create_record-read (sent fs items) s hn accepted in
      let c : Console (Service oenv js) = record {
        world = s';
        input = rest;
        output = printed ++ ("record created with id " ◇ resp.msg ◇ "\n") ∷ [];
        closing = closing;
      } in
      (
        c,
        id,
        resp.msg,
        rw
            (
              create_record,
              read_data_lem tools raw v vs fs s (lines_of items ++ stop ∷ rest) printed closing b cm
                  p,
            )
            (create_with_lem fs items stop rest s s' printed closing resp m h made good),
        refl,
        refl,
        read_record_lem id resp.msg (record (with_shape (sent fs items)) { id = id }) c numeral
            found,
      )
