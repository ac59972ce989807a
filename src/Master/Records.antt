-- ===== src/Master/Records.antt =====
-- The handlers of master/mux_records.go for one record: create, update, read, delete, find.
pub mod Reads
pub mod Placement
use sum.Prelude.{ℕ, ◌+◌, ◌-◌, ◌%◌, String, true, Option, none, some, List, [], ◌∷◌}
use sum.Prelude.Tests.{Result, ok, err, ◌◇◌, ◌==◌, string_eq, ltb, leb, if◌then◌else◌}
use sum.Prelude.Decimal.{format_uint}
use sum.Proto.{Record, RecordResponse, FindResponse, uint64_mod}
use sum.Storage.Files.{invalid_id, record_not_found, error_text}
use sum.Master.Network.{Network, Reply}
use sum.Master.Replies.{
  err_record_response, err_find_response, settled, record_response, find_response,
}
use sum.Master.Raccoon.{Parser}
use sum.Master.State.{NodeInfo, Service, numbered, modify_at}
use sum.Master.Parallel.{Sent, nothing, send_result, send_error, do_parallel}

-- strings.Join with ", "
unfoldable pub join : List String → String
join [] = ""
join (s ∷ []) = s
join (s ∷ t ∷ rest) = s ◇ ", " ◇ join (t ∷ rest)

abbrev pub no_node_able : List String → String
no_node_able errs = "No node was able to satisfy your request: [" ◇ join errs ◇ "]"

abbrev pub not_found_error : ℕ → String
not_found_error id = "record " ◇ format_uint id ◇ " not found."

abbrev pub record_success : RecordResponse
record_success = record { success = true; msg = ""; stored = none }

-- _findLessLoadedNode, with the best of the nodes before
unfoldable pub less_loaded_than :
    Option (ℕ × NodeInfo) → List (ℕ × NodeInfo) → Option (ℕ × NodeInfo)
less_loaded_than best [] = best
less_loaded_than none (n ∷ nodes) = less_loaded_than (some n) nodes
less_loaded_than (some (i, m)) ((j, n) ∷ nodes) =
    less_loaded_than (some (if ltb n.status.records m.status.records then (j, n) else (i, m))) nodes

unfoldable pub find_less_loaded_node : List NodeInfo → Option (ℕ × NodeInfo)
unfolding less_loaded_than numbered
find_less_loaded_node nodes = less_loaded_than none (numbered 0 nodes)

-- What a worker sends for an answer that is no success, where one message is no error.
unfoldable pub complaint : {R : Type 0} → String → NodeInfo → String → Sent R
complaint ignored n m =
    if m == ignored then nothing else send_error ("node " ◇ format_uint n.id ◇ ": " ◇ m)

-- What the handlers make of the results where at most one is expected.
unfoldable pub only_result :
    {R : Type 0} → String → (R → RecordResponse) → List R × List String → RecordResponse
only_result not_found respond (r ∷ results, errs) = respond r
only_result not_found respond ([], []) = err_record_response not_found
only_result not_found respond ([], e ∷ errs) = err_record_response (no_node_able (e ∷ errs))

-- FindRecords after the workers
unfoldable pub found_records : List Record × List String → FindResponse
found_records (records, []) = record { success = true; msg = ""; records = records }
found_records (records, e ∷ errs) =
    err_find_response ("Errors from nodes: [" ◇ join (e ∷ errs) ◇ "]")

-- the status of the node that took a record with an identifier
unfoldable pub count_with_id : ℕ → NodeInfo → NodeInfo
count_with_id id n = record n {
  status = record n.status {
    records = (n.status.records + 1) % uint64_mod;
    next_record_id =
        if leb n.status.next_record_id id then (id + 1) % uint64_mod else n.status.next_record_id;
  };
}

unfoldable pub count_created : ℕ → NodeInfo → NodeInfo
count_created next n = record n {
  status = record n.status { records = (n.status.records + 1) % uint64_mod; next_record_id = next };
}

unfoldable pub count_deleted : NodeInfo → NodeInfo
count_deleted n = record n {
  status = record n.status { records = (n.status.records + uint64_mod - 1) % uint64_mod };
}

module _ {js : Parser} where
  -- CreateRecord after the node has answered
  unfoldable pub record_created : ℕ → Result String RecordResponse → Service js → Service js
  unfolding modify_at count_created
  record_created i (err _) s = s
  record_created i (ok _) s =
      let next = (s.next_id + 1) % uint64_mod in
      record s { next_id = next; nodes = modify_at i (count_created next) s.nodes }

  -- CreateRecordWithId after the node has answered
  unfoldable pub record_placed :
      ℕ → NodeInfo → ℕ → Result String RecordResponse → Service js → Service js
  unfolding modify_at count_with_id
  record_placed i n id (err _) s = s
  record_placed i n id (ok _) s =
      let next = (count_with_id id n).status.next_record_id in
      record s {
        nodes = modify_at i (count_with_id id) s.nodes;
        next_id = if ltb s.next_id next then next else s.next_id;
      }

module _ {W B : Type 0} (net : Network W B) {js : Parser} where
  unfoldable pub create_record : Record → Service js × W → (Service js × W) × Reply RecordResponse
  unfolding find_less_loaded_node record_created settled
  create_record r (s, w) = elim (find_less_loaded_node s.nodes) [
    | none ↦ ((s, w), ok (err_record_response "No nodes available, try later"))
    | some (i, n) ↦
        let (w1, reply) = net.create_record_with_id n.connection (record r { id = s.next_id }) w in
        ((record_created i (settled reply) s, w1), reply)
  ]

  unfoldable pub update_worker :
      Record → ℕ × NodeInfo → Service js × W → (Service js × W) × Sent (Unit {0})
  unfolding settled complaint
  update_worker arg (i, n) (s, w) =
      let (w1, reply) = net.update_record n.connection arg w in
      (
        (s, w1),
        elim (settled reply) [
          | err m ↦ complaint (error_text record_not_found) n m
          | ok _ ↦ send_result tt
        ],
      )

  unfoldable pub update_record : Record → Service js × W → (Service js × W) × RecordResponse
  unfolding update_worker do_parallel numbered only_result
  update_record arg (s, w) =
      let (sw, gathered) = do_parallel net (update_worker arg) (numbered 0 s.nodes) (s, w) in
      (sw, only_result (error_text record_not_found) (λ _. record_success) gathered)

  unfoldable pub read_worker :
      ℕ → ℕ × NodeInfo → Service js × W → (Service js × W) × Sent (Option Record)
  unfolding settled complaint
  read_worker id (i, n) (s, w) =
      let (w1, reply) = net.read_record n.connection id w in
      (
        (s, w1),
        elim (settled reply) [
          | err m ↦ complaint (not_found_error id) n m
          | ok resp ↦ send_result resp.stored
        ],
      )

  unfoldable pub read_record : ℕ → Service js × W → (Service js × W) × RecordResponse
  unfolding read_worker do_parallel numbered only_result
  read_record id (s, w) =
      let (sw, gathered) = do_parallel net (read_worker id) (numbered 0 s.nodes) (s, w) in
      (
        sw,
        only_result (not_found_error id) (λ r. record { success = true; msg = ""; stored = r })
            gathered,
      )

  unfoldable pub delete_worker :
      ℕ → ℕ × NodeInfo → Service js × W → (Service js × W) × Sent (Unit {0})
  unfolding settled complaint modify_at count_deleted
  delete_worker id (i, n) (s, w) =
      let (w1, reply) = net.delete_record n.connection id w in
      elim (settled reply) [
        | err m ↦ ((s, w1), complaint (not_found_error id) n m)
        | ok _ ↦ ((record s { nodes = modify_at i count_deleted s.nodes }, w1), send_result tt)
      ]

  unfoldable pub delete_record : ℕ → Service js × W → (Service js × W) × RecordResponse
  unfolding delete_worker do_parallel numbered only_result
  delete_record id (s, w) =
      let (sw, gathered) = do_parallel net (delete_worker id) (numbered 0 s.nodes) (s, w) in
      (sw, only_result (not_found_error id) (λ _. record_success) gathered)

  unfoldable pub find_worker :
      String × String → ℕ × NodeInfo → Service js × W → (Service js × W) × Sent Record
  unfolding settled
  find_worker (meta, value) (i, n) (s, w) =
      let (w1, reply) = net.find_records n.connection (meta, value) w in
      (
        (s, w1),
        elim (settled reply) [
          | err m ↦ if m == "meta " ◇ meta ◇ " not indexed." then nothing else send_error m
          | ok resp ↦ record { results = resp.records; errs = []; exception = none }
        ],
      )

  unfoldable pub find_records : String × String → Service js × W → (Service js × W) × FindResponse
  unfolding find_worker do_parallel numbered found_records
  find_records arg (s, w) =
      let (sw, gathered) = do_parallel net (find_worker arg) (numbered 0 s.nodes) (s, w) in
      (sw, found_records gathered)

  -- CreateRecordWithId; the worker looks for a record of the identifier
  unfoldable pub exists_worker :
      ℕ → ℕ × NodeInfo → Service js × W → (Service js × W) × Sent (Unit {0})
  unfolding settled
  exists_worker id (i, n) (s, w) =
      let (w1, reply) = net.read_record n.connection id w in
      ((s, w1), elim (settled reply) [ err _ ↦ nothing | ok _ ↦ send_result tt ])

  unfoldable pub place_record :
      Record
      → ℕ × NodeInfo
      → List (Unit {0})
      → Service js × W
      → (Service js × W) × Reply RecordResponse
  unfolding record_placed settled
  place_record r (i, n) (_ ∷ _) sw = (sw, ok (err_record_response (error_text invalid_id)))
  place_record r (i, n) [] (s, w) =
      let (w1, reply) = net.create_record_with_id n.connection r w in
      ((record_placed i n r.id (settled reply) s, w1), reply)

  unfoldable pub create_record_with_id :
      Record → Service js × W → (Service js × W) × Reply RecordResponse
  unfolding find_less_loaded_node exists_worker do_parallel numbered place_record
  create_record_with_id r (s, w) = elim (find_less_loaded_node s.nodes) [
    | none ↦ ((s, w), ok (err_record_response "No nodes available, try later"))
    | some node ↦
        let (sw, (results, _)) = do_parallel net (exists_worker r.id) (numbered 0 s.nodes) (s, w) in
        place_record r node results sw
  ]
