-- ===== src/Master/Batch.antt =====
-- The handlers of master/mux_records.go for many records: CreateRecordsWithId and DeleteRecords.
pub mod Shares
pub mod Total
use sum.Prelude.{ℕ, ◌+◌, ◌-◌, ◌/◌, ◌%◌, String, Option, none, some, List, [], ◌∷◌}
use sum.Prelude.Tests.{Result, ok, err, ◌◇◌, ◌==◌, nat_eq, ltb, leb, if◌then◌else◌}
use sum.Prelude.Lists.{length, get_elem?, take, drop}
use sum.Prelude.Decimal.{format_uint}
use sum.Proto.{Record, RecordResponse, uint64_mod}
use sum.Master.Network.{Network}
use sum.Master.Replies.{err_record_response, settled, record_response}
use sum.Master.Raccoon.{Parser}
use sum.Master.State.{
  NodeInfo, Service, numbered, modify_at, total_records, update_status, set_next_id_if_higher,
}
use sum.Master.Parallel.{Sent, nothing, do_parallel}
use sum.Master.Balancer.{balance, ids_of}
use sum.Master.Records.{record_success}

-- `maxId`
unfoldable pub max_id : ℕ → List Record → ℕ
max_id m [] = m
max_id m (r ∷ records) = max_id (if ltb m r.id then r.id else m) records

unfoldable pub count_batch : (n max : ℕ) → NodeInfo → NodeInfo
count_batch k max n = record n {
  status = record n.status {
    records = (n.status.records + k) % uint64_mod;
    next_record_id =
        if leb n.status.next_record_id max then (max + 1) % uint64_mod else n.status.next_record_id;
  };
}

-- NextRecordId of the node at a place
unfoldable pub next_at : ℕ → List NodeInfo → ℕ
next_at i nodes = elim (get_elem? nodes i) [ none ↦ 0 | some n ↦ n.status.next_record_id ]

module _ {js : Parser} where
  -- creator after the node has answered
  unfoldable pub batch_created :
      ℕ → List Record → Result String RecordResponse → Service js → Service js × Option String
  unfolding modify_at count_batch max_id set_next_id_if_higher next_at
  batch_created i records (err m) s = (s, some m)
  batch_created i records (ok _) s =
      let max = max_id 0 records in
      let s1 = record s { nodes = modify_at i (count_batch (length records) max) s.nodes } in
      (
        if leb (next_at i s.nodes) max
            then set_next_id_if_higher ((max + 1) % uint64_mod) s1
            else s1,
        none,
      )

-- What the loop over the nodes keeps: `start`, the successful node, and the last error.
pub record Progress : Type 0 where
  pub start : ℕ
  pub end_ : ℕ
  pub successful : Option (ℕ × NodeInfo)
  pub last_err : String

-- the next share, after the answer of the node
unfoldable pub advance : ℕ × NodeInfo → ℕ → Option String → Progress → Progress
advance node end_ (some e) p = record p { end_ = end_; last_err = e }
advance node end_ none p = record p { start = end_; end_ = end_; successful = some node }

module _ {W B : Type 0} (net : Network W B) {js : Parser} where
  unfoldable pub creator :
      ℕ × NodeInfo → List Record → Service js × W → (Service js × W) × Option String
  unfolding batch_created settled
  creator (i, n) records (s, w) =
      let (w1, reply) = net.create_records_with_id n.connection records w in
      let (s1, failure) = batch_created i records (settled reply) s in ((s1, w1), failure)

  unfoldable pub distribute :
      (per_node remainder : ℕ)
      → List Record
      → List (ℕ × NodeInfo)
      → Progress
      → Service js × W
      → (Service js × W) × Progress
  unfolding creator advance
  distribute per_node remainder records [] p sw = (sw, p)
  distribute per_node remainder records ((i, n) ∷ nodes) p sw =
      let end_ = p.end_ + per_node + (if ltb i remainder then 1 else 0) in
      let (sw1, failure) = creator (i, n) (take (end_ - p.start) (drop p.start records)) sw in
      distribute per_node remainder records nodes (advance (i, n) end_ failure p) sw1

  unfoldable pub delete_all_worker :
      List ℕ → ℕ × NodeInfo → Service js × W → (Service js × W) × Sent (Unit {0})
  unfolding update_status modify_at set_next_id_if_higher
  delete_all_worker ids (i, n) (s, w) =
      let (w1, _) = net.delete_records n.connection ids w in
      let (w2, n') = update_status net n w1 in
      (
        (
          set_next_id_if_higher n'.status.next_record_id
              (record s { nodes = modify_at i (λ _. n') s.nodes }),
          w2,
        ),
        nothing,
      )

  unfoldable pub delete_records : List ℕ → Service js × W → (Service js × W) × RecordResponse
  unfolding total_records do_parallel delete_all_worker numbered balance
  delete_records ids (s, w) =
      let (sw1, _) = do_parallel net (delete_all_worker ids) (numbered 0 s.nodes) (s, w) in
      let (s2, w2) = balance net sw1 in
      let deleted = (total_records s.nodes + uint64_mod - total_records s2.nodes) % uint64_mod in
      (
        (s2, w2),
        if length ids == deleted
            then record_success
            else err_record_response
                ("deleted " ◇ format_uint deleted ◇ " records out of " ◇ format_uint (length ids)),
      )

  -- the end of CreateRecordsWithId
  unfoldable pub balanced : Service js × W → (Service js × W) × RecordResponse
  unfolding balance
  balanced sw = (balance net sw, record_success)

  -- the last shares again, on a node that was successful, with the rollback
  unfoldable pub fall_back :
      List Record → ℕ × NodeInfo → Progress → Service js × W → (Service js × W) × RecordResponse
  unfolding creator delete_records balanced ids_of
  fall_back records (i, n) p sw =
      let (sw1, failure) = creator (i, n) (take (p.end_ - p.start) (drop p.start records)) sw in
      elim failure [
        | none ↦ balanced sw1
        | some e ↦
            let (sw2, _) = delete_records (ids_of records) sw1 in
            (
              sw2,
              err_record_response
                  ("Unable to create records on fallback node " ◇ format_uint n.id ◇ ": " ◇ e),
            )
      ]

  unfoldable pub distributed :
      List Record → (Service js × W) × Progress → (Service js × W) × RecordResponse
  unfolding fall_back balanced
  distributed records (sw, p) = elim (p.successful) [
    | none ↦
        (sw, err_record_response ("Cannot create records on nodes: last error = " ◇ p.last_err))
    | some node ↦ if p.start == p.end_ then balanced sw else fall_back records node p sw
  ]

  unfoldable pub create_records_with_id :
      List Record → Service js × W → (Service js × W) × RecordResponse
  unfolding distribute distributed numbered
  create_records_with_id records (s, w) =
      if length s.nodes == 0
      then ((s, w), err_record_response "No nodes available, try later")
      else distributed records (
          distribute (length records / length s.nodes) (length records % length s.nodes) records
            (numbered 0 s.nodes) (record { start = 0; end_ = 0; successful = none; last_err = "" })
            (s, w))
