-- ===== src/Master/Batch/Total.antt =====
-- The records that the nodes count after CreateRecordsWithId (master/mux_records.go).
use sum.Prelude.{
  ℕ, ◌+◌, ◌-◌, ◌/◌, ◌%◌, ◌≤◌, ◌<◌, ◌≡◌, ◌∙◌, sym, subst, refl, ap, arith, true, none, some, List,
  [], ◌∷◌,
}
use sum.Prelude.Tests.{ok, ◌==◌, nat_eq, ltb, if◌then◌else◌, beq_self}
use sum.Prelude.Lists.{length, get_elem?, take, drop}
use sum.Proto.{Record, RecordResponse, uint64_mod}
use sum.Master.Network.{Network}
use sum.Master.Replies.{settled, record_response}
use sum.Master.Raccoon.{Parser}
use sum.Master.State.{NodeInfo, Service, numbered, modify_at, total_records, set_next_id_if_higher}
use sum.Master.Balancer.{balance}
use sum.Master.Balancer.Total.{total-lt-mod, balance_nodes-total}
use sum.Master.Records.{record_success}
use sum.Master.Batch.{
  count_batch, max_id, batch_created, creator, Progress, advance, distribute, distributed, balanced,
  create_records_with_id,
}
use sum.Master.Batch.Shares.{
  total-count_batch, not_empty, zero_plus, mod_le, div_mod, ArePlaced, still_placed,
  numbered-ArePlaced, shares, shares_lem, length-slice,
}

-- Every node accepts every batch.
abbrev pub Accepts : {W B : Type 0} → Network W B → Type 0
Accepts {W} net =
    (connection : ℕ) (l : List Record) (w : W)
    → (resp : RecordResponse) × (settled (net.create_records_with_id connection l w).1 ≡ ok resp)

-- the end of the next share, and the share
abbrev next_end : (per_node remainder i : ℕ) → Progress → ℕ
next_end per_node remainder i p = p.end_ + per_node + (if ltb i remainder then 1 else 0)

abbrev next_batch : (per_node remainder i : ℕ) → List Record → Progress → List Record
next_batch per_node remainder i records p =
    take (next_end per_node remainder i p - p.start) (drop p.start records)

module _ {W B : Type 0} (net : Network W B) {js : Parser} where
  nodes_of-set_next : (id : ℕ) (s : Service js) → (set_next_id_if_higher id s).nodes ≡ s.nodes
  unfolding set_next_id_if_higher
  nodes_of-set_next id s = ground arith

  batch_ok :
      (i : ℕ) (l : List Record) (resp : RecordResponse) (s : Service js)
      → (batch_created i l (ok resp) s).1 ≡ none
  unfolding batch_created
  batch_ok i l resp s = refl

  nodes_of-batch :
      (i : ℕ) (l : List Record) (resp : RecordResponse) (s : Service js)
      → (batch_created i l (ok resp) s).0.nodes
        ≡ modify_at i (count_batch (length l) (max_id 0 l)) s.nodes
  unfolding batch_created
  nodes_of-batch i l resp s = ground (
    arith,
    nodes_of-set_next ((max_id 0 l + 1) % uint64_mod)
        (record s { nodes = modify_at i (count_batch (length l) (max_id 0 l)) s.nodes }),
  )

  creator_lem :
      (i : ℕ) (n : NodeInfo) (l : List Record) (sw : Service js × W)
      → Accepts net
      → ((creator net (i, n) l sw).1 ≡ none)
        × ((creator net (i, n) l sw).0.0.nodes
            ≡ modify_at i (count_batch (length l) (max_id 0 l)) sw.0.nodes)
  unfolding creator
  creator_lem i n l sw h =
      let (resp, e) = h n.connection l sw.1 in
      rw (e, creator) (batch_ok i l resp sw.0, nodes_of-batch i l resp sw.0)

  -- one round, of which the node accepts its share
  distribute_step :
      (per_node remainder i : ℕ) (n : NodeInfo) (records : List Record) (l : List (ℕ × NodeInfo))
      (p : Progress) (sw : Service js × W)
      → (creator net (i, n) (next_batch per_node remainder i records p) sw).1 ≡ none
      → distribute net per_node remainder records ((i, n) ∷ l) p sw
        ≡ distribute net per_node remainder records l
            (record p {
              start = next_end per_node remainder i p;
              end_ = next_end per_node remainder i p;
              successful = some (i, n);
            })
            (creator net (i, n) (next_batch per_node remainder i records p) sw).0
  unfolding distribute advance
  distribute_step per_node remainder i n records l p sw fine =
      ap
        (λ f.
          distribute net per_node remainder records l
            (advance (i, n) (next_end per_node remainder i p) f p)
            (creator net (i, n) (next_batch per_node remainder i records p) sw).0)
        fine

  distribute_lem :
      (per_node remainder : ℕ) (records : List Record) (l : List (ℕ × NodeInfo)) (p : Progress)
      (sw : Service js × W)
      → Accepts net
      → ArePlaced sw.0.nodes l
      → p.start ≡ p.end_
      → p.end_ + shares per_node remainder l ≤ length records
      → ((distribute net per_node remainder records l p sw).1.start
          ≡ (distribute net per_node remainder records l p sw).1.end_)
        × (total_records (distribute net per_node remainder records l p sw).0.0.nodes
            ≡ (total_records sw.0.nodes + shares per_node remainder l) % uint64_mod)
  unfolding distribute shares
  distribute_lem per_node remainder records [] p sw h a e b =
      (e, omega (arith, total-lt-mod sw.0.nodes))
  distribute_lem per_node remainder records ((i, n) ∷ l) p sw h ((m, at), a) e b =
      let end_ = next_end per_node remainder i p in
      let batch = next_batch per_node remainder i records p in
      let (fine, changed) = creator_lem i n batch sw h in
      let sw1 = (creator net (i, n) batch sw).0 in
      let p1 : Progress = record p { start = end_; end_ = end_; successful = some (i, n) } in
      let size : length batch ≡ end_ - p.start =
        length-slice p.start end_ records (omega (arith, e)) (omega (arith, b)) in
      let counted : total_records sw1.0.nodes
          ≡ (total_records sw.0.nodes + length batch) % uint64_mod =
        ap total_records changed
        ∙ total-count_batch i (length batch) (max_id 0 batch) m sw.0.nodes at in
      let (same, total) =
        distribute_lem per_node remainder records l p1 sw1 h
          (subst (λ nodes. ArePlaced nodes l) (sym changed)
            (still_placed i (count_batch (length batch) (max_id 0 batch)) sw.0.nodes l a))
          refl (omega (arith, b)) in
      subst
        (λ (o : (Service js × W) × Progress).
          (o.1.start ≡ o.1.end_)
          × (total_records o.0.0.nodes
              ≡ (total_records sw.0.nodes + shares per_node remainder ((i, n) ∷ l)) % uint64_mod))
        (sym (distribute_step per_node remainder i n records l p sw fine))
        (same, total ∙ omega (arith, counted, size, e))

  total-balanced :
      (sw : Service js × W) → total_records (balance net sw).0.nodes ≡ total_records sw.0.nodes
  unfolding balance
  total-balanced sw = balance_nodes-total net sw.0.nodes sw.1

  distributed_all :
      (records : List Record) (o : (Service js × W) × Progress) (node : ℕ × NodeInfo)
      → o.1.successful ≡ some node
      → o.1.start ≡ o.1.end_
      → distributed net records o ≡ (balance net o.0, record_success)
  unfolding distributed balanced
  distributed_all records o node h e =
      let done : (o.1.start == o.1.end_) ≡ true = rw e (beq_self o.1.end_) in
      rw (h, distributed, done) refl

  -- the end of CreateRecordsWithId, where the loop has handed all records out
  distributed_lem :
      (records : List Record) (o : (Service js × W) × Progress) (node : ℕ × NodeInfo)
      → o.1.successful ≡ some node
      → o.1.start ≡ o.1.end_
      → ((distributed net records o).1 ≡ record_success)
        × (total_records (distributed net records o).0.0.nodes ≡ total_records o.0.0.nodes)
  distributed_lem records o node h e =
      subst
        (λ (r : (Service js × W) × RecordResponse).
          (r.1 ≡ record_success) × (total_records r.0.0.nodes ≡ total_records o.0.0.nodes))
        (sym (distributed_all records o node h e)) (refl, total-balanced o.0)

  distribute_successful :
      (per_node remainder : ℕ) (records : List Record) (l : List (ℕ × NodeInfo)) (p : Progress)
      (sw : Service js × W) (node : ℕ × NodeInfo)
      → Accepts net
      → p.successful ≡ some node
      → (node' : ℕ × NodeInfo) × ((distribute net per_node remainder records l p sw).1.successful
          ≡ some node')
  unfolding distribute
  distribute_successful per_node remainder records [] p sw node h e = (node, e)
  distribute_successful per_node remainder records ((i, n) ∷ l) p sw node h e =
      let fine = (creator_lem i n (next_batch per_node remainder i records p) sw h).0 in
      rw (distribute_step per_node remainder i n records l p sw fine)
        (distribute_successful per_node remainder records l _ _ (i, n) h refl)

  some_successful :
      (per_node remainder : ℕ) (records : List Record) (nodes : List NodeInfo) (p : Progress)
      (sw : Service js × W)
      → Accepts net
      → 0 < length nodes
      → (node' : ℕ × NodeInfo) × ((distribute net per_node remainder records
            (numbered 0 nodes)
            p
            sw).1.successful
          ≡ some node')
  unfolding numbered
  some_successful per_node remainder records [] p sw h b = absurd (omega arith)
  some_successful per_node remainder records (n ∷ nodes) p sw h b =
      let fine = (creator_lem 0 n (next_batch per_node remainder 0 records p) sw h).0 in
      rw (distribute_step per_node remainder 0 n records (numbered 1 nodes) p sw fine)
        (distribute_successful per_node remainder records (numbered 1 nodes) _ _ (0, n) h refl)

  -- Over nodes that accept every batch, of which there is at least one, CreateRecordsWithId
  -- succeeds, and the nodes count as many records more as it was given, modulo 2^64, after the
  -- balancing too.
  pub create_records_with_id-total :
      (records : List Record) (s : Service js) (w : W) (n : NodeInfo) (rest : List NodeInfo)
      → Accepts net
      → s.nodes ≡ n ∷ rest
      → ((create_records_with_id net records (s, w)).1 ≡ record_success)
        × (total_records (create_records_with_id net records (s, w)).0.0.nodes
            ≡ (total_records s.nodes + length records) % uint64_mod)
  unfolding create_records_with_id
  create_records_with_id-total records s w n rest h e =
      let k = length s.nodes in
      let per_node = length records / k in
      let remainder = length records % k in
      let some_node : 0 < k = rw e (omega arith) in
      let whole = shares_lem per_node remainder 0 s.nodes (mod_le (length records) k some_node) in
      let all : shares per_node remainder (numbered 0 s.nodes) ≡ length records =
        whole ∙ div_mod (length records) k some_node in
      let p : Progress = record { start = 0; end_ = 0; successful = none; last_err = "" } in
      let (same, total) =
        distribute_lem per_node remainder records (numbered 0 s.nodes) p (s, w) h
          (numbered-ArePlaced s.nodes 0 s.nodes (λ j. ap (get_elem? s.nodes) (zero_plus j))) refl
          (omega (arith, all)) in
      let (node, done) = some_successful per_node remainder records s.nodes p (s, w) h some_node in
      let (answered, kept) =
        distributed_lem records
          (distribute net per_node remainder records (numbered 0 s.nodes) p (s, w)) node done
          same in
      rw (not_empty k some_node)
        (answered, kept ∙ total ∙ ap (λ x. (total_records s.nodes + x) % uint64_mod) all)
