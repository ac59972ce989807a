-- ===== src/Master/Balancer.antt =====
-- master/balancer.go
pub mod Total
use sum.Prelude.{
  ℕ, zero, suc, ◌+◌, ◌-◌, ◌/◌, ◌%◌, ◌^◌, Bool, true, false, Option, none, some, List, [], ◌∷◌, ◌||◌,
}
use sum.Prelude.Tests.{Result, ok, err, ◌==◌, nat_eq, ltb, leb, if◌then◌else◌}
use sum.Prelude.Lists.{length, get_elem?, set}
use sum.Prelude.Int.{ℤ, pos, negsuc, ◌+ℤ◌, ◌-ℤ◌, ltb_ℤ, is_zero}
use sum.Proto.{Record, ServerInfo, uint64_mod}
use sum.Master.Network.{Network}
use sum.Master.Replies.{settled, record_response}
use sum.Master.Raccoon.{Parser}
use sum.Master.State.{NodeInfo, Service, total_records, modify_at}

-- the value of an int64 after an operation
unfoldable pub int64 : ℤ → ℤ
int64 (pos n) =
    let m = n % uint64_mod in if ltb m (2 ^ 63) then pos m else negsuc (uint64_mod - 1 - m)
int64 (negsuc n) =
    let m = n % uint64_mod in if ltb m (2 ^ 63) then negsuc m else pos (uint64_mod - 1 - m)

-- uint64(n)
unfoldable pub uint64 : ℤ → ℕ
uint64 (pos n) = n % uint64_mod
uint64 (negsuc n) = uint64_mod - 1 - n % uint64_mod

unfoldable pub ids_of : List Record → List ℕ
ids_of [] = []
ids_of (r ∷ records) = r.id ∷ ids_of records

-- the loop over NextRecordId
unfoldable pub raise_next : List Record → ℕ → ℕ
raise_next [] next = next
raise_next (r ∷ records) next =
    raise_next records (if leb next r.id then (r.id + 1) % uint64_mod else next)

-- what a transfer makes of the status of the node that takes the records, and of the other
unfoldable pub receive : ℕ → List Record → NodeInfo → NodeInfo
unfolding raise_next
receive n records node = record node {
  status = record node.status {
    records = (node.status.records + n) % uint64_mod;
    next_record_id = raise_next records node.status.next_record_id;
  };
}

unfoldable pub give_away : ℕ → NodeInfo → NodeInfo
give_away n node = record node {
  status = record node.status { records = (node.status.records + uint64_mod - n) % uint64_mod };
}

-- `targets`, from the place `i` on
unfoldable pub targets_of : ℕ → ℕ → ℕ → List NodeInfo → List ℕ
targets_of i per_node reminder [] = []
targets_of i per_node reminder (n ∷ nodes) =
    (if ltb i reminder then per_node + 1 else per_node) ∷ targets_of (suc i) per_node reminder nodes

-- `deltas`
unfoldable pub deltas_of : List ℕ → List NodeInfo → List ℤ
unfolding int64
deltas_of (t ∷ targets) (n ∷ nodes) =
    int64 (int64 (pos t) -ℤ int64 (pos n.status.records)) ∷ deltas_of targets nodes
deltas_of _ _ = []

-- the 5% hysteresis
unfoldable pub needs_balancing : ℕ → List ℤ → Bool
unfolding int64
needs_balancing per_node [] = false
needs_balancing per_node (d ∷ deltas) =
    ltb_ℤ (int64 (pos (per_node / 20))) d || needs_balancing per_node deltas

unfoldable pub places : ℕ → ℕ → List ℕ
places i zero = []
places i (suc n) = i ∷ places (suc i) n

-- `deltas[i]`, for a place within the list
unfoldable pub delta_at : List ℤ → ℕ → ℤ
delta_at deltas i = elim (get_elem? deltas i) [ none ↦ pos 0 | some d ↦ d ]

-- What the loops change.
pub record Balancing (W : Type 0) : Type 0 where
  pub nodes : List NodeInfo
  pub deltas : List ℤ
  pub world : W

-- `nRecords`
unfoldable pub share : ℤ → ℤ → ℤ
unfolding int64
share delta delta2 = let n = int64 (pos 0 -ℤ delta2) in if ltb_ℤ delta n then delta else n

-- what a transfer from node `j` to node `i` makes of the nodes
unfoldable pub moved : (i j : ℕ) (n : ℕ) → Option (List Record) → List NodeInfo → List NodeInfo
unfolding modify_at receive give_away
moved i j n none nodes = nodes
moved i j n (some records) nodes = modify_at j (give_away n) (modify_at i (receive n records) nodes)

module _ {W B : Type 0} (net : Network W B) where
  -- The calls of transfer. Where it returns early there are no records.
  unfoldable pub transfer : (from_node to_node : NodeInfo) (n : ℕ) → W → W × Option (List Record)
  unfolding ids_of settled
  transfer from_node to_node n w =
      let (w1, list) =
        net.list_records from_node.connection (record { page = 1; per_page = n }) w in
      elim list [
        | err _ ↦ (w1, none)
        | ok l ↦
            let (w2, resp) = net.create_records_with_id to_node.connection l.items w1 in
            elim (settled resp) [
              | err _ ↦ (w2, none)
              | ok _ ↦
                  let (w3, _) = net.delete_records from_node.connection (ids_of l.items) w2 in
                  (w3, some l.items)
            ]
      ]

  unfoldable pub transfer_at : (i j : ℕ) (n : ℤ) → Balancing W → Balancing W
  unfolding transfer moved uint64
  transfer_at i j n b = elim (get_elem? b.nodes j) [
    | none ↦ b
    | some from_node ↦ elim (get_elem? b.nodes i) [
      | none ↦ b
      | some to_node ↦
          let (w1, records) = transfer from_node to_node (uint64 n) b.world in
          record b { nodes = moved i j (uint64 n) records b.nodes; world = w1 }
    ]
  ]

  -- one round of the inner loop, where node `j` gives
  unfoldable pub exchange : (i j : ℕ) (n : ℤ) → Balancing W → Balancing W
  unfolding transfer_at delta_at int64
  exchange i j n b =
      let b1 = transfer_at i j n b in
      let deltas1 = set b1.deltas i (int64 (delta_at b1.deltas i -ℤ n)) in
      record b1 { deltas = set deltas1 j (int64 (delta_at deltas1 j +ℤ n)) }

  -- the inner loop, where node `i` takes
  unfoldable pub consume : (i : ℕ) (js : List ℕ) (delta : ℤ) → Balancing W → Balancing W
  unfolding exchange share delta_at int64
  consume i [] delta b = b
  consume i (j ∷ js) delta b =
      let delta2 = delta_at b.deltas j in
      let n = share delta delta2 in
      let rest = consume i js (int64 (delta -ℤ n)) (exchange i j n b) in
      elim (ltb_ℤ delta2 (pos 0)) [
        | false ↦ consume i js delta b
        | true ↦ elim (is_zero n) [
          | true ↦ consume i js delta b
          | false ↦ elim (is_zero (int64 (delta -ℤ n))) [ true ↦ exchange i j n b | false ↦ rest ]
        ]
      ]

  -- the outer loop
  unfoldable pub supply : (is js : List ℕ) → Balancing W → Balancing W
  unfolding consume delta_at
  supply [] js b = b
  supply (i ∷ is) js b =
      let delta = delta_at b.deltas i in
      supply is js (if ltb_ℤ (pos 0) delta then consume i js delta b else b)

  -- the loops, for the deltas
  unfoldable pub rebalance : List ℤ → List NodeInfo → W → W × List NodeInfo
  unfolding supply places
  rebalance deltas nodes w =
      let all = places 0 (length nodes) in
      let b = supply all all (record { nodes = nodes; deltas = deltas; world = w }) in
      (b.world, b.nodes)

  unfoldable pub balance_nodes : List NodeInfo → W → W × List NodeInfo
  unfolding total_records targets_of deltas_of needs_balancing rebalance
  balance_nodes nodes w =
      let total = total_records nodes in
      let n = length nodes in
      let per_node = total / n in
      let deltas = deltas_of (targets_of 0 per_node (total % n) nodes) nodes in
      if (total == 0) || (n == 0)
      then (w, nodes)
      else if needs_balancing per_node deltas
      then rebalance deltas nodes w
      else (w, nodes)

  unfoldable pub balance : {js : Parser} → Service js × W → Service js × W
  unfolding balance_nodes
  balance (s, w) = let (w1, nodes') = balance_nodes s.nodes w in (record s { nodes = nodes' }, w1)
