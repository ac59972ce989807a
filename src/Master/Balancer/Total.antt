-- ===== src/Master/Balancer/Total.antt =====
-- The records that the statuses count, before and after balancing (master/balancer.go).
use sum.Prelude.{
  ℕ, zero, suc, ◌+◌, ◌-◌, ◌/◌, ◌%◌, ◌<◌, ◌≡◌, ◌∙◌, refl, arith, Option, none, some, List, [], ◌∷◌,
  inl, inr,
}
use sum.Prelude.Tests.{nat_eq, Option-cases}
use sum.Prelude.Lists.{length, get_elem?}
use sum.Prelude.Int.{ℤ, pos, negsuc, ◌-ℤ◌}
use sum.Proto.{Record, uint64_mod}
use sum.Master.Network.{Network}
use sum.Master.State.{NodeInfo, total_records, modify_at}
use sum.Master.Balancer.{
  int64, uint64, receive, give_away, Balancing, share, delta_at, moved, transfer, transfer_at,
  exchange, consume, supply, rebalance, balance_nodes, places, deltas_of, targets_of,
}

-- a change of one status is a change of the total
pub total_modify_at :
    (i n m : ℕ) (change : NodeInfo → NodeInfo) (node : NodeInfo) (nodes : List NodeInfo)
    → get_elem? nodes i ≡ some node
    → (change node).status.records ≡ (node.status.records + n) % uint64_mod
    → (m + n) % uint64_mod ≡ 0
    → (total_records (modify_at i change nodes) + m) % uint64_mod ≡ total_records nodes % uint64_mod
unfolding total_records modify_at
total_modify_at i n m change node [] h e k = cc
total_modify_at zero n m change node (x ∷ nodes) h e k =
    let here : x ≡ node = ground arith in rw (here, e) (omega (arith, k))
total_modify_at (suc i) n m change node (x ∷ nodes) h e k =
    omega (arith, total_modify_at i n m change node nodes h e k)

pub get_elem?-modify_at :
    (i j : ℕ) (change : NodeInfo → NodeInfo) (node : NodeInfo) (nodes : List NodeInfo)
    → get_elem? nodes j ≡ some node
    → (node' : NodeInfo) × (get_elem? (modify_at i change nodes) j ≡ some node')
unfolding modify_at
get_elem?-modify_at i j change node [] h = cc
get_elem?-modify_at zero zero change node (x ∷ nodes) h = (change x, refl)
get_elem?-modify_at zero (suc j) change node (x ∷ nodes) h = (node, h)
get_elem?-modify_at (suc i) zero change node (x ∷ nodes) h = (x, refl)
get_elem?-modify_at (suc i) (suc j) change node (x ∷ nodes) h =
    get_elem?-modify_at i j change node nodes h

pub total-lt-mod : (nodes : List NodeInfo) → total_records nodes < uint64_mod
unfolding total_records
total-lt-mod [] = omega arith
total-lt-mod (x ∷ nodes) = omega arith

uint64-lt-mod : (n : ℤ) → uint64 n < uint64_mod
unfolding uint64
uint64-lt-mod (pos n) = omega arith
uint64-lt-mod (negsuc n) = omega arith

total-moved :
    (i j n : ℕ) (records : Option (List Record)) (from_node to_node : NodeInfo)
    (nodes : List NodeInfo)
    → get_elem? nodes j ≡ some from_node
    → get_elem? nodes i ≡ some to_node
    → n < uint64_mod
    → total_records (moved i j n records nodes) ≡ total_records nodes
unfolding moved receive give_away
total-moved i j n none from_node to_node nodes g h b = refl
total-moved i j n (some records) from_node to_node nodes g h b =
    let taken = modify_at i (receive n records) nodes in
    let (giver, there) = get_elem?-modify_at i j (receive n records) from_node nodes g in
    omega (
      arith,
      total_modify_at i n (uint64_mod - n) (receive n records) to_node nodes h refl (omega arith),
      total_modify_at j (uint64_mod - n) n (give_away n) giver taken there (omega arith)
          (omega arith),
      total-lt-mod nodes,
      total-lt-mod (modify_at j (give_away n) taken),
    )

module _ {W B : Type 0} (net : Network W B) where
  total-transfer_at :
      (i j : ℕ) (n : ℤ) (b : Balancing W)
      → total_records (transfer_at net i j n b).nodes ≡ total_records b.nodes
  unfolding transfer_at
  total-transfer_at i j n b = elim (Option-cases (get_elem? b.nodes j)) [
    | inl e ↦ rw (e, transfer_at) refl
    | inr (from_node, e) ↦ elim (Option-cases (get_elem? b.nodes i)) [
      | inl f ↦ rw (e, transfer_at, f) refl
      | inr (to_node, f) ↦
          rw (e, transfer_at, f)
            (total-moved i j (uint64 n) (transfer net from_node to_node (uint64 n) b.world).1
              from_node to_node b.nodes e f (uint64-lt-mod n))
    ]
  ]

  total-exchange :
      (i j : ℕ) (n : ℤ) (b : Balancing W)
      → total_records (exchange net i j n b).nodes ≡ total_records b.nodes
  unfolding exchange
  total-exchange i j n b = total-transfer_at i j n b

  total-consume :
      (i : ℕ) (js : List ℕ) (delta : ℤ) (b : Balancing W)
      → total_records (consume net i js delta b).nodes ≡ total_records b.nodes
  unfolding consume
  total-consume i [] delta b = refl
  total-consume i (j ∷ js) delta b =
      let n = share delta (delta_at b.deltas j) in
      ground (
        arith,
        total-consume i js delta b,
        total-consume i js (int64 (delta -ℤ n)) (exchange net i j n b),
        total-exchange i j n b,
      )

  total-supply :
      (is js : List ℕ) (b : Balancing W)
      → total_records (supply net is js b).nodes ≡ total_records b.nodes
  unfolding supply
  total-supply [] js b = refl
  total-supply (i ∷ is) js b =
      total-supply is js _ ∙ ground (arith, total-consume i js (delta_at b.deltas i) b)

  -- Balancing leaves the total of the records that the nodes' statuses count as it was, modulo
  -- 2^64, whatever the nodes answer.
  pub balance_nodes-total :
      (nodes : List NodeInfo) (w : W)
      → total_records (balance_nodes net nodes w).1 ≡ total_records nodes
  unfolding balance_nodes rebalance
  balance_nodes-total nodes w =
      let n = length nodes in
      let deltas =
        deltas_of (targets_of 0 (total_records nodes / n) (total_records nodes % n) nodes) nodes in
      ground (
        arith,
        total-supply (places 0 n) (places 0 n)
            (record { nodes = nodes; deltas = deltas; world = w }),
      )
