-- ===== src/Master/Nodes.antt =====
-- master/mux_nodes.go
use sum.Prelude.{ℕ, suc, ◌+◌, ◌-◌, ◌/◌, ◌%◌, String, true, none, some, List, [], ◌∷◌, ◌++◌}
use sum.Prelude.Tests.{ok, err, ◌◇◌, ◌==◌, nat_eq, ltb, if◌then◌else◌}
use sum.Prelude.Lists.{length, take, set}
use sum.Prelude.Decimal.{format_uint}
use sum.Prelude.Int.{pos}
use sum.Proto.{NodeEntry, NodeResponse, uint64_mod}
use sum.Node.Interpreter.{Ending, returned, failed, panicked, Panic}
use sum.Master.Network.{Network}
use sum.Master.Replies.{err_node_response}
use sum.Master.Raccoon.{Parser}
use sum.Master.State.{NodeInfo, Service, set_next_id_if_higher, create_node}
use sum.Master.Balancer.{balance, transfer, receive, uint64, int64}
use sum.Master.Stealer.{steal_oracles_from_node}
use sum.Master.Configuration.{update_config}

-- ListNodes
unfoldable pub entries : List NodeInfo → List NodeEntry
entries [] = []
entries (n ∷ nodes) = record { id = n.id; name = n.name; info = some n.status } ∷ entries nodes

unfoldable pub list_nodes : {js : Parser} → Service js → NodeResponse
unfolding entries
list_nodes s = record { success = true; msg = ""; nodes = entries s.nodes }

-- the search of DeleteNode: the first node of the identifier, or else the last node, with its place
unfoldable pub search_node : (id i : ℕ) → NodeInfo → List NodeInfo → ℕ × NodeInfo
search_node id i n [] = (i, n)
search_node id i n (m ∷ nodes) =
    let later = search_node id (suc i) m nodes in if n.id == id then (i, n) else later

-- the last node in place of the one at `i`, and one node less
unfoldable pub remove_at : ℕ → NodeInfo → List NodeInfo → List NodeInfo
remove_at i last nodes = take (length nodes - 1) (set nodes i last)

unfoldable pub last_of : NodeInfo → List NodeInfo → NodeInfo
last_of n [] = n
last_of n (m ∷ nodes) = last_of m nodes

module _ {W B : Type 0} (net : Network W B) where
  -- the end of AddNode; the configuration is written when the lock is free
  unfoldable pub announced :
      {js : Parser} → NodeInfo → Ending (Service js × W) → Ending ((Service js × W) × NodeResponse)
  unfolding update_config
  announced n (returned (s, w)) =
      returned
        ((s, update_config net s w), record { success = true; msg = format_uint n.id; nodes = [] })
  announced n (failed e) = failed e
  announced n (panicked e) = panicked e

  -- the new node takes its identifier and its place
  unfoldable pub enlisted : {js : Parser} → NodeInfo → Service js → Service js
  unfolding set_next_id_if_higher
  enlisted n s =
      let s1 = set_next_id_if_higher n.status.next_record_id s in
      record s1 {
        nodes = s1.nodes ++ record n { id = s1.next_node_id } ∷ [];
        next_node_id = (s1.next_node_id + 1) % uint64_mod;
      }

  unfoldable pub add_node :
      {js : Parser}
      → (address cert_file : String) → Service js × W
      → Ending ((Service js × W) × NodeResponse)
  unfolding enlisted balance steal_oracles_from_node announced create_node
  add_node address cert_file (s, w) =
      let (w1, made) = create_node net address cert_file w in
      elim made [
        | err e ↦ returned ((s, w1), err_node_response ("Cannot create node: " ◇ e))
        | ok n ↦
            let s1 = enlisted n s in
            let (s2, w2) = balance net (s1, w1) in
            let new_node = last_of n s2.nodes in
            announced new_node (steal_oracles_from_node net (length s.nodes) new_node (s2, w2))
      ]

  -- the loop over the nodes that are left, from the place `i` on
  unfoldable pub spread :
      (per_node remainder i : ℕ) → NodeInfo → List NodeInfo → W → W × List NodeInfo
  unfolding transfer receive uint64 int64
  spread per_node remainder i n [] w = (w, [])
  spread per_node remainder i n (n1 ∷ nodes) w =
      let target = uint64 (int64 (pos (if ltb i remainder then per_node + 1 else per_node))) in
      let (w1, records) = transfer net n n1 target w in
      let (w2, nodes') = spread per_node remainder (suc i) n nodes w1 in
      (w2, elim records [ none ↦ n1 | some l ↦ receive target l n1 ] ∷ nodes')

  -- DeleteNode after the node has left the list
  unfoldable pub hand_over : NodeInfo → List NodeInfo → W → W × List NodeInfo
  unfolding spread
  hand_over n nodes w =
      let n_records = n.status.records in
      let n_nodes = length nodes in
      if ltb 0 n_nodes
      then if ltb 0 n_records
        then spread (n_records / n_nodes) (n_records % n_nodes) 0 n nodes w
        else (w, nodes)
      else (w, nodes)

  unfoldable pub delete_node :
      {js : Parser} → ℕ → Service js × W → Ending ((Service js × W) × NodeResponse)
  unfolding search_node remove_at last_of hand_over update_config
  delete_node id (s, w) = elim (s.nodes) [
    | [] ↦ panicked (Panic.error "runtime error: invalid memory address or nil pointer dereference")
    | first ∷ others ↦
        let (i, n) = search_node id 0 first others in
        if n.id == id
        then (let (w1, nodes') =
              hand_over n (remove_at i (last_of first others) (first ∷ others)) w in
            let s1 = record s { nodes = nodes' } in
            returned
              ((s1, update_config net s1 w1), record { success = true; msg = ""; nodes = [] }))
        else returned ((s, w), err_node_response ("node " ◇ format_uint id ◇ " not found."))
  ]
