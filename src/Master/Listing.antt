-- ===== src/Master/Listing.antt =====
-- ListRecords of master/mux_records.go.
pub mod Partial
use sum.Prelude.{ℕ, suc, ◌+◌, ◌-◌, ◌*◌, ◌%◌, Option, none, some, List, [], ◌∷◌, ◌++◌, ◌&&◌}
use sum.Prelude.Tests.{ok, err, ◌==◌, nat_eq, ltb, leb, if◌then◌else◌}
use sum.Prelude.Lists.{take, drop}
use sum.Proto.{Record, ListRequest, ListResponse, uint64_mod}
use sum.Node.Paging.{at_least_one, num_pages}
use sum.Master.Network.{Network}
use sum.Master.Raccoon.{Parser}
use sum.Master.State.{NodeInfo, Service, total_records}
use sum.Master.Parallel.{Sent, send_result, send_error, do_parallel}

-- sort.Slice by identifier, for nodes that do not share one
unfoldable pub insert_by_id : NodeInfo → List NodeInfo → List NodeInfo
insert_by_id n [] = n ∷ []
insert_by_id n (m ∷ nodes) = if leb n.id m.id then n ∷ m ∷ nodes else m ∷ insert_by_id n nodes

unfoldable pub sort_nodes : List NodeInfo → List NodeInfo
unfolding insert_by_id
sort_nodes [] = []
sort_nodes (n ∷ nodes) = insert_by_id n (sort_nodes nodes)

-- What the loop over the nodes keeps; `none` is the index -1.
pub record Window : Type 0 where
  pub cursor : ℕ
  pub first : Option ℕ
  pub last : Option ℕ
  pub last_node_id : ℕ
  pub last_node_records : ℕ

-- the loop, from the place `i` on
unfoldable pub find_window : (start end_ : ℕ) → (i : ℕ) → List NodeInfo → Window → Window
find_window start end_ i [] v = v
find_window start end_ i (n ∷ nodes) v =
    let after = (v.cursor + n.status.records) % uint64_mod in
    let first1 : Option ℕ = if leb v.cursor start && ltb start after then some i else v.first in
    let found = record v {
      first = first1;
      last = some i;
      last_node_id = n.id;
      last_node_records = end_ - v.cursor;
    } in
    let rest =
      find_window start end_ (suc i) nodes
        (record v { cursor = after; first = first1; last_node_id = n.id }) in
    if ltb v.cursor end_ && leb end_ after then found else rest

-- the nodes to query; `none` where an index is -1
unfoldable pub nodes_of : Window → List NodeInfo → Option (List NodeInfo)
nodes_of v nodes = elim (v.first) [
  | none ↦ none
  | some i ↦ elim (v.last) [ none ↦ none | some j ↦ some (take (j + 1 - i) (drop i nodes)) ]
]

unfoldable pub concat : List (List Record) → List Record
concat [] = []
concat (l ∷ lists) = l ++ concat lists

module _ {W B : Type 0} (net : Network W B) where
  unfoldable pub list_worker :
      Window → NodeInfo → (Unit {0}) × W → ((Unit {0}) × W) × Sent (List Record)
  list_worker v n (u, w) =
      let per_node = if n.id == v.last_node_id then v.last_node_records else n.status.records in
      let (w1, reply) =
        net.list_records n.connection (record { page = 1; per_page = per_node }) w in
      ((u, w1), elim reply [ err e ↦ send_error e | ok resp ↦ send_result resp.items ])

  unfoldable pub list_window :
      (total pages : ℕ) → Window → List NodeInfo → W → W × ListResponse Record
  unfolding list_worker do_parallel nodes_of concat
  list_window total pages v nodes w = elim (nodes_of v nodes) [
    | none ↦ (w, record { total = total; pages = pages; items = [] })
    | some to_query ↦
        let ((_, w1), (lists, _)) = do_parallel net (list_worker v) to_query (tt, w) in
        (w1, record { total = total; pages = pages; items = concat lists })
  ]

  unfoldable pub list_records :
      {js : Parser} → ListRequest → Service js → W → W × ListResponse Record
  unfolding list_window find_window sort_nodes total_records
  list_records req s w =
      let page = at_least_one req.page in
      let per_page = at_least_one req.per_page in
      let total = total_records s.nodes in
      let start = (per_page * (page - 1)) % uint64_mod in
      let end_ = (start + per_page) % uint64_mod in
      let nodes = sort_nodes s.nodes in
      let v = find_window start end_ 0 nodes (record {
        cursor = 0;
        first = none;
        last = none;
        last_node_id = 1;
        last_node_records = 0;
      }) in
      list_window total (num_pages total per_page) v nodes w
