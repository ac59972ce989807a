-- ===== src/Master/Listing/Partial.antt =====
-- Pages that end behind the last record (ListRecords of master/mux_records.go).
use sum.Prelude.{
  ℕ, zero, suc, ◌+◌, ◌-◌, ◌*◌, ◌%◌, ◌<◌, ◌≤◌, ◌≡◌, refl, Option, none, some, List, [], ◌∷◌, ◌&&◌,
  arith,
}
use sum.Prelude.Tests.{ltb, leb, if◌then◌else◌}
use sum.Proto.{ListRequest, uint64_mod}
use sum.Node.Paging.{at_least_one, num_pages}
use sum.Master.Network.{Network}
use sum.Master.Raccoon.{Parser}
use sum.Master.State.{NodeInfo, Service, total_records}
use sum.Master.Listing.{
  insert_by_id, sort_nodes, Window, find_window, nodes_of, list_window, list_records,
}

-- the records that the statuses count, without wrap-around
abbrev pub sum_records : List NodeInfo → ℕ
sum_records [] = 0
sum_records (n ∷ nodes) = n.status.records + sum_records nodes

sum-insert :
    (n : NodeInfo) (nodes : List NodeInfo)
    → sum_records (insert_by_id n nodes) ≡ n.status.records + sum_records nodes
unfolding insert_by_id
sum-insert n [] = omega arith
sum-insert n (m ∷ nodes) = ground (arith, sum-insert n nodes)

sum-sort : (nodes : List NodeInfo) → sum_records (sort_nodes nodes) ≡ sum_records nodes
unfolding sort_nodes
sum-sort [] = refl
sum-sort (n ∷ nodes) = omega (arith, sum-insert n (sort_nodes nodes), sum-sort nodes)

no_last :
    (start end_ i : ℕ) (nodes : List NodeInfo) (v : Window)
    → v.cursor + sum_records nodes < end_
    → end_ < uint64_mod
    → v.last ≡ none
    → (find_window start end_ i nodes v).last ≡ none
unfolding find_window
no_last start end_ i [] v h b e = e
no_last start end_ i (n ∷ nodes) v h b e =
    let after = (v.cursor + n.status.records) % uint64_mod in
    let first1 : Option ℕ = if leb v.cursor start && ltb start after then some i else v.first in
    let sum : after ≡ v.cursor + n.status.records = omega arith in
    ground (
      arith,
      sum,
      no_last start end_ (suc i) nodes
          (record v { cursor = after; first = first1; last_node_id = n.id }) (omega (arith, sum)) b
          e,
    )

nodes_of-none : (v : Window) (nodes : List NodeInfo) → v.last ≡ none → nodes_of v nodes ≡ none
unfolding nodes_of
nodes_of-none v nodes e = ground (arith, e)

page_end_lem :
    (p r : ℕ) → 1 ≤ r → p * r < uint64_mod → ((p * (r - 1)) % uint64_mod + p) % uint64_mod ≡ p * r
page_end_lem p zero h b = absurd (omega arith)
page_end_lem p (suc q) h b = grind arith

list_window-none :
    {W B : Type 0} (net : Network W B) (total pages : ℕ) (v : Window) (nodes : List NodeInfo)
    (w : W)
    → v.last ≡ none
    → list_window net total pages v nodes w
      ≡ (w, record { total = total; pages = pages; items = [] })
unfolding list_window
list_window-none net total pages v nodes w e = rw (nodes_of-none v nodes e, list_window) refl

-- Where the sizes fit 64 bits, a page that ends behind the last record is answered by ListRecords
-- of the master without records, and no node is asked.
pub list_records_partial :
    {W B : Type 0} {js : Parser} (net : Network W B) (req : ListRequest) (s : Service js) (w : W)
    → at_least_one req.per_page * at_least_one req.page < uint64_mod
    → sum_records s.nodes < at_least_one req.per_page * at_least_one req.page
    → list_records net req s w ≡ (
      w,
      record {
        total = total_records s.nodes;
        pages = num_pages (total_records s.nodes) (at_least_one req.per_page);
        items = [];
      },
    )
unfolding list_records
list_records_partial net req s w b h =
    let p = at_least_one req.per_page in
    let r = at_least_one req.page in
    let start = (p * (r - 1)) % uint64_mod in
    let e = page_end_lem p r (ground arith) b in
    let nodes = sort_nodes s.nodes in
    let v : Window = record {
      cursor = 0;
      first = none;
      last = none;
      last_node_id = 1;
      last_node_records = 0;
    } in
    list_window-none net _ _ (find_window start ((start + p) % uint64_mod) 0 nodes v) nodes w (
      no_last start ((start + p) % uint64_mod) 0 nodes v (omega (arith, e, sum-sort s.nodes))
        (omega (arith, e)) refl)
