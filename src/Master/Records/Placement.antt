-- ===== src/Master/Records/Placement.antt =====
-- The node that takes a new record (_findLessLoadedNode of master/mux_records.go).
use sum.Prelude.{ℕ, zero, suc, ◌+◌, ◌≤◌, ◌≡◌, ◌∙◌, ap, refl, some, List, [], ◌∷◌, inl, inr, arith}
use sum.Prelude.Tests.{ltb, Bool-cases}
use sum.Prelude.Lists.{get_elem?}
use sum.Master.State.{NodeInfo, numbered}
use sum.Master.Records.{less_loaded_than, find_less_loaded_node}

suc_add : (k j : ℕ) → suc k + j ≡ k + suc j
suc_add k j = omega arith

add_zero : (k : ℕ) → k ≡ k + 0
add_zero k = omega arith

zero_add : (k : ℕ) → 0 + k ≡ k
zero_add k = omega arith

least_cons :
    (b : ℕ) (n : NodeInfo) (rest : List NodeInfo)
    → b ≤ n.status.records
    → ((j : ℕ) (x : NodeInfo) → get_elem? rest j ≡ some x → b ≤ x.status.records)
    → (j : ℕ) (x : NodeInfo) → get_elem? (n ∷ rest) j ≡ some x
    → b ≤ x.status.records
least_cons b n rest h k zero x p = ground (arith, h)
least_cons b n rest h k (suc j) x p = k j x p

-- `best` of the nodes before the place `k`, and of the rest
less_loaded_lem :
    (all rest : List NodeInfo) (k i : ℕ) (m : NodeInfo)
    → get_elem? all i ≡ some m
    → ((j : ℕ) → get_elem? all (k + j) ≡ get_elem? rest j)
    → (i' : ℕ) × (m' : NodeInfo) × (less_loaded_than (some (i, m)) (numbered k rest)
        ≡ some (i', m'))
      × (get_elem? all i' ≡ some m')
      × (m'.status.records ≤ m.status.records)
      × ((j : ℕ) (x : NodeInfo) → get_elem? rest j ≡ some x → m'.status.records ≤ x.status.records)
unfolding less_loaded_than numbered
less_loaded_lem all [] k i m h at = (i, m, refl, h, omega arith, λ j x p. cc)
less_loaded_lem all (n ∷ rest) k i m h at =
    let later = λ (j : ℕ). ap (get_elem? all) (suc_add k j) ∙ at (suc j) in
    let here = ap (get_elem? all) (add_zero k) ∙ at 0 in
    elim (Bool-cases (ltb n.status.records m.status.records)) [
      | inl e ↦
          let (i', m', p, q, b, c) = less_loaded_lem all rest (suc k) k n here later in
          (i', m', rw (e, less_loaded_than) p, q, ground (arith, e), least_cons _ n rest b c)
      | inr e ↦
          let (i', m', p, q, b, c) = less_loaded_lem all rest (suc k) i m h later in
          (i', m', rw (e, less_loaded_than) p, q, b, least_cons _ n rest (ground (arith, e)) c)
    ]

-- Of at least one node _findLessLoadedNode gives one that counts no more records than any other.
pub find_less_loaded_node_lem :
    (n : NodeInfo) (nodes : List NodeInfo)
    → (i : ℕ) × (m : NodeInfo) × (find_less_loaded_node (n ∷ nodes) ≡ some (i, m))
      × (get_elem? (n ∷ nodes) i ≡ some m)
      × ((j : ℕ) (x : NodeInfo)
          → get_elem? (n ∷ nodes) j ≡ some x
          → m.status.records ≤ x.status.records)
unfolding find_less_loaded_node less_loaded_than numbered
find_less_loaded_node_lem n nodes =
    let (i, m, p, q, b, c) =
      less_loaded_lem (n ∷ nodes) nodes 1 0 n refl
        (λ j. ap (get_elem? (n ∷ nodes)) (suc_add 0 j ∙ zero_add (suc j))) in
    (i, m, p, q, least_cons _ n nodes b c)
