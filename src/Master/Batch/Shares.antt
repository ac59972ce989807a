-- ===== src/Master/Batch/Shares.antt =====
-- The shares of CreateRecordsWithId and the status of a node that takes one (master/mux_records.go).
use sum.Prelude.{
  ℕ, suc, ◌+◌, ◌-◌, ◌*◌, ◌/◌, ◌%◌, ◌≤◌, ◌<◌, ◌≡◌, ◌∙◌, refl, ap, arith, false, some, List, [], ◌∷◌,
}
use sum.Prelude.Tests.{◌==◌, nat_eq, ltb, if◌then◌else◌}
use sum.Prelude.Lists.{length, get_elem?, take, drop, All, length-take, length-drop}
use sum.Proto.{uint64_mod}
use sum.Master.Replies.{record_response}
use sum.Master.State.{NodeInfo, numbered, modify_at, total_records}
use sum.Master.Balancer.Total.{total_modify_at, get_elem?-modify_at, total-lt-mod}
use sum.Master.Batch.{count_batch}

pub total-count_batch :
    (i k max : ℕ) (node : NodeInfo) (nodes : List NodeInfo)
    → get_elem? nodes i ≡ some node
    → total_records (modify_at i (count_batch k max) nodes) ≡ (total_records nodes + k) % uint64_mod
unfolding count_batch
total-count_batch i k max node nodes h = omega (
  arith,
  total_modify_at i k (uint64_mod - k % uint64_mod) (count_batch k max) node nodes h refl
      (omega arith),
  total-lt-mod (modify_at i (count_batch k max) nodes),
  total-lt-mod nodes,
)

pub not_empty : (k : ℕ) → 0 < k → (k == 0) ≡ false
not_empty k h = ground arith

pub zero_plus : (a : ℕ) → 0 + a ≡ a
zero_plus a = omega arith

pub mod_le : (a k : ℕ) → 0 < k → a % k ≤ 0 + k
mod_le a k h = grind arith

pub div_mod : (a k : ℕ) → 0 < k → k * (a / k) + (a % k - 0) ≡ a
div_mod a k h = grind arith

-- every node of the list has its place
abbrev pub ArePlaced : List NodeInfo → List (ℕ × NodeInfo) → Type 0
ArePlaced nodes = All (λ (p : ℕ × NodeInfo). (m : NodeInfo) × (get_elem? nodes p.0 ≡ some m))

pub still_placed :
    (i : ℕ) (change : NodeInfo → NodeInfo) (nodes : List NodeInfo) (l : List (ℕ × NodeInfo))
    → ArePlaced nodes l
    → ArePlaced (modify_at i change nodes) l
still_placed i change nodes [] h = tt
still_placed i change nodes ((j, n) ∷ l) ((m, e), h) =
    (get_elem?-modify_at i j change m nodes e, still_placed i change nodes l h)

pub numbered-ArePlaced :
    (all : List NodeInfo) (k : ℕ) (rest : List NodeInfo)
    → ((j : ℕ) → get_elem? all (k + j) ≡ get_elem? rest j)
    → ArePlaced all (numbered k rest)
unfolding numbered
numbered-ArePlaced all k [] h = tt
numbered-ArePlaced all k (n ∷ rest) h = (
  (n, ap (get_elem? all) (right_zero k) ∙ h 0),
  numbered-ArePlaced all (suc k) rest (λ j. ap (get_elem? all) (right_suc k j) ∙ h (suc j)),
)
  where
    right_zero : (a : ℕ) → a ≡ a + 0
    right_zero a = omega arith

    right_suc : (a b : ℕ) → suc a + b ≡ a + suc b
    right_suc a b = omega arith

-- the records that the loop hands out, from the place `i` on
unfoldable pub shares : (per_node remainder : ℕ) → List (ℕ × NodeInfo) → ℕ
shares per_node remainder [] = 0
shares per_node remainder ((i, n) ∷ l) =
    per_node + (if ltb i remainder then 1 else 0) + shares per_node remainder l

pub shares_lem :
    (per_node remainder k : ℕ) (nodes : List NodeInfo)
    → remainder ≤ k + length nodes
    → shares per_node remainder (numbered k nodes) ≡ length nodes * per_node + (remainder - k)
unfolding shares numbered
shares_lem per_node remainder k [] h = ground arith
shares_lem per_node remainder k (n ∷ nodes) h =
    grind (arith, shares_lem per_node remainder (suc k) nodes)

pub length-slice :
    {A : Type 0} (from_ to_ : ℕ) (l : List A)
    → from_ ≤ to_
    → to_ ≤ length l
    → length (take (to_ - from_) (drop from_ l)) ≡ to_ - from_
length-slice from_ to_ l h k =
    omega (arith, length-take (to_ - from_) (drop from_ l), length-drop from_ l)
