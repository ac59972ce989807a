-- ===== src/Node/Pool.antt =====
-- node/service/compiled_exec_pool.go: the pool of copies of one interpreter.
pub mod Exclusive
use sum.Prelude.{ℕ, zero, suc, Option, none, some, List, [], ◌∷◌, ◌++◌}
use sum.Prelude.Tests.{ltb, if◌then◌else◌}
use sum.Prelude.Lists.{length, set}

abbrev pub num_vm_in_pool : ℕ
num_vm_in_pool = 8

-- `free_way` is what waits in the channel, first in first out. In `free_list` the busyVMMarker is
-- `none`. The index of a VM in `clones` stands for the VM.
pub record ExecutionPool (V : Type 0) : Type 0 where
  pub root : V
  pub clones : List V
  pub free_list : List (Option ℕ)
  pub free_way : List ℕ

module _ {V : Type 0} where
  -- one round of the loop of CreateExecutionPool
  unfoldable pub create_clone : (V → V) → ℕ → ExecutionPool V → ExecutionPool V
  create_clone copy i p = record p {
    clones = p.clones ++ copy p.root ∷ [];
    free_list = p.free_list ++ some i ∷ [];
    free_way = p.free_way ++ i ∷ [];
  }

  -- the rounds up to the given one
  unfoldable pub create_clones : (V → V) → ℕ → ExecutionPool V → ExecutionPool V
  unfolding create_clone
  create_clones copy zero p = p
  create_clones copy (suc i) p = create_clone copy i (create_clones copy i p)

  unfoldable pub create_execution_pool : (V → V) → V → ExecutionPool V
  unfolding create_clones
  create_execution_pool copy vm =
      create_clones copy num_vm_in_pool
        (record { root = vm; clones = []; free_list = []; free_way = [] })

  -- setFree; `none` where the channel is full and the send waits
  unfoldable pub set_free : ℕ → ExecutionPool V → Option (ExecutionPool V)
  set_free i p =
      if ltb (length p.free_way) num_vm_in_pool
      then some (record p { free_way = p.free_way ++ i ∷ []; free_list = set p.free_list i none })
      else none

  -- Get; `none` where the channel is empty and the receive waits
  unfoldable pub get_vm : ExecutionPool V → Option (ℕ × ExecutionPool V)
  get_vm p = elim p.free_way [ [] ↦ none | i ∷ rest ↦ some (i, record p { free_way = rest }) ]
