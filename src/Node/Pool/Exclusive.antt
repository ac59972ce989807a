-- ===== src/Node/Pool/Exclusive.antt =====
-- The pool of node/service/compiled_exec_pool.go under goroutines that take and release interpreters in any order.
use sum.Prelude.{ℕ, ◌+◌, ◌≡◌, ◌∙◌, ap, refl, none, some, List, [], ◌∷◌, ◌++◌, true, arith}
use sum.Prelude.Tests.{ltb, if◌then◌else◌, nat_eq, ◌==◌}
use sum.Prelude.Lists.{length, set, length-append}
use sum.Node.Pool.{
  ExecutionPool, num_vm_in_pool, create_clone, create_clones, create_execution_pool, set_free,
  get_vm,
}

-- how often an index stands in a list
unfoldable pub count : ℕ → List ℕ → ℕ
count j [] = 0
count j (i ∷ l) = (if i == j then 1 else 0) + count j l

count-append : (j : ℕ) (xs ys : List ℕ) → count j (xs ++ ys) ≡ count j xs + count j ys
unfolding count
count-append j [] ys = omega arith
count-append j (i ∷ xs) ys = omega (arith, count-append j xs ys)

-- the pool, and the indices that goroutines hold
pub record Shared (V : Type 0) : Type 0 where
  pub pool : ExecutionPool V
  pub held : List ℕ

module _ {V : Type 0} where
  -- a goroutine's Get, or its Release of a VM that it holds
  pub data Step : Shared V → Shared V → Type 0 where
    acquire :
        (s : Shared V) (i : ℕ) (p : ExecutionPool V)
        → get_vm s.pool ≡ some (i, p)
        → Step s (record { pool = p; held = i ∷ s.held })
    release :
        (s : Shared V) (xs ys : List ℕ) (i : ℕ) (p : ExecutionPool V)
        → s.held ≡ xs ++ i ∷ ys
        → set_free i s.pool ≡ some p
        → Step s (record { pool = p; held = xs ++ ys })

  pub data Reach (s : Shared V) : Shared V → Type 0 where
    here : Reach s s
    next : {t u : Shared V} → Reach s t → Step t u → Reach s u

  -- each of the eight indices is in the channel or held, once, and no other is
  pub record IsExclusive (s : Shared V) : Type 0 where
    pub once :
        (j : ℕ) → count j s.pool.free_way + count j s.held ≡ (if ltb j num_vm_in_pool then 1 else 0)
    pub all : length s.pool.free_way + length s.held ≡ num_vm_in_pool
    pub cloned : length s.pool.clones ≡ num_vm_in_pool

  abbrev pub start : (V → V) → V → Shared V
  start copy vm = record { pool = create_execution_pool copy vm; held = [] }

  start-IsExclusive : (copy : V → V) (vm : V) → IsExclusive (start copy vm)
  unfolding create_execution_pool create_clones create_clone count
  start-IsExclusive copy vm = record { once = λ j. ground arith; all = refl; cloned = refl }

  get_vm_lem :
      (p q : ExecutionPool V) (i : ℕ)
      → get_vm p ≡ some (i, q)
      → (p.free_way ≡ i ∷ q.free_way) × (q.clones ≡ p.clones)
  unfolding get_vm
  get_vm_lem p q i e = ground arith

  set_free_lem :
      (p q : ExecutionPool V) (i : ℕ)
      → set_free i p ≡ some q
      → (q.free_way ≡ p.free_way ++ i ∷ []) × (q.clones ≡ p.clones)
  unfolding set_free
  set_free_lem p q i e = ground arith

  acquire-IsExclusive :
      (s : Shared V) (i : ℕ) (p : ExecutionPool V)
      → get_vm s.pool ≡ some (i, p)
      → IsExclusive s
      → IsExclusive (record { pool = p; held = i ∷ s.held })
  unfolding count
  acquire-IsExclusive s i p e h =
      let (way, same) = get_vm_lem s.pool p i e in
      record {
        once = λ j. omega (arith, h.once j, ap (count j) way);
        all = omega (arith, h.all, ap length way);
        cloned = ap length same ∙ h.cloned;
      }

  release-IsExclusive :
      (s : Shared V) (xs ys : List ℕ) (i : ℕ) (p : ExecutionPool V)
      → s.held ≡ xs ++ i ∷ ys
      → set_free i s.pool ≡ some p
      → IsExclusive s
      → IsExclusive (record { pool = p; held = xs ++ ys })
  unfolding count
  release-IsExclusive s xs ys i p e f h =
      let (way, same) = set_free_lem s.pool p i f in
      record {
        once = λ j. omega (
          arith,
          h.once j,
          ap (count j) way,
          ap (count j) e,
          count-append j s.pool.free_way (i ∷ []),
          count-append j xs (i ∷ ys),
          count-append j xs ys,
        );
        all = omega (
          arith,
          h.all,
          ap length way,
          ap length e,
          length-append s.pool.free_way (i ∷ []),
          length-append xs (i ∷ ys),
          length-append xs ys,
        );
        cloned = ap length same ∙ h.cloned;
      }

  Step-IsExclusive : {s t : Shared V} → Step s t → IsExclusive s → IsExclusive t
  Step-IsExclusive (acquire s i p e) h = acquire-IsExclusive s i p e h
  Step-IsExclusive (release s xs ys i p e f) h = release-IsExclusive s xs ys i p e f h

  -- Whatever the order in which goroutines take and release interpreters of a new pool, each of
  -- the eight is either free or held by one of them, and there is no other.
  pub Reach-IsExclusive :
      (copy : V → V) (vm : V) (s : Shared V) → Reach (start copy vm) s → IsExclusive s
  Reach-IsExclusive copy vm s r = from r
    where
      from : {t : Shared V} → Reach (start copy vm) t → IsExclusive t
      from here = start-IsExclusive copy vm
      from (next q st) = Step-IsExclusive st (from q)

  -- A goroutine that holds an interpreter of a pool never waits to release it.
  pub release_ready :
      (copy : V → V) (vm : V) (s : Shared V) (xs ys : List ℕ) (i : ℕ)
      → Reach (start copy vm) s
      → s.held ≡ xs ++ i ∷ ys
      → (p : ExecutionPool V) × (set_free i s.pool ≡ some p)
  unfolding set_free
  release_ready copy vm s xs ys i r e =
      let room : ltb (length s.pool.free_way) num_vm_in_pool ≡ true =
        ground
          (arith, (Reach-IsExclusive copy vm s r).all, ap length e, length-append xs (i ∷ ys)) in
      (
        record s.pool {
          free_way = s.pool.free_way ++ i ∷ [];
          free_list = set s.pool.free_list i none;
        },
        rw (room, set_free) refl,
      )
