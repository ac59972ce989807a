-- ===== src/Storage/Index/Counts.antt =====
-- The number of the entries of the index (node/storage/index.go).
use sum.Prelude.{ℕ, suc, ◌≡◌, refl, none, List, [], ◌∷◌, arith}
use sum.Prelude.Tests.{nat_eq}
use sum.Prelude.Lists.{length}
use sum.Prelude.Map.{get, put}
use sum.Storage.Env.{Env}
use sum.Storage.Driver.{Driver}
use sum.Storage.Index.{Index, next, created, create, stored_next, size}

length-put :
    {V : Type 0} (k : ℕ) (v : V) (m : List (ℕ × V))
    → get k m ≡ none
    → length (put k v m) ≡ suc (length m)
unfolding get put
length-put k v [] h = refl
length-put k v ((j, w) ∷ m) h = ground (arith, length-put k v m)

module _ {M : Type 0} {env : Env M} (d : Driver M) where
  -- a successful Create adds one entry, and moves the next identifier on
  pub size-create :
      (m : M) (i : Index env)
      → (create d m i).1 ≡ none
      → (size (create d m i).0 ≡ suc (size i)) × ((create d m i).0.next_id ≡ next i.next_id)
  unfolding create stored_next size
  size-create m i h = ground (arith, length-put i.next_id (created d m i) i.index)
