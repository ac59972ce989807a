-- ===== src/Storage/Index/Numbering.antt =====
-- Load and the next identifier (node/storage/index.go).
use sum.Prelude.{ℕ, ◌+◌, ◌<◌, String, ◌≡◌, inl, inr, ap, refl, none, some, List, [], ◌∷◌, arith}
use sum.Prelude.Tests.{ok, Option-cases, Result-elim, nat_eq, nat_beq_iff}
use sum.Prelude.Map.{get, get-put}
use sum.Proto.{uint64_mod}
use sum.Storage.Env.{Env}
use sum.Storage.Driver.{Driver}
use sum.Storage.Files.{flush, load_file, list_path}
use sum.Storage.Index.{
  Index, Outcome, created, create, stored_next, loaded, load_each, load, next, path_for_id,
}

-- every file that can be read decodes to an identifier below 2^64 - 1
abbrev pub DecodesBelow : {M : Type 0} (env : Env M) → Driver M → env.Disk → Type 0
DecodesBelow {M} env d disk =
    (p : String) (m : M) → load_file env p disk ≡ ok m → d.get_id m + 1 < uint64_mod

module _ {M : Type 0} {env : Env M} where
  -- the next identifier is past every stored one
  abbrev pub IsAhead : Index env → Type 0
  IsAhead i = (id : ℕ) (m : M) → get id i.index ≡ some m → id < i.next_id

none_here : {M : Type 0} (id : ℕ) → get {V = M} id [] ≡ none
unfolding get
none_here id = refl

module _ {M : Type 0} {env : Env M} (d : Driver M) where
  loaded-IsAhead :
      (m : M) (i : Index env) → d.get_id m + 1 < uint64_mod → IsAhead i → IsAhead (loaded d m i)
  unfolding loaded next
  loaded-IsAhead m i hm h id n p =
      ground (arith, get-put id (d.get_id m) m i.index, nat_beq_iff (d.get_id m) id, h id n)

  load_each-IsAhead :
      (files : List (String × String)) (i : Index env)
      → DecodesBelow env d i.disk
      → IsAhead i
      → IsAhead (load_each d files i).0
  unfolding load_each
  load_each-IsAhead [] i hd h = h
  load_each-IsAhead ((file_id, p) ∷ files) i hd h =
      Result-elim (λ (o : Outcome env). IsAhead o.0) (load_file env p i.disk) (λ _ _. h)
        (λ m e.
          load_each-IsAhead files (loaded d m i) (unfold loaded in hd)
            (loaded-IsAhead m i (hd p m e) h))

  -- Load into an empty index, from a disk whose readable files decode to identifiers below 2^64 -
  -- 1, leaves the next identifier past every identifier that it stored, whatever the order of the
  -- files and wherever it stops.
  pub load-IsAhead :
      (i : Index env) → i.index ≡ [] → DecodesBelow env d i.disk → IsAhead (load d i).0
  unfolding load
  load-IsAhead i e hd =
      Result-elim (λ (o : Outcome env). IsAhead o.0) (list_path env i.data_path i.disk)
        (λ _ _. empty i.next_id)
        (λ (p, files) _. load_each-IsAhead (env.range files) _ hd (empty 1))
    where
      empty : (n : ℕ) (id : ℕ) (m : M) → get id i.index ≡ some m → id < n
      empty n id m p = absurd (cc (ap (get id) e, none_here id, p))

  -- While the next identifier is past every stored one, Create fails exactly where the write to
  -- the disk fails: it never reports a collision.
  pub create_error :
      (m : M) (i : Index env)
      → IsAhead i
      → (create d m i).1 ≡ (flush env (created d m i) (path_for_id i.data_path i.next_id) i.disk).1
  unfolding create stored_next
  create_error m i h = elim (Option-cases (get i.next_id i.index)) [
    | inl e ↦ ground arith
    | inr (old, e) ↦ absurd (omega (arith, h i.next_id old e))
  ]

  -- Create keeps the next identifier past every stored one, until the last 64-bit identifier.
  pub create-IsAhead :
      (m : M) (i : Index env) → i.next_id + 1 < uint64_mod → IsAhead i → IsAhead (create d m i).0
  unfolding create stored_next next
  create-IsAhead m i hn h id n p =
      ground (arith, get-put id i.next_id (created d m i) i.index, nat_beq_iff i.next_id id, h id n)
