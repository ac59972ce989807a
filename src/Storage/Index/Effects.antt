-- ===== src/Storage/Index/Effects.antt =====
-- The entries of the index after each method (node/storage/index.go).
use mathlib.Core.Path.{fun_ext}
use mathlib.Core.List.{append-nil, append_assoc}
use sum.Prelude.{
  ℕ, ◌≡◌, ◌∙◌, sym, ap, inl, inr, false, Option, none, some, List, [], ◌∷◌, ◌++◌, arith, refl,
}
use sum.Prelude.Tests.{ok, Option-cases, nat_eq, nat_beq_iff, ◌==◌, if◌then◌else◌}
use sum.Prelude.Lists.{contains}
use sum.Prelude.Map.{get, get-put, get-del}
use sum.Storage.Env.{Env}
use sum.Storage.Driver.{Driver}
use sum.Storage.Files.{Error, invalid_id, record_not_found, flush}
use sum.Storage.Index.{
  Index, find, forget, delete, delete_each, delete_many, created, stored, stored_next, store,
  create, create_with_id, store_each, rollback, create_many_with_id, updated, update, next,
  path_for_id,
}

module _ {M : Type 0} where
  -- what is returned for a list of identifiers: each message at its first mention
  unfoldable pub collect : List ℕ → (ℕ → Option M) → List M
  collect [] view = []
  collect (id ∷ ids) view = elim (view id) [
    | none ↦ collect ids view
    | some m ↦ m ∷ collect ids (λ j. if id == j then none else view j)
  ]

module _ {M : Type 0} (get_id : M → ℕ) where
  unfoldable pub ids_of : List M → List ℕ
  ids_of [] = []
  ids_of (m ∷ ms) = get_id m ∷ ids_of ms

  -- the last message of a list with an identifier, or else the given one
  unfoldable pub latest : ℕ → List M → Option M → Option M
  latest j [] o = o
  latest j (m ∷ ms) o = latest j ms (if get_id m == j then some m else o)

module _ {M : Type 0} {env : Env M} where
  find-forget :
      (j id : ℕ) (i : Index env) → find j (forget id i) ≡ (if id == j then none else find j i)
  unfolding find forget
  find-forget j id i = get-del j id i.index

  -- Delete returns the stored message, if any; afterwards its identifier is free, and every other
  -- identifier has the message that it had.
  pub delete_lem :
      (id : ℕ) (i : Index env)
      → ((delete id i).1 ≡ find id i)
        × ((j : ℕ) → find j (delete id i).0 ≡ (if id == j then none else find j i))
  unfolding delete find forget
  delete_lem id i = (ground arith, λ j. ground (arith, get-del j id i.index, nat_beq_iff id j))

  delete_each-collect :
      (ids : List ℕ) (i : Index env) (res : List M)
      → (delete_each ids i res).1 ≡ res ++ collect ids (λ j. find j i)
  unfolding delete_each collect find
  delete_each-collect [] i res = sym (append-nil res)
  delete_each-collect (id ∷ ids) i res = elim (Option-cases (get id i.index)) [
    | inl e ↦ rw (e, delete_each, collect) (delete_each-collect ids i res)
    | inr (m, e) ↦
        rw (e, delete_each, collect)
          (delete_each-collect ids (forget id i) (res ++ m ∷ [])
            ∙ append_assoc res (m ∷ []) _
            ∙ ap (λ v. res ++ m ∷ collect ids v) (fun_ext (λ j. find-forget j id i)))
  ]

  find-delete_each :
      (j : ℕ) (ids : List ℕ) (i : Index env) (res : List M)
      → find j (delete_each ids i res).0 ≡ (if contains j ids then none else find j i)
  unfolding delete_each find contains
  find-delete_each j [] i res = refl
  find-delete_each j (id ∷ ids) i res = elim (Option-cases (get id i.index)) [
    | inl e ↦ rw (e, delete_each) (find-delete_each j ids i res ∙ ground (arith, nat_beq_iff id j))
    | inr (m, e) ↦
        rw (e, delete_each)
          (find-delete_each j ids (forget id i) (res ++ m ∷ [])
            ∙ ground (arith, find-forget j id i))
  ]

  -- DeleteMany returns the messages of the given identifiers, each once and in the order of its
  -- first mention, skipping those that are not stored; afterwards none of the identifiers is
  -- stored, and every other one has the message that it had.
  pub delete_many_lem :
      (ids : List ℕ) (i : Index env)
      → ((delete_many ids i).1 ≡ collect ids (λ j. find j i))
        × ((j : ℕ) → find j (delete_many ids i).0 ≡ (if contains j ids then none else find j i))
  unfolding delete_many
  delete_many_lem ids i = (delete_each-collect ids i [], λ j. find-delete_each j ids i [])

module _ {M : Type 0} {env : Env M} (d : Driver M) where
  -- A successful Create stores the message under the next identifier, which was free, moves the
  -- next identifier on by one modulo 2^64, and changes no other entry.
  pub create_fresh :
      (m : M) (i : Index env)
      → (create d m i).1 ≡ none
      → (find i.next_id i ≡ none)
        × ((create d m i).0.next_id ≡ next i.next_id)
        × ((j : ℕ)
            → find j (create d m i).0 ≡ (if i.next_id == j then some (created d m i) else find j i))
  unfolding create stored_next find
  create_fresh m i h =
      (ground arith, ground arith, λ j. ground (arith, get-put j i.next_id (created d m i) i.index))

  -- A failed Create leaves the entries and the next identifier as they were.
  pub create_failed :
      (m : M) (i : Index env) (e : Error)
      → (create d m i).1 ≡ some e
      → ((create d m i).0.index ≡ i.index) × ((create d m i).0.next_id ≡ i.next_id)
  unfolding create stored_next
  create_failed m i e h = ground arith

  find-store :
      (j : ℕ) (m : M) (i : Index env)
      → (store d m i).1 ≡ none
      → find j (store d m i).0 ≡ (if d.get_id m == j then some m else find j i)
  unfolding store stored find
  find-store j m i h = ground (arith, get-put j (d.get_id m) m i.index)

  find-store_failed :
      (j : ℕ) (m : M) (i : Index env) (e : Error)
      → (store d m i).1 ≡ some e
      → find j (store d m i).0 ≡ find j i
  unfolding store stored find
  find-store_failed j m i e h = ground arith

  find-store_each :
      (j : ℕ) (ms : List M) (i : Index env)
      → (store_each d ms i).1 ≡ none
      → find j (store_each d ms i).0 ≡ latest d.get_id j ms (find j i)
  unfolding store_each latest
  find-store_each j [] i h = refl
  find-store_each j (m ∷ ms) i h = elim (Option-cases (store d m i).1) [
    | inl e ↦
        rw (e, store_each)
          (find-store_each j ms (store d m i).0 (rw (e, store_each) at h)
            ∙ ap (latest d.get_id j ms) (find-store j m i e))
    | inr (f, e) ↦ absurd (ground arith)
  ]

  -- whether the loop ends or stops, it touches no other identifier
  find-store_each_other :
      (j : ℕ) (ms : List M) (i : Index env)
      → contains j (ids_of d.get_id ms) ≡ false
      → find j (store_each d ms i).0 ≡ find j i
  unfolding store_each ids_of contains
  find-store_each_other j [] i h = refl
  find-store_each_other j (m ∷ ms) i h = elim (Option-cases (store d m i).1) [
    | inl e ↦
        rw (e, store_each)
          (find-store_each_other j ms (store d m i).0 (ground arith)
            ∙ ground (arith, find-store j m i e))
    | inr (f, e) ↦ rw (e, store_each) (find-store_failed j m i f e)
  ]

  pub find-rollback :
      (j : ℕ) (ms : List M) (i : Index env)
      → find j (rollback d ms i) ≡ (if contains j (ids_of d.get_id ms) then none else find j i)
  unfolding rollback ids_of contains
  find-rollback j [] i = refl
  find-rollback j (m ∷ ms) i =
      find-rollback j ms (forget (d.get_id m) i) ∙ ground (arith, find-forget j (d.get_id m) i)

  -- When CreateManyWIthId succeeds, every identifier of the batch has the last message of the
  -- batch with that identifier, and every other identifier has what it had.
  pub create_many_stored :
      (ms : List M) (i : Index env)
      → (create_many_with_id d ms i).1 ≡ none
      → (j : ℕ) → find j (create_many_with_id d ms i).0 ≡ latest d.get_id j ms (find j i)
  unfolding create_many_with_id
  create_many_stored ms i h j = ground (arith, find-store_each j ms i)

  -- When CreateManyWIthId fails, no identifier of the batch is stored, those stored before the
  -- call included, and every other identifier has what it had.
  pub create_many_rolled_back :
      (ms : List M) (i : Index env) (e : Error)
      → (create_many_with_id d ms i).1 ≡ some e
      → (j : ℕ)
      → find j (create_many_with_id d ms i).0
        ≡ (if contains j (ids_of d.get_id ms) then none else find j i)
  unfolding create_many_with_id
  create_many_rolled_back ms i e h j =
      ground (arith, find-rollback j ms (store_each d ms i).0, find-store_each_other j ms i)

  -- CreateWithId of a stored identifier fails and changes nothing.
  pub create_with_id_taken :
      (m old : M) (i : Index env)
      → find (d.get_id m) i ≡ some old
      → create_with_id d m i ≡ (i, some invalid_id)
  unfolding create_with_id find
  create_with_id_taken m old i h = rw (h, create_with_id)

  -- A successful CreateWithId stores the message under its own identifier, which was free, and
  -- changes no other entry; whether it succeeds or not, the next identifier does not move.
  pub create_with_id_fresh :
      (m : M) (i : Index env)
      → (create_with_id d m i).1 ≡ none
      → (find (d.get_id m) i ≡ none)
        × ((create_with_id d m i).0.next_id ≡ i.next_id)
        × ((j : ℕ)
            → find j (create_with_id d m i).0 ≡ (if d.get_id m == j then some m else find j i))
  unfolding create_with_id find
  create_with_id_fresh m i h =
      (ground arith, unfold store stored in ground arith, λ j. ground (arith, find-store j m i))

  -- A failed CreateWithId leaves the entries as they were.
  pub create_with_id_failed :
      (m : M) (i : Index env) (e : Error)
      → (create_with_id d m i).1 ≡ some e
      → (create_with_id d m i).0.index ≡ i.index
  unfolding create_with_id store stored
  create_with_id_failed m i e h = ground arith

  -- After a successful CreateWithId under the next identifier, a Create fails with ErrInvalidID
  -- and changes nothing.
  pub create_collides :
      (m m' : M) (i : Index env)
      → d.get_id m ≡ i.next_id
      → (create_with_id d m i).1 ≡ none
      → create d m' (create_with_id d m i).0 ≡ ((create_with_id d m i).0, some invalid_id)
  unfolding create find
  create_collides m m' i e h =
      let (_, same, at) = create_with_id_fresh m i h in
      let after : Index env = (create_with_id d m i).0 in
      let taken : get after.next_id after.index ≡ some m =
        ground (arith, at i.next_id, at (d.get_id m)) in
      rw (taken, create)

  -- Update of an identifier that is not stored fails and changes nothing.
  pub update_missing :
      (m : M) (i : Index env)
      → find (d.get_id m) i ≡ none
      → update d m i ≡ (i, some record_not_found)
  unfolding update find
  update_missing m i h = rw (h, update)

  -- Update of a stored identifier, if its copy succeeds, stores the merged message and changes no
  -- other entry, whether or not the write to the disk succeeds.
  pub update_stored :
      (m old new : M) (i : Index env)
      → find (d.get_id m) i ≡ some old
      → d.copy old m ≡ ok new
      → ((update d m i).1 ≡ (flush env new (path_for_id i.data_path (d.get_id m)) i.disk).1)
        × ((j : ℕ) → find j (update d m i).0 ≡ (if d.get_id m == j then some new else find j i))
  unfolding update updated find
  update_stored m old new i h c = (
    rw (h, update) (rw (c, update)),
    λ j. rw (h, update) (rw (c, update) (get-put j (d.get_id m) new i.index)),
  )
