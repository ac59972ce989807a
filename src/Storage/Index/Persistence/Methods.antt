-- ===== src/Storage/Index/Persistence/Methods.antt =====
-- The methods of one message, and DeleteMany, and the files (node/storage/index.go).
use sum.Prelude.{
  ℕ, ◌<◌, ◌≡◌, ◌∙◌, sym, ap, inl, inr, Option, none, some, List, [], ◌∷◌, arith, refl,
}
use sum.Prelude.Tests.{Option-cases, Option-elim, Result-cases, nat_eq}
use sum.Prelude.Lists.{All}
use sum.Prelude.Map.{get}
use sum.Proto.{uint64_mod}
use sum.Storage.Env.{Env, EnvLaws}
use sum.Storage.Driver.{Driver}
use sum.Storage.Files.{Error, flush}
use sum.Storage.Index.{
  Index, Outcome, path_for_id, find, forget, delete, delete_each, created, stored, stored_next,
  store, create, create_with_id, updated, update, next,
}
use sum.Storage.Index.Persistence.{IsSynced, forget-IsSynced, write-IsSynced, free-IsSynced}

module _ {M : Type 0} {env : Env M} (d : Driver M) (files : EnvLaws env) where
  stored-IsSynced :
      (id : ℕ) (m : M) (i : Index env) (r : env.Disk × Option Error)
      → r ≡ flush env m (path_for_id i.data_path id) i.disk
      → id < uint64_mod
      → find id i ≡ none
      → IsSynced i
      → IsSynced (stored d id m i r).0
  unfolding stored
  stored-IsSynced id m i (disk, none) e hid free h =
      rw (ap (λ t. t.0) e) (write-IsSynced files id m i i.next_id hid (ap (λ t. t.1) (sym e)) h)
  stored-IsSynced id m i (disk, some f) e hid free h =
      rw (ap (λ t. t.0) e) (free-IsSynced files id m i hid free h)

  stored_next-IsSynced :
      (id : ℕ) (m : M) (i : Index env) (r : env.Disk × Option Error)
      → r ≡ flush env m (path_for_id i.data_path id) i.disk
      → id < uint64_mod
      → find id i ≡ none
      → IsSynced i
      → IsSynced (stored_next d id m i r).0
  unfolding stored_next
  stored_next-IsSynced id m i (disk, none) e hid free h =
      rw (ap (λ t. t.0) e)
        (write-IsSynced files id m i (next i.next_id) hid (ap (λ t. t.1) (sym e)) h)
  stored_next-IsSynced id m i (disk, some f) e hid free h =
      rw (ap (λ t. t.0) e) (free-IsSynced files id m i hid free h)

  pub create-IsSynced :
      (m : M) (i : Index env) → i.next_id < uint64_mod → IsSynced i → IsSynced (create d m i).0
  unfolding create find
  create-IsSynced m i hid h =
      Option-elim (λ (o : Outcome env). IsSynced o.0) (get i.next_id i.index)
        (λ free. stored_next-IsSynced i.next_id (created d m i) i _ refl hid free h) (λ _ _. h)

  pub create_with_id-IsSynced :
      (m : M) (i : Index env)
      → d.get_id m < uint64_mod
      → IsSynced i
      → IsSynced (create_with_id d m i).0
  unfolding create_with_id store find
  create_with_id-IsSynced m i hid h =
      Option-elim (λ (o : Outcome env). IsSynced o.0) (get (d.get_id m) i.index)
        (λ free. stored-IsSynced (d.get_id m) m i _ refl hid free h) (λ _ _. h)

  pub delete-IsSynced :
      (id : ℕ) (i : Index env) → id < uint64_mod → IsSynced i → IsSynced (delete id i).0
  unfolding delete
  delete-IsSynced id i hid h =
      Option-elim (λ (o : Index env × Option M). IsSynced o.0) (get id i.index) (λ _. h)
        (λ _ _. forget-IsSynced files id i hid h)

  pub delete_each-IsSynced :
      (ids : List ℕ) (i : Index env) (res : List M)
      → All (λ id. id < uint64_mod) ids
      → IsSynced i
      → IsSynced (delete_each ids i res).0
  unfolding delete_each
  delete_each-IsSynced [] i res hid h = h
  delete_each-IsSynced (id ∷ ids) i res hid h =
      Option-elim (λ (o : Index env × List M). IsSynced o.0) (get id i.index)
        (λ _. delete_each-IsSynced ids i res hid.1 h)
        (λ m _. delete_each-IsSynced ids (forget id i) _ hid.1 (forget-IsSynced files id i hid.0 h))

  updated-IsSynced :
      (id : ℕ) (m : M) (i : Index env) (r : env.Disk × Option Error)
      → r ≡ flush env m (path_for_id i.data_path id) i.disk
      → id < uint64_mod
      → (updated d id m i r).1 ≡ none
      → IsSynced i
      → IsSynced (updated d id m i r).0
  unfolding updated
  updated-IsSynced id m i (disk, e) x hid done h =
      rw (ap (λ t. t.0) x)
        (write-IsSynced files id m i i.next_id hid (ap (λ t. t.1) (sym x) ∙ done) h)

  pub update-IsSynced :
      (m : M) (i : Index env)
      → d.get_id m < uint64_mod
      → (update d m i).1 ≡ none
      → IsSynced i
      → IsSynced (update d m i).0
  unfolding update
  update-IsSynced m i hid done h = elim (Option-cases (get (d.get_id m) i.index)) [
    | inl e ↦ rw (e, update) h
    | inr (old, e) ↦ elim (Result-cases (d.copy old m)) [
      | inl (new, c) ↦
          rw (e, update)
            (rw (c, update) (updated-IsSynced (d.get_id m) new i _ refl hid (ground arith) h))
      | inr (f, c) ↦ rw (e, update) (rw (c, update) h)
    ]
  ]

  pub store-IsSynced :
      (m : M) (i : Index env)
      → d.get_id m < uint64_mod
      → (store d m i).1 ≡ none
      → IsSynced i
      → IsSynced (store d m i).0
  unfolding store
  store-IsSynced m i hid done h = stored_done _ refl done
    where
      stored_done :
          (r : env.Disk × Option Error)
          → r ≡ flush env m (path_for_id i.data_path (d.get_id m)) i.disk
          → (stored d (d.get_id m) m i r).1 ≡ none
          → IsSynced (stored d (d.get_id m) m i r).0
      stored_done (disk, none) e x =
          rw (ap (λ t. t.0) e)
            (write-IsSynced files (d.get_id m) m i i.next_id hid (ap (λ t. t.1) (sym e)) h)
      stored_done (disk, some f) e x = absurd (ground arith)
