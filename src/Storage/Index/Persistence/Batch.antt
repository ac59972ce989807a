-- ===== src/Storage/Index/Persistence/Batch.antt =====
-- CreateManyWIthId and the files (node/storage/index.go).
use sum.Prelude.{
  ℕ, ◌<◌, ◌≡◌, ◌≢◌, ap, inl, inr, false, Option, none, some, List, [], ◌∷◌, arith, refl,
}
use sum.Prelude.Tests.{Option-cases, Option-elim, Bool-cases, nat_eq}
use sum.Prelude.Lists.{contains, All}
use sum.Prelude.Map.{get-put}
use sum.Proto.{uint64_mod}
use sum.Storage.Env.{Env, EnvLaws}
use sum.Storage.Driver.{Driver}
use sum.Storage.Files.{Error, flush}
use sum.Storage.Index.{
  Index, Outcome, path_for_id, find, forget, stored, store, store_each, rollback,
  create_many_with_id, update, delete_many, set_next_id,
}
use sum.Storage.Index.Effects.{ids_of, find-rollback}
use sum.Storage.Index.Validity.{
  Request, create_one, create_given, update_one, create_given_many, delete_one, set_next,
  delete_some, reload, perform,
}
use sum.Storage.Index.Persistence.{IsSyncedAt, IsSynced, forget-IsSyncedAt, flush-IsSyncedAt}
use sum.Storage.Index.Persistence.Methods.{
  store-IsSynced, create-IsSynced, create_with_id-IsSynced, delete-IsSynced, delete_each-IsSynced,
  update-IsSynced,
}

module _ {M : Type 0} {env : Env M} (d : Driver M) (files : EnvLaws env) where
  store-IsSyncedAt :
      (j : ℕ) (m : M) (i : Index env)
      → d.get_id m < uint64_mod
      → j < uint64_mod
      → d.get_id m ≢ j
      → IsSyncedAt i j
      → IsSyncedAt (store d m i).0 j
  unfolding store stored find
  store-IsSyncedAt j m i hid hj ne h = either _ refl
    where
      either :
          (r : env.Disk × Option Error)
          → r ≡ flush env m (path_for_id i.data_path (d.get_id m)) i.disk
          → IsSyncedAt (stored d (d.get_id m) m i r).0 j
      either (disk, none) e n p = rw (ap (λ t. t.0) e) (
          flush-IsSyncedAt files (d.get_id m) j m i hid hj ne h n
            (ground (arith, get-put j (d.get_id m) m i.index)))
      either (disk, some f) e n p =
          rw (ap (λ t. t.0) e) (flush-IsSyncedAt files (d.get_id m) j m i hid hj ne h n p)

  store_each-IsSyncedAt :
      (j : ℕ) (ms : List M) (i : Index env)
      → All (λ m. d.get_id m < uint64_mod) ms
      → j < uint64_mod
      → contains j (ids_of d.get_id ms) ≡ false
      → IsSyncedAt i j
      → IsSyncedAt (store_each d ms i).0 j
  unfolding store_each contains ids_of
  store_each-IsSyncedAt j [] i hid hj c h = h
  store_each-IsSyncedAt j (m ∷ ms) i hid hj c h =
      let at : IsSyncedAt (store d m i).0 j = store-IsSyncedAt j m i hid.0 hj (ground arith) h in
      Option-elim (λ (o : Outcome env). IsSyncedAt o.0 j) (store d m i).1
        (λ _. store_each-IsSyncedAt j ms (store d m i).0 hid.1 hj (ground arith) at) (λ _ _. at)

  store_each-IsSynced :
      (ms : List M) (i : Index env)
      → All (λ m. d.get_id m < uint64_mod) ms
      → (store_each d ms i).1 ≡ none
      → IsSynced i
      → IsSynced (store_each d ms i).0
  unfolding store_each
  store_each-IsSynced [] i hid done h = h
  store_each-IsSynced (m ∷ ms) i hid done h = elim (Option-cases (store d m i).1) [
    | inl e ↦
        rw (e, store_each)
          (store_each-IsSynced ms (store d m i).0 hid.1 (rw (e, store_each) at done)
            (store-IsSynced d files m i hid.0 e h))
    | inr (f, e) ↦ absurd (ground arith)
  ]

  data_path-rollback : (ms : List M) (i : Index env) → (rollback d ms i).data_path ≡ i.data_path
  unfolding rollback forget
  data_path-rollback [] i = refl
  data_path-rollback (m ∷ ms) i = data_path-rollback ms (forget (d.get_id m) i)

  rollback-IsSyncedAt :
      (j : ℕ) (ms : List M) (i : Index env)
      → All (λ m. d.get_id m < uint64_mod) ms
      → j < uint64_mod
      → contains j (ids_of d.get_id ms) ≡ false
      → IsSyncedAt i j
      → IsSyncedAt (rollback d ms i) j
  unfolding rollback contains ids_of
  rollback-IsSyncedAt j [] i hid hj c h = h
  rollback-IsSyncedAt j (m ∷ ms) i hid hj c h =
      rollback-IsSyncedAt j ms (forget (d.get_id m) i) hid.1 hj (ground arith)
        (forget-IsSyncedAt files (d.get_id m) j i hid.0 hj (λ _. h))

  -- Whether a batch is stored or rolled back, the disk holds every stored message afterwards.
  pub create_many-IsSynced :
      (ms : List M) (i : Index env)
      → All (λ m. d.get_id m < uint64_mod) ms
      → IsSynced i
      → IsSynced (create_many_with_id d ms i).0
  unfolding create_many_with_id
  create_many-IsSynced ms i hid h = elim (Option-cases (store_each d ms i).1) [
    | inl e ↦ rw (e, create_many_with_id) (store_each-IsSynced ms i hid e h)
    | inr (f, e) ↦ rw (e, create_many_with_id) rolled_back
  ]
    where
      rolled_back : IsSynced (rollback d ms (store_each d ms i).0)
      rolled_back j hj m p = elim (Bool-cases (contains j (ids_of d.get_id ms))) [
        | inl c ↦ absurd (ground (arith, find-rollback d j ms (store_each d ms i).0))
        | inr c ↦
            rollback-IsSyncedAt j ms (store_each d ms i).0 hid hj c
              (store_each-IsSyncedAt j ms i hid hj c (h j hj)) m p
      ]

  -- the identifiers of a request have 64 bits, and a reload is no request of this kind
  abbrev pub IsInRange : Request M → Type 0
  IsInRange (create_one m) = Unit
  IsInRange (create_given m) = d.get_id m < uint64_mod
  IsInRange (update_one m) = d.get_id m < uint64_mod
  IsInRange (create_given_many ms) = All (λ m. d.get_id m < uint64_mod) ms
  IsInRange (delete_one id) = id < uint64_mod
  IsInRange (set_next id) = id < uint64_mod
  IsInRange (delete_some ids) = All (λ id. id < uint64_mod) ids
  IsInRange reload = ⊥

  -- If every stored message is in the file of its identifier, it is so after any request of 64-bit
  -- identifiers other than a reload, whatever the file system refuses, unless an Update fails.
  pub perform-IsSynced :
      (r : Request M) (i : Index env)
      → i.next_id < uint64_mod
      → IsInRange r
      → ((m : M) → r ≡ update_one m → (update d m i).1 ≡ none)
      → IsSynced i
      → IsSynced (perform d r i)
  unfolding perform delete_many set_next_id find
  perform-IsSynced (create_one m) i hn hr hu h = create-IsSynced d files m i hn h
  perform-IsSynced (create_given m) i hn hr hu h = create_with_id-IsSynced d files m i hr h
  perform-IsSynced (update_one m) i hn hr hu h = update-IsSynced d files m i hr (hu m refl) h
  perform-IsSynced (create_given_many ms) i hn hr hu h = create_many-IsSynced ms i hr h
  perform-IsSynced (delete_one id) i hn hr hu h = delete-IsSynced d files id i hr h
  perform-IsSynced (set_next id) i hn hr hu h = h
  perform-IsSynced (delete_some ids) i hn hr hu h = delete_each-IsSynced d files ids i [] hr h
  perform-IsSynced reload i hn hr hu h = absurd hr
