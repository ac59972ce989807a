-- ===== src/Storage/Index/Validity.antt =====
-- The identifiers of the entries of the index, and the requests that change it (node/storage/index.go).
use sum.Prelude.{ℕ, ◌≡◌, ◌∙◌, String, Option, none, some, List, [], ◌∷◌, arith, refl}
use sum.Prelude.Tests.{Option-elim, Result-elim, nat_eq, nat_beq_iff}
use sum.Prelude.Map.{get, IsMap, put, del, get-put, get-del, put-IsMap, del-IsMap}
use sum.Storage.Env.{Env}
use sum.Storage.Driver.{Driver, DriverLaws}
use sum.Storage.Files.{Error, load_file, list_path}
use sum.Storage.Index.{
  Index, Outcome, set_next_id, forget, delete, delete_each, delete_many, created, stored,
  stored_next, store, create, create_with_id, store_each, rollback, create_many_with_id,
  rollback_on_error, update, loaded, load_each, load,
}

module _ {M : Type 0} (d : Driver M) where
  pub record IsKeyed (es : List (ℕ × M)) : Type 0 where
    pub map : IsMap es
    pub ids : (id : ℕ) (m : M) → get id es ≡ some m → d.get_id m ≡ id

  pub put-IsKeyed :
      (id : ℕ) (m : M) (es : List (ℕ × M)) → d.get_id m ≡ id → IsKeyed es → IsKeyed (put id m es)
  put-IsKeyed id m es e h = record {
    map = put-IsMap id m es h.map;
    ids = λ j n p. ground (arith, get-put j id m es, nat_beq_iff id j, h.ids j n);
  }

  pub del-IsKeyed : (id : ℕ) (es : List (ℕ × M)) → IsKeyed es → IsKeyed (del id es)
  del-IsKeyed id es h = record {
    map = del-IsMap id es h.map;
    ids = λ j n p. ground (arith, get-del j id es, h.ids j n);
  }

module _ {M : Type 0} {env : Env M} (d : Driver M) where
  abbrev pub IsValid : Index env → Type 0
  IsValid i = IsKeyed d i.index

  stored-IsValid :
      (id : ℕ) (m : M) (i : Index env) (r : env.Disk × Option Error)
      → d.get_id m ≡ id
      → IsValid i
      → IsValid (stored d id m i r).0
  unfolding stored
  stored-IsValid id m i (disk, none) e h = put-IsKeyed d id m i.index e h
  stored-IsValid id m i (disk, some _) e h = h

  stored_next-IsValid :
      (id : ℕ) (m : M) (i : Index env) (r : env.Disk × Option Error)
      → d.get_id m ≡ id
      → IsValid i
      → IsValid (stored_next d id m i r).0
  unfolding stored_next
  stored_next-IsValid id m i (disk, none) e h = put-IsKeyed d id m i.index e h
  stored_next-IsValid id m i (disk, some _) e h = h

  store-IsValid : (m : M) (i : Index env) → IsValid i → IsValid (store d m i).0
  unfolding store
  store-IsValid m i h = stored-IsValid (d.get_id m) m i _ refl h

  create_with_id-IsValid : (m : M) (i : Index env) → IsValid i → IsValid (create_with_id d m i).0
  unfolding create_with_id
  create_with_id-IsValid m i h =
      Option-elim (λ (o : Outcome env). IsValid o.0) (get (d.get_id m) i.index)
        (λ _. store-IsValid m i h) (λ _ _. h)

  pub delete-IsValid : (id : ℕ) (i : Index env) → IsValid i → IsValid (delete id i).0
  unfolding delete
  delete-IsValid id i h =
      Option-elim (λ (o : Index env × Option M). IsValid o.0) (get id i.index) (λ _. h)
        (λ _ _. del-IsKeyed d id i.index h)

  delete_each-IsValid :
      (ids : List ℕ) (i : Index env) (res : List M) → IsValid i → IsValid (delete_each ids i res).0
  unfolding delete_each
  delete_each-IsValid [] i res h = h
  delete_each-IsValid (id ∷ ids) i res h =
      Option-elim (λ (o : Index env × List M). IsValid o.0) (get id i.index)
        (λ _. delete_each-IsValid ids i res h)
        (λ m _. delete_each-IsValid ids (forget id i) _ (del-IsKeyed d id i.index h))

  store_each-IsValid : (ms : List M) (i : Index env) → IsValid i → IsValid (store_each d ms i).0
  unfolding store_each
  store_each-IsValid [] i h = h
  store_each-IsValid (m ∷ ms) i h =
      Option-elim (λ (o : Outcome env). IsValid o.0) (store d m i).1
        (λ _. store_each-IsValid ms (store d m i).0 (store-IsValid m i h))
        (λ _ _. store-IsValid m i h)

  rollback-IsValid : (ms : List M) (i : Index env) → IsValid i → IsValid (rollback d ms i)
  unfolding rollback
  rollback-IsValid [] i h = h
  rollback-IsValid (m ∷ ms) i h =
      rollback-IsValid ms (forget (d.get_id m) i) (del-IsKeyed d (d.get_id m) i.index h)

  rollback_on_error-IsValid :
      (ms : List M) (o : Outcome env) → IsValid o.0 → IsValid (rollback_on_error d ms o).0
  unfolding rollback_on_error
  rollback_on_error-IsValid ms (i, none) h = h
  rollback_on_error-IsValid ms (i, some e) h = rollback-IsValid ms i h

  create_many-IsValid :
      (ms : List M) (i : Index env) → IsValid i → IsValid (create_many_with_id d ms i).0
  unfolding create_many_with_id
  create_many-IsValid ms i h =
      rollback_on_error-IsValid ms (store_each d ms i) (store_each-IsValid ms i h)

  load_each-IsValid :
      (files : List (String × String)) (i : Index env) → IsValid i → IsValid (load_each d files i).0
  unfolding load_each
  load_each-IsValid [] i h = h
  load_each-IsValid ((file_id, file_name) ∷ files) i h =
      Result-elim (λ (o : Outcome env). IsValid o.0) (load_file env file_name i.disk) (λ _ _. h)
        (λ m _.
          load_each-IsValid files (loaded d m i) (put-IsKeyed d (d.get_id m) m i.index refl h))

  load-IsValid : (i : Index env) → IsValid i → IsValid (load d i).0
  unfolding load
  load-IsValid i h =
      Result-elim (λ (o : Outcome env). IsValid o.0) (list_path env i.data_path i.disk) (λ _ _. h)
        (λ (p, files) _. load_each-IsValid (env.range files) _ h)

-- The methods that change the index, as requests.
pub data Request (M : Type 0) : Type 0 where
  create_one create_given update_one : M → Request M
  create_given_many : List M → Request M
  delete_one set_next : ℕ → Request M
  delete_some : List ℕ → Request M
  reload : Request M

module _ {M : Type 0} {env : Env M} (d : Driver M) where
  unfoldable pub perform : Request M → Index env → Index env
  perform (create_one m) i = (create d m i).0
  perform (create_given m) i = (create_with_id d m i).0
  perform (update_one m) i = (update d m i).0
  perform (create_given_many ms) i = (create_many_with_id d ms i).0
  perform (delete_one id) i = (delete id i).0
  perform (set_next id) i = set_next_id id i
  perform (delete_some ids) i = (delete_many ids i).0
  perform reload i = (load d i).0

  unfoldable pub serve : List (Request M) → Index env → Index env
  unfolding perform
  serve [] i = i
  serve (r ∷ rs) i = serve rs (perform r i)

module _ {M : Type 0} {env : Env M} (d : Driver M) (laws : DriverLaws d) where
  pub create-IsValid : (m : M) (i : Index env) → IsValid d i → IsValid d (create d m i).0
  unfolding create
  create-IsValid m i h =
      Option-elim (λ (o : Outcome env). IsValid d o.0) (get i.next_id i.index)
        (λ _. stored_next-IsValid d _ (created d m i) i _ (laws.get_id-set_id m i.next_id) h)
        (λ _ _. h)

  pub update-IsValid : (m : M) (i : Index env) → IsValid d i → IsValid d (update d m i).0
  unfolding update
  update-IsValid m i h =
      Option-elim (λ (o : Outcome env). IsValid d o.0) (get (d.get_id m) i.index) (λ _. h)
        (λ old found.
          Result-elim (λ (o : Outcome env). IsValid d o.0) (d.copy old m) (λ _ _. h)
            (λ new copied.
              put-IsKeyed d (d.get_id m) new i.index
                (laws.get_id-copy old m new copied ∙ h.ids (d.get_id m) old found) h))

  perform-IsValid : (r : Request M) (i : Index env) → IsValid d i → IsValid d (perform d r i)
  unfolding perform delete_many set_next_id
  perform-IsValid (create_one m) i h = create-IsValid m i h
  perform-IsValid (create_given m) i h = create_with_id-IsValid d m i h
  perform-IsValid (update_one m) i h = update-IsValid m i h
  perform-IsValid (create_given_many ms) i h = create_many-IsValid d ms i h
  perform-IsValid (delete_one id) i h = delete-IsValid d id i h
  perform-IsValid (set_next id) i h = h
  perform-IsValid (delete_some ids) i h = delete_each-IsValid d ids i [] h
  perform-IsValid reload i h = load-IsValid d i h

  -- Over a driver that sets and keeps identifiers, any sequence of creations, updates, deletions,
  -- batches and reloads, whatever fails, keeps an index without a repeated identifier and with
  -- every message under its own identifier.
  pub serve-IsValid :
      (rs : List (Request M)) (i : Index env) → IsValid d i → IsValid d (serve d rs i)
  unfolding serve
  serve-IsValid [] i h = h
  serve-IsValid (r ∷ rs) i h = serve-IsValid rs (perform d r i) (perform-IsValid r i h)
