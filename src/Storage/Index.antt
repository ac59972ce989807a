-- ===== src/Storage/Index.antt =====
-- node/storage/index.go. The index holds its view of the disk: its folder is its own. A method
-- takes the index and returns it changed, beside its results; the locks make each one atomic.
pub mod Validity
pub mod Effects
pub mod Counts
pub mod Numbering
pub mod Persistence
use sum.Prelude.{ℕ, ◌+◌, ◌%◌, String, Bool, Option, none, some, List, [], ◌∷◌, ◌++◌}
use sum.Prelude.Tests.{ok, err, leb, ◌◇◌, nat_eq, if◌then◌else◌}
use sum.Prelude.Lists.{length}
use sum.Prelude.Map.{get, put, del}
use sum.Prelude.Decimal.{format_uint}
use sum.Proto.{uint64_mod}
use sum.Storage.Env.{Env}
use sum.Storage.Driver.{Driver}
use sum.Storage.Files.{
  Error, invalid_id, record_not_found, system, dat_file_ext, flush, load_file, list_path,
}

pub record Index {M : Type 0} (env : Env M) : Type 0 where
  pub data_path : String
  pub index : List (ℕ × M)
  pub next_id : ℕ
  pub disk : env.Disk

-- What a method that may fail leaves behind: the index, and the error if there is one.
abbrev pub Outcome : {M : Type 0} → Env M → Type 0
Outcome env = Index env × Option Error

-- `id + 1` on uint64
unfoldable pub next : ℕ → ℕ
next id = (id + 1) % uint64_mod

abbrev pub path_sep : String
path_sep = "/"

unfoldable pub path_for_id : String → ℕ → String
path_for_id data_path id = data_path ◇ format_uint id ◇ dat_file_ext

-- WithDriver; `has_suffix` is strings.HasSuffix(dataPath, pathSep)
unfoldable pub with_driver :
    {M : Type 0} (env : Env M) → (String → Bool) → String → env.Disk → Index env
with_driver env has_suffix data_path disk = record {
  data_path = if has_suffix data_path then data_path else data_path ◇ path_sep;
  index = [];
  next_id = 1;
  disk = disk;
}

module _ {M : Type 0} where
  unfoldable pub messages : List (ℕ × M) → List M
  messages [] = []
  messages ((id, m) ∷ rest) = m ∷ messages rest

  -- the loop of ForEach over the entries in their order; the callback keeps a state of its own
  unfoldable pub for_each {ℓ κ} :
      {S : Type ℓ} {E : Type κ} (cb : S → M → S × Option E) (s : S) → List (ℕ × M) → S × Option E
  for_each cb s [] = (s, none)
  for_each cb s ((id, m) ∷ rest) =
      let (s', e) = cb s m in
      let next_entries = for_each cb s' rest in
      elim e [ none ↦ next_entries | some failed ↦ (s', some failed) ]

module _ {M : Type 0} {env : Env M} where
  open env use {remove}

  -- NextID, Size, Find and Objects
  unfoldable pub set_next_id : ℕ → Index env → Index env
  set_next_id n i = record i { next_id = n }

  unfoldable pub size : Index env → ℕ
  size i = length i.index

  unfoldable pub find : ℕ → Index env → Option M
  find id i = get id i.index

  -- `range` is the order in which the runtime iterates over the map this time
  unfoldable pub objects : (List (ℕ × M) → List (ℕ × M)) → Index env → List M
  unfolding messages
  objects range i = messages (range i.index)

  -- `delete(i.index, id)` and `os.Remove(i.pathForID(id))`
  unfoldable pub forget : ℕ → Index env → Index env
  forget id i = record i {
    index = del id i.index;
    disk = remove i.disk (path_for_id i.data_path id);
  }

  unfoldable pub delete : ℕ → Index env → Index env × Option M
  unfolding forget
  delete id i = elim (get id i.index) [ none ↦ (i, none) | some m ↦ (forget id i, some m) ]

  -- the loop of DeleteMany: `res` holds what was removed so far
  unfoldable pub delete_each : List ℕ → Index env → List M → Index env × List M
  unfolding forget
  delete_each [] i res = (i, res)
  delete_each (id ∷ ids) i res = elim (get id i.index) [
    | none ↦ delete_each ids i res
    | some m ↦ delete_each ids (forget id i) (res ++ m ∷ [])
  ]

  unfoldable pub delete_many : List ℕ → Index env → Index env × List M
  unfolding delete_each
  delete_many ids i = delete_each ids i []

module _ {M : Type 0} {env : Env M} (d : Driver M) where
  open d use {make, get_id, set_id, copy}

  -- `i.index[id] = m` after a successful write, `return err` after a failed one
  stored : ℕ → M → Index env → env.Disk × Option Error → Outcome env
  stored id m i (disk, some e) = (record i { disk = disk }, some e)
  stored id m i (disk, none) = (record i { disk = disk; index = put id m i.index }, none)

  -- `i.nextID++` goes with it in Create
  stored_next : ℕ → M → Index env → env.Disk × Option Error → Outcome env
  stored_next id m i (disk, some e) = (record i { disk = disk }, some e)
  stored_next id m i (disk, none) =
      (record i { disk = disk; index = put id m i.index; next_id = next i.next_id }, none)

  -- Create; `created` is the caller's message, whose identifier is set also where Create fails
  unfoldable pub created : M → Index env → M
  created m i = set_id m i.next_id

  unfoldable pub create : M → Index env → Outcome env
  unfolding created stored_next
  create m i = elim (get i.next_id i.index) [
    | some _ ↦ (i, some invalid_id)
    | none ↦
        stored_next i.next_id (created m i) i
          (flush env (created m i) (path_for_id i.data_path i.next_id) i.disk)
  ]

  -- `Flush(record, i.pathForID(id))` and `i.index[id] = record`
  unfoldable pub store : M → Index env → Outcome env
  unfolding stored
  store m i = stored (get_id m) m i (flush env m (path_for_id i.data_path (get_id m)) i.disk)

  unfoldable pub create_with_id : M → Index env → Outcome env
  unfolding store
  create_with_id m i = elim (get (get_id m) i.index) [
    | some _ ↦ (i, some invalid_id)
    | none ↦ store m i
  ]

  -- the loop of CreateManyWIthId, up to the first failure
  unfoldable pub store_each : List M → Index env → Outcome env
  unfolding store
  store_each [] i = (i, none)
  store_each (m ∷ ms) i =
      let (i', e) = store m i in
      let rest = store_each ms i' in elim e [ none ↦ rest | some failed ↦ (i', some failed) ]

  -- rollbackOnError
  unfoldable pub rollback : List M → Index env → Index env
  unfolding forget
  rollback [] i = i
  rollback (m ∷ ms) i = rollback ms (forget (get_id m) i)

  rollback_on_error : List M → Outcome env → Outcome env
  rollback_on_error ms (i, none) = (i, none)
  rollback_on_error ms (i, some e) = (rollback ms i, some e)

  unfoldable pub create_many_with_id : List M → Index env → Outcome env
  unfolding rollback_on_error
  create_many_with_id ms i = rollback_on_error ms (store_each ms i)

  -- the stored object is changed in place, before the write that may fail
  updated : ℕ → M → Index env → env.Disk × Option Error → Outcome env
  updated id m i (disk, e) = (record i { disk = disk; index = put id m i.index }, e)

  unfoldable pub update : M → Index env → Outcome env
  unfolding updated
  update m i = elim (get (get_id m) i.index) [
    | none ↦ (i, some record_not_found)
    | some old ↦ elim (copy old m) [
      | err e ↦ (i, some (system e))
      | ok new ↦
          updated (get_id m) new i (flush env new (path_for_id i.data_path (get_id m)) i.disk)
    ]
  ]

  -- one file of Load: the record under its identifier, and `nextID` past it
  loaded : M → Index env → Index env
  loaded m i = record i {
    index = put (get_id m) m i.index;
    next_id = if leb i.next_id (get_id m) then next (get_id m) else i.next_id;
  }

  unfoldable pub load_each : List (String × String) → Index env → Outcome env
  unfolding loaded
  load_each [] i = (i, none)
  load_each ((file_id, file_name) ∷ files) i = elim (load_file env file_name i.disk) [
    | err e ↦ (i, some e)
    | ok m ↦ load_each files (loaded m i)
  ]

  unfoldable pub load : Index env → Outcome env
  unfolding load_each
  load i = elim (list_path env i.data_path i.disk) [
    | err e ↦ (i, some e)
    | ok (abs_path, files) ↦
        load_each (env.range files) (record i { data_path = abs_path ◇ path_sep; next_id = 1 })
  ]
