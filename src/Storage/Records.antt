-- ===== src/Storage/Records.antt =====
-- The methods of node/storage/records.go and oracles.go: the index of records with its index by meta value, and
-- the index of oracles.
pub mod Completeness
pub mod Search
pub mod Serving
use sum.Prelude.{ℕ, String, Bool, Option, none, some, List, [], ◌∷◌, ◌++◌}
use sum.Prelude.Tests.{Result, ok, err, ◌==◌, nat_eq, string_eq, if◌then◌else◌}
use sum.Prelude.Lists.{length}
use sum.Prelude.Map.{get, put}
use sum.Proto.{Record, Oracle}
use sum.Storage.Env.{Env}
use sum.Storage.Driver.{record_driver, oracle_driver}
use sum.Storage.Files.{Error}
use sum.Storage.Meta.{
  MetaBy, bucket_in, meta_index_create, meta_index_remove, meta_index_update, update_each,
  remove_all, create_each,
}
use sum.Storage.Index
use sum.Storage.Index.{Index, Outcome, messages}

pub record Records (env : Env Record) : Type 0 where
  pub base : Index env
  pub meta_by : MetaBy

-- `if record.Shape == nil` of Create
unfoldable pub with_shape : Record → Record
with_shape rec = elim rec.shape [
  | some _ ↦ rec
  | none ↦ record rec { shape = some (length (elim rec.elems [ none ↦ [] | some d ↦ d ]) ∷ []) }
]

-- what a method leaves: the records and an error; `none` is a panic
abbrev pub Done : Env Record → Type 0
Done env = Option (Records env × Option Error)

module _ {env : Env Record} where
  unfoldable pub find : ℕ → Records env → Option Record
  unfolding Index.find
  find id r = Index.find id r.base

  found_in : List ℕ → Index env → List Record
  unfolding Index.find
  found_in [] i = []
  found_in (id ∷ ids) i = elim (Index.find id i) [
    | none ↦ found_in ids i
    | some m ↦ m ∷ found_in ids i
  ]

  -- FindBy; `none` is the nil of a meta name that is not indexed
  unfoldable pub find_by : String → String → Records env → Option (List Record)
  unfolding found_in bucket_in
  find_by meta val r = elim (get meta r.meta_by) [
    | none ↦ none
    | some idx ↦ some (found_in (bucket_in val idx) r.base)
  ]

  -- `if err != nil { return err }` after the call of the index, then the work on the meta index
  unfoldable pub finish : Outcome env → Records env → (MetaBy → Option MetaBy) → Done env
  finish (i, some e) r f = some (record r { base = i }, some e)
  finish (i, none) r f = elim (f r.meta_by) [
    | none ↦ none
    | some by ↦ some (record { base = i; meta_by = by }, none)
  ]

  unfoldable pub create : Record → Records env → Done env
  unfolding finish with_shape
  create rec r =
      finish (Index.create record_driver (with_shape rec) r.base) r
        (λ by. some (meta_index_create (Index.created record_driver (with_shape rec) r.base) by))

  unfoldable pub create_with_id : Record → Records env → Done env
  unfolding finish
  create_with_id rec r =
      finish (Index.create_with_id record_driver rec r.base) r
        (λ by. some (meta_index_create rec by))

  unfoldable pub create_many_with_id : List Record → Records env → Done env
  unfolding finish update_each
  create_many_with_id recs r =
      finish (Index.create_many_with_id record_driver recs r.base) r (update_each recs)

  unfoldable pub update : Record → Records env → Done env
  unfolding finish
  update rec r = finish (Index.update record_driver rec r.base) r (meta_index_update rec)

  -- Delete, with the removed record
  removed : Index env × Option Record → Records env → Option (Records env × Option Record)
  removed (i, none) r = some (record r { base = i }, none)
  removed (i, some rec) r = elim (meta_index_remove rec r.meta_by) [
    | none ↦ none
    | some by ↦ some (record { base = i; meta_by = by }, some rec)
  ]

  unfoldable pub delete : ℕ → Records env → Option (Records env × Option Record)
  unfolding removed
  delete id r = removed (Index.delete id r.base) r

  all_removed : Index env × List Record → Records env → Option (Records env × List Record)
  all_removed (i, recs) r = elim (remove_all recs r.meta_by) [
    | none ↦ none
    | some by ↦ some (record { base = i; meta_by = by }, recs)
  ]

  unfoldable pub delete_many : List ℕ → Records env → Option (Records env × List Record)
  unfolding all_removed remove_all
  delete_many ids r = all_removed (Index.delete_many ids r.base) r

  -- LoadRecords; `range` is the order in which the runtime iterates over the loaded records
  loaded_records :
      (List (ℕ × Record) → List (ℕ × Record)) → Outcome env → Result Error (Records env)
  loaded_records range (i, some e) = err e
  loaded_records range (i, none) =
      ok (record { base = i; meta_by = create_each (messages (range i.index)) [] })

module _ (env : Env Record) where
  unfoldable pub load_records :
      (String → Bool)
      → (List (ℕ × Record) → List (ℕ × Record))
      → String
      → env.Disk
      → Result Error (Records env)
  unfolding loaded_records create_each
  load_records has_suffix range data_path disk =
      loaded_records range
        (Index.load record_driver (Index.with_driver env has_suffix data_path disk))

loaded_oracles : {env : Env Oracle} → Outcome env → Result Error (Index env)
loaded_oracles (i, none) = ok i
loaded_oracles (i, some e) = err e

-- LoadOracles; Find and Delete of Oracles are those of the index
unfoldable pub load_oracles :
    (env : Env Oracle) → (String → Bool) → String → env.Disk → Result Error (Index env)
unfolding loaded_oracles
load_oracles env has_suffix data_path disk =
    loaded_oracles (Index.load oracle_driver (Index.with_driver env has_suffix data_path disk))
