-- ===== src/Storage/Meta.antt =====
-- The index of records by meta name and value, of node/storage/records.go.
pub mod Laws
use sum.Prelude.{ℕ, String, Option, none, some, List, [], ◌∷◌, ◌++◌}
use sum.Prelude.Tests.{◌==◌, nat_eq, string_eq, if◌then◌else◌}
use sum.Prelude.Map.{get, put}
use sum.Proto.{Record}

-- the identifiers by value, and the values by meta name
abbrev pub MetaIndex : Type 0
MetaIndex = List (String × List ℕ)

abbrev pub MetaBy : Type 0
MetaBy = List (String × MetaIndex)

-- an entry that is missing reads as the nil slice, a nil map has no entry
unfoldable pub bucket_in : String → MetaIndex → List ℕ
bucket_in val idx = elim (get val idx) [ none ↦ [] | some ids ↦ ids ]

-- one round of the loop of _metaIndexCreate
unfoldable pub index_entry : ℕ → String → String → MetaBy → MetaBy
unfolding bucket_in
index_entry id key val by = elim (get key by) [
  | none ↦ put key ((val, id ∷ []) ∷ []) by
  | some idx ↦ put key (put val (bucket_in val idx ++ id ∷ []) idx) by
]

-- `rec.Meta` as the loops over it see it
abbrev pub entries : Record → List (String × String)
entries rec = elim rec.meta [ none ↦ [] | some m ↦ m ]

unfoldable pub index_each : ℕ → List (String × String) → MetaBy → MetaBy
unfolding index_entry
index_each id [] by = by
index_each id ((key, val) ∷ rest) by = index_each id rest (index_entry id key val by)

unfoldable pub meta_index_create : Record → MetaBy → MetaBy
unfolding index_each
meta_index_create rec by = index_each rec.id (entries rec) by

-- the search of _metaIndexRemove in a bucket: the bucket without the identifier, if it is there
unfoldable pub remove_from : ℕ → List ℕ → Option (List ℕ)
remove_from id [] = none
remove_from id (elem ∷ rest) =
    if elem == id
    then some rest
    else elim (remove_from id rest) [ none ↦ none | some r ↦ some (elem ∷ r) ]

-- One round of the loop of _metaIndexRemove. Its body runs where the key is NOT found, so
-- `metaIdx` is nil there; the value `none` stands for the panic of an assignment to a nil map.
unfoldable pub remove_entry : ℕ → String → String → MetaBy → Option MetaBy
unfolding bucket_in remove_from
remove_entry id key val by = elim (get key by) [
  | some _ ↦ some by
  | none ↦ elim (remove_from id (bucket_in val [])) [ none ↦ some by | some _ ↦ none ]
]

unfoldable pub remove_each : ℕ → List (String × String) → MetaBy → Option MetaBy
unfolding remove_entry
remove_each id [] by = some by
remove_each id ((key, val) ∷ rest) by = elim (remove_entry id key val by) [
  | none ↦ none
  | some by' ↦ remove_each id rest by'
]

unfoldable pub meta_index_remove : Record → MetaBy → Option MetaBy
unfolding remove_each
meta_index_remove rec by = remove_each rec.id (entries rec) by

unfoldable pub meta_index_update : Record → MetaBy → Option MetaBy
unfolding meta_index_remove meta_index_create
meta_index_update rec by = elim (meta_index_remove rec by) [
  | none ↦ none
  | some by' ↦ some (meta_index_create rec by')
]

unfoldable pub update_each : List Record → MetaBy → Option MetaBy
unfolding meta_index_update
update_each [] by = some by
update_each (rec ∷ recs) by = elim (meta_index_update rec by) [
  | none ↦ none
  | some by' ↦ update_each recs by'
]

unfoldable pub remove_all : List Record → MetaBy → Option MetaBy
unfolding meta_index_remove
remove_all [] by = some by
remove_all (rec ∷ recs) by = elim (meta_index_remove rec by) [
  | none ↦ none
  | some by' ↦ remove_all recs by'
]

unfoldable pub create_each : List Record → MetaBy → MetaBy
unfolding meta_index_create
create_each [] by = by
create_each (rec ∷ recs) by = create_each recs (meta_index_create rec by)
