-- ===== src/Storage/Meta/Laws.antt =====
-- The buckets after each operation on the meta index (node/storage/records.go).
use mathlib.Core.Bool.{◌&&◌}
use sum.Prelude.{
  ℕ, String, ◌≡◌, refl, Bool, true, false, ◌||◌, Option, none, some, List, [], ◌∷◌, ◌++◌, arith,
}
use sum.Prelude.Tests.{◌==◌, nat_eq, string_eq, if◌then◌else◌}
use text.Mathlib.TextEquality.{eq_iff}
use mathlib.Core.List.{Memᴰ}
use sum.Prelude.Lists.{contains}
use sum.Prelude.Map.{get, put, get-put}
use sum.Proto.{Record}
use sum.Storage.Meta.{
  MetaIndex, MetaBy, bucket_in, index_entry, entries, index_each, meta_index_create, remove_from,
  remove_entry, remove_each, meta_index_remove, meta_index_update, update_each, remove_all,
  create_each,
}

-- the bucket of a name and a value
unfoldable pub bucket : String → String → MetaBy → List ℕ
unfolding bucket_in
bucket key val by = elim (get key by) [ none ↦ [] | some idx ↦ bucket_in val idx ]

pub bucket_of_some :
    (key val : String) (by : MetaBy) (idx : MetaIndex)
    → get key by ≡ some idx
    → bucket key val by ≡ bucket_in val idx
unfolding bucket
bucket_of_some key val by idx e = rw (e, bucket)

pub bucket_of_none : (key val : String) (by : MetaBy) → get key by ≡ none → bucket key val by ≡ []
unfolding bucket
bucket_of_none key val by e = rw (e, bucket)

contains-append : (a b : ℕ) (xs : List ℕ) → contains a (xs ++ b ∷ []) ≡ (contains a xs || b == a)
unfolding contains
contains-append a b [] = ground arith
contains-append a b (x ∷ xs) = ground (arith, contains-append a b xs)

-- one entry adds its identifier to its own bucket, at the end
bucket-index_entry :
    (id : ℕ) (k v key val : String) (by : MetaBy)
    → bucket k v (index_entry id key val by)
      ≡ (if key == k && val == v then bucket k v by ++ id ∷ [] else bucket k v by)
unfolding index_entry bucket get
bucket-index_entry id k v key val by = ground (
  arith,
  get-put k key ((val, id ∷ []) ∷ []) by,
  get-put k key (put val (bucket_in val (get_idx (get key by)) ++ id ∷ []) (get_idx (get key by)))
      by,
  get-put v val (bucket_in val (get_idx (get key by)) ++ id ∷ []) (get_idx (get key by)),
  eq_iff key k,
  eq_iff val v,
)
  where
    get_idx : Option MetaIndex → MetaIndex
    get_idx none = []
    get_idx (some idx) = idx

-- whether a record's meta has the value under the name
unfoldable pub has : String → String → List (String × String) → Bool
has k v [] = false
has k v ((key, val) ∷ rest) = (key == k && val == v) || has k v rest

pub has_of_get :
    (k v : String) (es : List (String × String)) → get k es ≡ some v → has k v es ≡ true
unfolding has get
has_of_get k v [] h = cc
has_of_get k v ((key, val) ∷ rest) h =
    ground (arith, eq_iff key k, eq_iff val v, has_of_get k v rest)

contains-index_entry :
    (j id : ℕ) (k v key val : String) (by : MetaBy)
    → contains j (bucket k v (index_entry id key val by))
      ≡ (contains j (bucket k v by) || (key == k && val == v && id == j))
contains-index_entry j id k v key val by =
    ground (arith, bucket-index_entry id k v key val by, contains-append j id (bucket k v by))

contains-index_each :
    (j id : ℕ) (k v : String) (es : List (String × String)) (by : MetaBy)
    → contains j (bucket k v (index_each id es by))
      ≡ (contains j (bucket k v by) || (id == j && has k v es))
unfolding index_each has
contains-index_each j id k v [] by = ground arith
contains-index_each j id k v ((key, val) ∷ rest) by = ground (
  arith,
  contains-index_each j id k v rest (index_entry id key val by),
  contains-index_entry j id k v key val by,
)

-- _metaIndexCreate adds the identifier of the record to the bucket of each of its meta entries,
-- and neither adds to nor removes from any other bucket.
pub contains-meta_index_create :
    (j : ℕ) (k v : String) (rec : Record) (by : MetaBy)
    → contains j (bucket k v (meta_index_create rec by))
      ≡ (contains j (bucket k v by) || (rec.id == j && has k v (entries rec)))
unfolding meta_index_create
contains-meta_index_create j k v rec by = contains-index_each j rec.id k v (entries rec) by

remove_each_noop :
    (id : ℕ) (es : List (String × String)) (by : MetaBy) → remove_each id es by ≡ some by
unfolding remove_each remove_entry remove_from get
remove_each_noop id [] by = refl
remove_each_noop id ((key, val) ∷ rest) by = ground (arith, remove_each_noop id rest by)

-- _metaIndexRemove never panics, and never changes the meta index.
pub meta_index_remove_noop : (rec : Record) (by : MetaBy) → meta_index_remove rec by ≡ some by
unfolding meta_index_remove
meta_index_remove_noop rec by = remove_each_noop rec.id (entries rec) by

pub meta_index_update_lem :
    (rec : Record) (by : MetaBy) → meta_index_update rec by ≡ some (meta_index_create rec by)
unfolding meta_index_update
meta_index_update_lem rec by = ground (arith, meta_index_remove_noop rec by)

pub remove_all_noop : (recs : List Record) (by : MetaBy) → remove_all recs by ≡ some by
unfolding remove_all
remove_all_noop [] by = refl
remove_all_noop (rec ∷ recs) by =
    ground (arith, meta_index_remove_noop rec by, remove_all_noop recs by)

pub update_each_lem :
    (recs : List Record) (by : MetaBy) → update_each recs by ≡ some (create_each recs by)
unfolding update_each create_each
update_each_lem [] by = refl
update_each_lem (rec ∷ recs) by =
    ground (arith, meta_index_update_lem rec by, update_each_lem recs (meta_index_create rec by))

-- An identifier that a bucket holds stays in it.
pub create_each_keeps :
    (j : ℕ) (k v : String) (recs : List Record) (by : MetaBy)
    → contains j (bucket k v by) ≡ true
    → contains j (bucket k v (create_each recs by)) ≡ true
unfolding create_each
create_each_keeps j k v [] by h = h
create_each_keeps j k v (rec ∷ recs) by h =
    create_each_keeps j k v recs (meta_index_create rec by)
      (ground (arith, contains-meta_index_create j k v rec by))

-- Each record of a list is in the bucket of each of its meta values.
pub create_each_holds :
    (k v : String) (rec : Record) (recs : List Record) (by : MetaBy)
    → Memᴰ rec recs
    → get k (entries rec) ≡ some v
    → contains rec.id (bucket k v (create_each recs by)) ≡ true
unfolding create_each
create_each_holds k v rec [] by m h = elim m [ ]
create_each_holds k v rec (x ∷ recs) by (Memᴰ.head e) h =
    create_each_keeps rec.id k v recs (meta_index_create x by)
      (ground (arith, e, contains-meta_index_create rec.id k v x by, has_of_get k v (entries x)))
create_each_holds k v rec (x ∷ recs) by (Memᴰ.tail m) h =
    create_each_holds k v rec recs (meta_index_create x by) m h
