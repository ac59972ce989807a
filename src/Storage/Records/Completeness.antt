-- ===== src/Storage/Records/Completeness.antt =====
-- The records and their meta index, method by method (node/storage/records.go).
use mathlib.Core.List.{Memᴰ}
use sum.Prelude.{
  ℕ, String, ◌≡◌, ◌⊎◌, inl, inr, ◌∙◌, sym, refl, true, Option, none, some, List, [], ◌∷◌, arith,
}
use sum.Prelude.Tests.{
  Option-cases, Bool-cases, ◌==◌, nat_eq, nat_beq_iff, string_eq, if◌then◌else◌,
}
use sum.Prelude.Lists.{contains}
use sum.Prelude.Map.{get}
use sum.Proto.{Record}
use sum.Storage.Env.{Env}
use sum.Storage.Driver.{record_driver, copy_record}
use sum.Storage.Files.{Error}
use sum.Storage.Index
use sum.Storage.Index.{Index, Outcome, created}
use sum.Storage.Index.Effects.{
  create_fresh, create_failed, create_with_id_fresh, create_with_id_failed, update_stored,
  update_missing, delete_lem, delete_many_lem, create_many_stored, create_many_rolled_back, latest,
}
use sum.Storage.Meta.{MetaBy, entries, meta_index_create, meta_index_update, create_each}
use sum.Storage.Meta.Laws.{
  bucket, has_of_get, contains-meta_index_create, meta_index_remove_noop, meta_index_update_lem,
  remove_all_noop, update_each_lem, create_each_keeps, create_each_holds,
}
use sum.Storage.Records.{
  Records, with_shape, finish, create, create_with_id, create_many_with_id, update, removed, delete,
  all_removed, delete_many,
}

-- every record of the view is in the bucket of each of its meta values
abbrev pub Covers : (ℕ → Option Record) → MetaBy → Type 0
Covers view by =
    (id : ℕ) (m : Record) (k v : String)
    → view id ≡ some m
    → get k (entries m) ≡ some v
    → contains id (bucket k v by) ≡ true

-- one record more, under its identifier
Covers-put :
    (view view' : ℕ → Option Record) (rec new : Record) (by : MetaBy)
    → Covers view by
    → ((j : ℕ) → view' j ≡ (if rec.id == j then some new else view j))
    → ((k v : String)
        → get k (entries new) ≡ some v
        → (get k (entries rec) ≡ some v) ⊎ (contains rec.id (bucket k v by) ≡ true))
    → Covers view' (meta_index_create rec by)
Covers-put view view' rec new by h at src id m k v p q = ground (
  arith,
  at id,
  h id m k v,
  src k v,
  nat_beq_iff rec.id id,
  has_of_get k v (entries rec),
  contains-meta_index_create id k v rec by,
)

-- the entries of a merged record are the new ones, or the old ones where the update has none
entries-copy :
    (old rec : Record) (by : MetaBy) (k v : String)
    → get k (entries (copy_record old rec)) ≡ some v
    → (get k (entries old) ≡ some v → contains rec.id (bucket k v by) ≡ true)
    → (get k (entries rec) ≡ some v) ⊎ (contains rec.id (bucket k v by) ≡ true)
unfolding copy_record
entries-copy old rec by k v p h = elim (Option-cases rec.meta) [
  | inl e ↦ inr (h (ground arith))
  | inr (m, e) ↦ inl (ground arith)
]

-- what a batch stored is the last message with the identifier, or what was there
latest_cases :
    (j : ℕ) (recs : List Record) (o : Option Record) (m : Record)
    → latest (λ r. r.id) j recs o ≡ some m
    → (o ≡ some m) ⊎ (Memᴰ m recs × (m.id ≡ j))
unfolding latest
latest_cases j [] o m h = inl h
latest_cases j (rec ∷ recs) o m h =
    elim (latest_cases j recs (if rec.id == j then some rec else o) m h) [
      | inr (inside, e) ↦ inr (Memᴰ.tail inside, e)
      | inl e ↦ elim (Bool-cases (rec.id == j)) [
        | inl same ↦ inr (Memᴰ.head (ground arith), ground (arith, nat_beq_iff rec.id j))
        | inr other ↦ inl (ground arith)
      ]
    ]

module _ {env : Env Record} where
  abbrev pub IsIndexed : Records env → Type 0
  IsIndexed r = Covers (λ j. Index.find j r.base) r.meta_by

  finish-IsIndexed :
      (o : Outcome env) (r : Records env) (f : MetaBy → Option MetaBy) (by : MetaBy)
      → f r.meta_by ≡ some by
      → (o.1 ≡ none → Covers (λ j. Index.find j o.0) by)
      → ((e : Error) → o.1 ≡ some e → Covers (λ j. Index.find j o.0) r.meta_by)
      → (out : Records env × Option Error) × (finish o r f ≡ some out) × IsIndexed out.0
  unfolding finish
  finish-IsIndexed (i, none) r f by e done failed =
      ((record { base = i; meta_by = by }, none), rw (e, finish) refl, done refl)
  finish-IsIndexed (i, some x) r f by e done failed =
      ((record r { base = i }, some x), refl, failed x refl)

  same_index :
      (i j : Index env) (by : MetaBy)
      → j.index ≡ i.index
      → Covers (λ id. Index.find id i) by
      → Covers (λ id. Index.find id j) by
  unfolding Index.find
  same_index i j by e h = rw e h

  -- Create of a record never panics, and keeps every stored record in the bucket of each of its
  -- meta values.
  pub create-IsIndexed :
      (rec : Record) (r : Records env)
      → IsIndexed r
      → (out : Records env × Option Error) × (create rec r ≡ some out) × IsIndexed out.0
  unfolding create
  create-IsIndexed rec r h =
      finish-IsIndexed (Index.create record_driver (with_shape rec) r.base) r _
        (meta_index_create (created record_driver (with_shape rec) r.base) r.meta_by) refl
        (λ e.
          Covers-put (λ j. Index.find j r.base) _ (created record_driver (with_shape rec) r.base)
            (created record_driver (with_shape rec) r.base) r.meta_by h
            (unfold created in (create_fresh record_driver (with_shape rec) r.base e).2)
            (λ k v x. inl x))
        (λ x e.
          same_index r.base _ r.meta_by (create_failed record_driver (with_shape rec) r.base x e).0
            h)

  -- CreateWithId of a record never panics, and keeps every stored record in the bucket of each of
  -- its meta values.
  pub create_with_id-IsIndexed :
      (rec : Record) (r : Records env)
      → IsIndexed r
      → (out : Records env × Option Error) × (create_with_id rec r ≡ some out) × IsIndexed out.0
  unfolding create_with_id
  create_with_id-IsIndexed rec r h =
      finish-IsIndexed (Index.create_with_id record_driver rec r.base) r _
        (meta_index_create rec r.meta_by) refl
        (λ e.
          Covers-put (λ j. Index.find j r.base) _ rec rec r.meta_by h
            (create_with_id_fresh record_driver rec r.base e).2 (λ k v x. inl x))
        (λ x e.
          same_index r.base _ r.meta_by (create_with_id_failed record_driver rec r.base x e) h)

  -- An Update that the index accepts never panics, and keeps every stored record in the bucket of
  -- each of its meta values.
  pub update-IsIndexed :
      (rec : Record) (r : Records env)
      → (Index.update record_driver rec r.base).1 ≡ none
      → IsIndexed r
      → (out : Records env × Option Error) × (update rec r ≡ some out) × IsIndexed out.0
  unfolding update
  update-IsIndexed rec r accepted h =
      finish-IsIndexed (Index.update record_driver rec r.base) r (meta_index_update rec)
        (meta_index_create rec r.meta_by) (meta_index_update_lem rec r.meta_by)
        (λ _. merged (Index.find rec.id r.base) refl) (λ x e. absurd (ground arith))
    where
      merged :
          (o : Option Record)
          → Index.find rec.id r.base ≡ o
          → Covers
              (λ j. Index.find j (Index.update record_driver rec r.base).0)
              (meta_index_create rec r.meta_by)
      merged none e = absurd (ground (arith, update_missing record_driver rec r.base e))
      merged (some old) e =
          Covers-put (λ j. Index.find j r.base) _ rec (copy_record old rec) r.meta_by h
            (update_stored record_driver rec old (copy_record old rec) r.base e refl).1
            (λ k v x. entries-copy old rec r.meta_by k v x (λ y. h rec.id old k v e y))

  -- Delete of a record never panics, and keeps every stored record in the bucket of each of its
  -- meta values.
  pub delete-IsIndexed :
      (id : ℕ) (r : Records env)
      → IsIndexed r
      → (out : Records env × Option Record) × (delete id r ≡ some out) × IsIndexed out.0
  unfolding delete removed
  delete-IsIndexed id r h = (
    (record { base = (Index.delete id r.base).0; meta_by = r.meta_by }, (Index.delete id r.base).1),
    elim (Option-cases (Index.delete id r.base).1) [
      | inl e ↦ ground arith
      | inr (rec, e) ↦ ground (arith, meta_index_remove_noop rec r.meta_by)
    ],
    λ j m k v p q. h j m k v (ground (arith, (delete_lem id r.base).1 j)) q,
  )

  -- DeleteMany of the records never panics, and keeps every stored record in the bucket of each of
  -- its meta values.
  pub delete_many-IsIndexed :
      (ids : List ℕ) (r : Records env)
      → IsIndexed r
      → (out : Records env × List Record) × (delete_many ids r ≡ some out) × IsIndexed out.0
  unfolding delete_many all_removed
  delete_many-IsIndexed ids r h = (
    (
      record { base = (Index.delete_many ids r.base).0; meta_by = r.meta_by },
      (Index.delete_many ids r.base).1,
    ),
    ground (arith, remove_all_noop (Index.delete_many ids r.base).1 r.meta_by),
    λ id m k v p q. h id m k v (ground (arith, (delete_many_lem ids r.base).1 id)) q,
  )

  -- CreateManyWIthId of the records never panics, and keeps every stored record in the bucket of
  -- each of its meta values, whether the batch is stored or rolled back.
  pub create_many-IsIndexed :
      (recs : List Record) (r : Records env)
      → IsIndexed r
      → (out : Records env × Option Error) × (create_many_with_id recs r ≡ some out)
        × IsIndexed out.0
  unfolding create_many_with_id
  create_many-IsIndexed recs r h =
      finish-IsIndexed (Index.create_many_with_id record_driver recs r.base) r _
        (create_each recs r.meta_by) (update_each_lem recs r.meta_by)
        (λ e id m k v p q.
          elim (latest_cases id recs (Index.find id r.base) m
            (sym (create_many_stored record_driver recs r.base e id) ∙ p)) [
              | inl old ↦ create_each_keeps id k v recs r.meta_by (h id m k v old q)
              | inr (inside, same) ↦ rw (← same) (create_each_holds k v m recs r.meta_by inside q)
            ])
        (λ x e id m k v p q.
          h id m k v (ground (arith, create_many_rolled_back record_driver recs r.base x e id)) q)
