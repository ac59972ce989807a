-- ===== src/Storage/Records/Search.antt =====
-- FindBy of node/storage/records.go.
use mathlib.Core.List.{Memᴰ}
use sum.Prelude.{
  ℕ, String, ◌≡◌, inl, inr, ◌∙◌, sym, ap, refl, true, none, some, List, [], ◌∷◌, arith,
}
use sum.Prelude.Tests.{Option-cases, Bool-cases, nat_eq, nat_beq_iff, string_eq, ◌==◌}
use sum.Prelude.Lists.{contains}
use sum.Prelude.Map.{get}
use sum.Proto.{Record}
use sum.Storage.Env.{Env}
use sum.Storage.Driver.{record_driver, copy_record}
use sum.Storage.Index
use sum.Storage.Index.{Index, created}
use sum.Storage.Index.Effects.{update_stored}
use sum.Storage.Meta.{entries, bucket_in, meta_index_create}
use sum.Storage.Meta.Laws.{
  bucket, bucket_of_some, bucket_of_none, contains-meta_index_create, meta_index_update_lem,
}
use sum.Storage.Records.{Records, find, found_in, find_by, finish, update}
use sum.Storage.Records.Completeness.{IsIndexed}

module _ {env : Env Record} where
  found_in-mem :
      (id : ℕ) (m : Record) (ids : List ℕ) (i : Index env)
      → contains id ids ≡ true
      → Index.find id i ≡ some m
      → Memᴰ m (found_in ids i)
  unfolding found_in contains
  found_in-mem id m [] i c p = absurd (ground arith)
  found_in-mem id m (x ∷ ids) i c p = elim (Bool-cases (x == id)) [
    | inl e ↦
        let same : Index.find x i ≡ some m =
          ap (λ y. Index.find y i) ((nat_beq_iff x id).0 e) ∙ p in
        rw (same, found_in) (Memᴰ.head refl)
    | inr e ↦
        let later : Memᴰ m (found_in ids i) = found_in-mem id m ids i (ground arith) p in
        elim (Option-cases (Index.find x i)) [
          | inl f ↦ rw (f, found_in) later
          | inr (y, f) ↦ rw (f, found_in) (Memᴰ.tail later)
        ]
  ]

  -- what is in a bucket and stored is returned
  find_by-mem :
      (id : ℕ) (m : Record) (k v : String) (r : Records env)
      → contains id (bucket k v r.meta_by) ≡ true
      → find id r ≡ some m
      → (rs : List Record) × (find_by k v r ≡ some rs) × Memᴰ m rs
  unfolding find_by find contains
  find_by-mem id m k v r c p = elim (Option-cases (get k r.meta_by)) [
    | inl e ↦ absurd (ground (arith, bucket_of_none k v r.meta_by e))
    | inr (idx, e) ↦ (
      found_in (bucket_in v idx) r.base,
      rw (e, find_by) refl,
      found_in-mem id m (bucket_in v idx) r.base
          (ap (contains id) (sym (bucket_of_some k v r.meta_by idx e)) ∙ c) p,
    )
  ]

  -- Where every stored record is in the bucket of each of its meta values, FindBy finds the meta
  -- name of every stored record, and its answer for the value under it has that record.
  pub find_by_complete :
      (id : ℕ) (m : Record) (k v : String) (r : Records env)
      → IsIndexed r
      → find id r ≡ some m
      → get k (entries m) ≡ some v
      → (rs : List Record) × (find_by k v r ≡ some rs) × Memᴰ m rs
  unfolding find
  find_by_complete id m k v r h p q = find_by-mem id m k v r (h id m k v p q) p

  -- Where every stored record is in the bucket of each of its meta values, after an accepted
  -- Update that gives a stored record a value `w` under a meta name of it, FindBy of the value `v`
  -- that it had there still returns the record, with the value `w`.
  pub find_by-update_stale :
      (rec old : Record) (meta : List (String × String)) (k v w : String) (r : Records env)
      → IsIndexed r
      → find rec.id r ≡ some old
      → get k (entries old) ≡ some v
      → rec.meta ≡ some meta
      → get k meta ≡ some w
      → (Index.update record_driver rec r.base).1 ≡ none
      → (r' : Records env) × (m : Record) × (rs : List Record) × (update rec r ≡ some (r', none))
        × (get k (entries m) ≡ some w)
        × (find_by k v r' ≡ some rs)
        × Memᴰ m rs
  unfolding update finish find
  find_by-update_stale rec old meta k v w r h p q e g accepted =
      let r' : Records env = record {
        base = (Index.update record_driver rec r.base).0;
        meta_by = meta_index_create rec r.meta_by;
      } in
      let m = copy_record old rec in
      let held : contains rec.id (bucket k v r'.meta_by) ≡ true =
        ground (arith, h rec.id old k v, contains-meta_index_create rec.id k v rec r.meta_by) in
      let stored : Index.find rec.id r'.base ≡ some m =
        ground (arith, (update_stored record_driver rec old m r.base p refl).1 rec.id) in
      let (rs, found, inside) = find_by-mem rec.id m k v r' held stored in
      (
        r',
        m,
        rs,
        ground (arith, meta_index_update_lem rec r.meta_by),
        unfold copy_record in ground arith,
        found,
        inside,
      )
