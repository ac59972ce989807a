-- ===== src/Storage/Index/Persistence.antt =====
-- The index and the files of its messages (node/storage/index.go).
pub mod Methods
pub mod Batch
use text.Mathlib.TextLemmas.{append_cancel_left, append_cancel_right}
use sum.Prelude.{
  ℕ, ◌<◌, String, ◌≡◌, ◌≢◌, ◌∙◌, sym, ap, inl, inr, Bool, true, false, Option, none, some, List, [],
  ◌∷◌, arith, refl,
}
use sum.Prelude.Tests.{
  Result, ok, err, Option-cases, Option-elim, Bool-cases, Result-cases, nat_eq, nat_beq_iff, ◌==◌,
}
use sum.Prelude.Lists.{contains, All}
use sum.Prelude.Map.{get, put, del, get-put, get-del}
use sum.Prelude.Decimal.{format_uint, format_uint_inj}
use sum.Proto.{uint64_mod}
use sum.Storage.Env.{Env, EnvLaws}
use sum.Storage.Driver.{Driver, DriverLaws}
use sum.Storage.Files.{Error, invalid_id, flush, dat_file_ext}
use sum.Storage.Index.{
  Index, Outcome, path_for_id, find, forget, delete, delete_each, created, stored, stored_next,
  store, create, create_with_id, store_each, rollback, create_many_with_id, rollback_on_error,
  updated, update, next,
}

-- two identifiers of 64 bits have different files
path-ne :
    (p : String) (a b : ℕ)
    → a < uint64_mod
    → b < uint64_mod
    → a ≢ b
    → path_for_id p a ≢ path_for_id p b
unfolding path_for_id
path-ne p a b ha hb h e = h (
    format_uint_inj a b ha hb (
      append_cancel_right (format_uint a) (format_uint b) dat_file_ext
        (append_cancel_left p _ _ e)))

-- the file at a path holds the message
abbrev pub IsWritten : {M : Type 0} (env : Env M) → M → String → env.Disk → Type 0
IsWritten env m p disk = (b : env.Bytes) × (env.marshal m ≡ ok b) × (env.read_file disk p ≡ ok b)

module _ {M : Type 0} {env : Env M} where
  abbrev pub IsSyncedAt : Index env → ℕ → Type 0
  IsSyncedAt i j = (m : M) → find j i ≡ some m → IsWritten env m (path_for_id i.data_path j) i.disk

  -- every stored message of 64-bit identifier is in its file
  abbrev pub IsSynced : Index env → Type 0
  IsSynced i = (j : ℕ) → j < uint64_mod → IsSyncedAt i j

module _ {M : Type 0} {env : Env M} (files : EnvLaws env) where
  written :
      (m : M) (p : String) (disk : env.Disk) (b : env.Bytes)
      → env.marshal m ≡ ok b
      → (flush env m p disk).1 ≡ none
      → env.read_file (flush env m p disk).0 p ≡ ok b
  unfolding flush
  written m p disk b e h = ground (arith, files.read-write disk p b)

  flush-IsWritten :
      (m : M) (p : String) (disk : env.Disk)
      → (flush env m p disk).1 ≡ none
      → IsWritten env m p (flush env m p disk).0
  flush-IsWritten m p disk h = elim (Result-cases (env.marshal m)) [
    | inl (b, e) ↦ (b, e, written m p disk b e h)
    | inr (e, f) ↦ absurd (unfold flush in ground arith)
  ]

  flush-read_ne :
      (m : M) (p q : String) (disk : env.Disk)
      → p ≢ q
      → env.read_file (flush env m p disk).0 q ≡ env.read_file disk q
  unfolding flush
  flush-read_ne m p q disk h = elim (Result-cases (env.marshal m)) [
    | inl (b, e) ↦ ground (arith, files.read-write_ne disk p q b h)
    | inr (e, f) ↦ ground arith
  ]

  -- a flush of one identifier's file leaves the others
  pub flush-IsWritten_ne :
      (m n : M) (dp : String) (id j : ℕ) (disk : env.Disk)
      → id < uint64_mod
      → j < uint64_mod
      → id ≢ j
      → IsWritten env n (path_for_id dp j) disk
      → IsWritten env n (path_for_id dp j) (flush env m (path_for_id dp id) disk).0
  flush-IsWritten_ne m n dp id j disk hid hj h (b, e, r) =
      (b, e, flush-read_ne m _ _ disk (path-ne dp id j hid hj h) ∙ r)

  pub forget-IsSyncedAt :
      (id j : ℕ) (i : Index env)
      → id < uint64_mod
      → j < uint64_mod
      → (id ≢ j → IsSyncedAt i j)
      → IsSyncedAt (forget id i) j
  unfolding forget find
  forget-IsSyncedAt id j i hid hj h m p = elim (Bool-cases (id == j)) [
    | inl e ↦ absurd (ground (arith, get-del j id i.index))
    | inr e ↦
        let ne : id ≢ j = ground arith in
        let (b, x, r) = h ne m (ground (arith, get-del j id i.index)) in
        (b, x, files.read-remove_ne i.disk _ _ (path-ne i.data_path id j hid hj ne) ∙ r)
  ]

  pub forget-IsSynced :
      (id : ℕ) (i : Index env) → id < uint64_mod → IsSynced i → IsSynced (forget id i)
  forget-IsSynced id i hid h j hj = forget-IsSyncedAt id j i hid hj (λ _. h j hj)

  -- a write that succeeded, with its entry
  pub write-IsSynced :
      (id : ℕ) (m : M) (i : Index env) (n : ℕ)
      → id < uint64_mod
      → (flush env m (path_for_id i.data_path id) i.disk).1 ≡ none
      → IsSynced i
      → IsSynced {env = env} (record i {
        disk = (flush env m (path_for_id i.data_path id) i.disk).0;
        index = put id m i.index;
        next_id = n;
      })
  unfolding find
  write-IsSynced id m i n hid ok_ h j hj m' p = elim (Bool-cases (id == j)) [
    | inl e ↦
        let x : id ≡ j = (nat_beq_iff id j).0 e in
        let y : m ≡ m' = ground (arith, get-put j id m i.index) in
        rw (← x, ← y) (flush-IsWritten m (path_for_id i.data_path id) i.disk ok_)
    | inr e ↦
        flush-IsWritten_ne m m' i.data_path id j i.disk hid hj (ground arith)
          (h j hj m' (ground (arith, get-put j id m i.index)))
  ]

  -- a write that failed spoils at most the file of its own identifier
  pub flush-IsSyncedAt :
      (id j : ℕ) (m : M) (i : Index env)
      → id < uint64_mod
      → j < uint64_mod
      → id ≢ j
      → IsSyncedAt i j
      → IsSyncedAt {env = env}
          (record i { disk = (flush env m (path_for_id i.data_path id) i.disk).0 })
          j
  unfolding find
  flush-IsSyncedAt id j m i hid hj ne h m' p =
      flush-IsWritten_ne m m' i.data_path id j i.disk hid hj ne (h m' p)

  pub free-IsSynced :
      (id : ℕ) (m : M) (i : Index env)
      → id < uint64_mod
      → find id i ≡ none
      → IsSynced i
      → IsSynced {env = env}
          (record i { disk = (flush env m (path_for_id i.data_path id) i.disk).0 })
  unfolding find
  free-IsSynced id m i hid free h j hj m' p =
      flush-IsSyncedAt id j m i hid hj (λ e. absurd (ground arith)) (h j hj) m' p
