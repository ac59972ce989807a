-- ===== src/Wrapper/Records.antt =====
-- node/wrapper/record.go and records.go, but for the arithmetic on floats.
pub mod Listing
use sum.Prelude.{ℕ, String, Bool, true, false, not, Option, none, some, List, [], ◌∷◌, ◌++◌}
use sum.Prelude.Tests.{nat_eq, string_eq, ◌==◌, if◌then◌else◌}
use sum.Prelude.Lists.{length, get_elem?}
use sum.Prelude.Map.{get}
use sum.Proto.{Record}
use sum.Storage.Env.{Env}
use sum.Storage.Index.{for_each}
use sum.Storage.Records
use sum.Storage.Records.{Records}
use sum.Storage.Meta.{entries}

-- Record; the vector of the backend is a function of the record's data and is left out. `source` is
-- the wrapped record, `none` for nil.
pub record Wrapped : Type 0 where
  pub id : ℕ
  pub size : ℕ
  pub source : Option Record

-- `rec.Data` as the loops over it see it
abbrev pub elems_of : Record → List ℕ
elems_of rec = elim rec.elems [ none ↦ [] | some d ↦ d ]

-- SetData; `none` is the panic on a nil record
unfoldable pub set_data : Option (List ℕ) → Wrapped → Option Wrapped
set_data d w = elim w.source [
  | none ↦ none
  | some rec ↦ some (record w {
    source = some (record rec { elems = d });
    size = length (elim d [ none ↦ [] | some l ↦ l ]);
  })
]

unfoldable pub wrap_record : Option Record → Wrapped
wrap_record none = record { id = 0; size = 0; source = none }
wrap_record (some rec) = record { id = rec.id; size = length (elems_of rec); source = some rec }

unfoldable pub is_null : Wrapped → Bool
is_null w = elim w.source [ none ↦ true | some _ ↦ false ]

unfoldable pub is : Wrapped → Wrapped → Bool
is w b = elim w.source [
  | none ↦ false
  | some _ ↦ elim b.source [ none ↦ false | some _ ↦ w.id == b.id ]
]

-- Get and Meta; `none` is a panic, on a nil record or out of range
unfoldable pub get_at : ℕ → Wrapped → Option ℕ
get_at index w = elim w.source [ none ↦ none | some rec ↦ get_elem? (elems_of rec) index ]

unfoldable pub meta_value : String → Wrapped → Option String
meta_value name w = elim w.source [
  | none ↦ none
  | some rec ↦ some (elim (get name (entries rec)) [ none ↦ "" | some v ↦ v ])
]

-- the callbacks of All and AllBut: what was wrapped so far, and a panic as the failure
unfoldable pub append_wrapped : List Wrapped → Record → List Wrapped × Option (Unit {0})
unfolding wrap_record
append_wrapped wrapped rec = (wrapped ++ wrap_record (some rec) ∷ [], none)

unfoldable pub append_but : Wrapped → List Wrapped → Record → List Wrapped × Option (Unit {0})
unfolding wrap_record
append_but exclude wrapped rec = elim exclude.source [
  | none ↦ (wrapped, some tt)
  | some ex ↦ (if rec.id == ex.id then wrapped else wrapped ++ wrap_record (some rec) ∷ [], none)
]

-- the list, unless the iteration panicked
unfoldable pub listed : List Wrapped × Option (Unit {0}) → Option (List Wrapped)
listed (wrapped, none) = some wrapped
listed (wrapped, some _) = none

module _ {env : Env Record} where
  unfoldable pub find_wrapped : ℕ → Records env → Wrapped
  unfolding wrap_record
  find_wrapped id r = wrap_record (Records.find id r)

  unfoldable pub all : (List (ℕ × Record) → List (ℕ × Record)) → Records env → List Wrapped
  unfolding append_wrapped
  all range r = (for_each append_wrapped [] (range r.base.index)).0

  -- `none` where it panics, on a null record to exclude and any record stored
  unfoldable pub all_but :
      (List (ℕ × Record) → List (ℕ × Record)) → Wrapped → Records env → Option (List Wrapped)
  unfolding append_but listed
  all_but range exclude r = listed (for_each (append_but exclude) [] (range r.base.index))

-- CreateRecord of the wrapper: it is not stored
unfoldable pub create_wrapped : Option (List ℕ) → Wrapped
unfolding wrap_record
create_wrapped d = wrap_record (some (record { id = 0; elems = d; shape = none; meta = none }))
