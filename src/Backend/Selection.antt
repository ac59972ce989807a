-- ===== src/Backend/Selection.antt =====
-- Select, Name and Available of node/backend/backend.go.
use sum.Prelude.{Bool, ℕ, String, ◌≡◌, refl, inl, inr, true, false, none, some, Option}
use sum.Prelude.Tests.{string_eq, ◌==◌, Bool-cases}
use sum.Prelude.Lists.{contains}
use sum.Prelude.Map.{get}
use sum.Prelude.Int.{ℤ}
use sum.Backend.{
  Floats, BlasVector, Implementation, available, available_names, select, naive, blas,
}

-- what a call of Select leaves, for a name that the table has or not
unfoldable pub Selects : {F : Type 0} → String → Bool → Option (Implementation F) → Type 0
Selects {F} name true after = (impl : Implementation F) × (after ≡ some impl) × (impl.name ≡ name)
Selects name false after = after ≡ none

module _ {F : Type 0} (fl : Floats F) (dot32 : ℤ → BlasVector → BlasVector → Option ℕ) where
  -- Select of a name that Available lists does not panic, and the backend then has this name;
  -- Select of any other name panics.
  pub select_lem :
      (name : String) (old : Implementation F)
      → Selects name (contains name (available_names fl dot32)) (select fl dot32 name old)
  unfolding Selects select available available_names contains get naive blas
  select_lem name old = elim (Bool-cases ("naive" == name)) [
    | inl e ↦ rw (e) (naive fl, refl, (string_eq.means_eq "naive" name).0 e)
    | inr e ↦ rw (e) (elim (Bool-cases ("blas32" == name)) [
      | inl d ↦ rw (d) (blas fl dot32, refl, (string_eq.means_eq "blas32" name).0 d)
      | inr d ↦ rw (d) refl
    ])
  ]
