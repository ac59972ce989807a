-- ===== src/Prelude/Map.antt =====
-- Go's built-in maps as association lists. A write replaces the entry in place, or adds one.
-- The order of the entries stands for the order in which the runtime happens to iterate.
use mathlib.Core.Path.{◌≡◌, refl}
use mathlib.Core.List.{List, [], ◌∷◌}
use mathlib.Core.Option.{Option, none, some}
use native.Mathlib.Omega.{arith}
use sum.Prelude.Tests.{Eq, ◌==◌, if◌then◌else◌}

module _ {ℓ κ} {K : Type ℓ} {V : Type κ} ⦃e : Eq K⦄ where
  -- `m[k]`
  unfoldable pub get : K → List (K × V) → Option V
  get k [] = none
  get k ((j, v) ∷ m) = if j == k then some v else get k m

  -- `m[k] = v`
  unfoldable pub put : K → V → List (K × V) → List (K × V)
  put k v [] = (k, v) ∷ []
  put k v ((j, w) ∷ m) = if j == k then (j, v) ∷ m else (j, w) ∷ put k v m

  -- `delete(m, k)`
  unfoldable pub del : K → List (K × V) → List (K × V)
  del k [] = []
  del k ((j, w) ∷ m) = let rest = del k m in if j == k then rest else (j, w) ∷ rest

  -- no key stands twice
  abbrev pub IsMap : List (K × V) → Type κ
  IsMap [] = Unit
  IsMap ((k, v) ∷ m) = (get k m ≡ none) × IsMap m

  pub get-put :
      (j k : K) (v : V) (m : List (K × V))
      → get j (put k v m) ≡ (if k == j then some v else get j m)
  unfolding get put
  get-put j k v [] = refl
  get-put j k v ((i, w) ∷ m) =
      ground (arith, e.means_eq i k, e.means_eq k j, e.means_eq i j, get-put j k v m)

  pub get-del : (j k : K) (m : List (K × V)) → get j (del k m) ≡ (if k == j then none else get j m)
  unfolding get del
  get-del j k [] = ground arith
  get-del j k ((i, w) ∷ m) =
      ground (arith, e.means_eq i k, e.means_eq k j, e.means_eq i j, get-del j k m)

  pub put-IsMap : (k : K) (v : V) (m : List (K × V)) → IsMap m → IsMap (put k v m)
  unfolding get put
  put-IsMap k v [] h = (refl, tt)
  put-IsMap k v ((i, w) ∷ m) h =
      ground (arith, e.means_eq i k, e.means_eq k i, get-put i k v m, put-IsMap k v m)

  pub del-IsMap : (k : K) (m : List (K × V)) → IsMap m → IsMap (del k m)
  unfolding get del
  del-IsMap k [] h = tt
  del-IsMap k ((i, w) ∷ m) h = ground (arith, e.means_eq i k, get-del i k m, del-IsMap k m)
