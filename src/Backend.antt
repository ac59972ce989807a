-- ===== src/Backend.antt =====
-- node/backend: the vectors behind the records that oracles see, and the table of implementations.
pub mod Dot
pub mod Selection
use sum.Prelude.{ℕ, zero, suc, ◌+◌, String, Bool, Option, none, some, List, [], ◌∷◌, map}
use sum.Prelude.Tests.{string_eq}
use sum.Prelude.Lists.{get_elem?}
use sum.Prelude.Map.{get}
use sum.Prelude.Int.{ℤ}

-- The machine's floats, a parameter: float64 is the type `F`, a float32 is its bit pattern. A
-- product and a sum are rounded each on its own.
pub record Floats (F : Type 0) : Type 0 where
  pub nought : F
  pub one : F
  pub add : F → F → F
  pub mul : F → F → F
  pub div : F → F → F
  pub sqrt : F → F
  pub is_equal : F → F → Bool
  pub widen : ℕ → F
  pub add32 : ℕ → ℕ → ℕ
  pub mul32 : ℕ → ℕ → ℕ
  pub is_equal32 : ℕ → ℕ → Bool

-- blas32.Vector of gonum
pub record BlasVector : Type 0 where
  pub inc : ℕ
  pub elems : List ℕ

-- What the implementations put into the interface Vector; `unset` is the nil interface.
pub data Vector : Type 0 where
  unset : Vector
  slice : List ℕ → Vector
  blas_wrap : BlasVector → ℤ → Vector

-- what the operating system and the runtime report
pub record Memory : Type 0 where
  pub total : ℕ
  pub sys : ℕ

-- `none` is a panic
pub record Implementation (F : Type 0) : Type 0 where
  pub name : String
  pub space : Memory → ℕ
  pub used : Memory → ℕ
  pub wrap : ℤ → List ℕ → Vector
  pub dot : Vector → Vector → Option F

-- the type assertion to []float32
unfoldable pub elements : Vector → Option (List ℕ)
elements (slice d) = some d
elements unset = none
elements (blas_wrap v sz) = none

module _ {F : Type 0} (fl : Floats F) where
  -- the loop of naive's Dot from the index `i` on; the assertion on `b` is made in its body
  unfoldable pub naive_loop : Vector → ℕ → F → List ℕ → Option F
  unfolding elements
  naive_loop b i dot [] = some dot
  naive_loop b i dot (va ∷ rest) = elim (elements b) [
    | none ↦ none
    | some d ↦ elim (get_elem? d i) [
      | none ↦ none
      | some vb ↦ naive_loop b (suc i) (fl.add dot (fl.mul (fl.widen va) (fl.widen vb))) rest
    ]
  ]

  unfoldable pub naive_dot : Vector → Vector → Option F
  unfolding naive_loop elements
  naive_dot a b = elim (elements a) [ none ↦ none | some d ↦ naive_loop b 0 fl.nought d ]

  unfoldable pub naive : Implementation F
  unfolding naive_dot
  naive = record {
    name = "naive";
    space = λ m. m.total;
    used = λ m. m.sys;
    wrap = λ n d. slice d;
    dot = naive_dot;
  }

-- gonum's blas32.Dot is the parameter `dot32`; `none` where it panics.
module _ {F : Type 0} (fl : Floats F) (dot32 : ℤ → BlasVector → BlasVector → Option ℕ) where
  unfoldable pub blas_dot : Vector → Vector → Option F
  blas_dot (blas_wrap v n) (blas_wrap u k) = elim (dot32 n v u) [
    | none ↦ none
    | some f ↦ some (fl.widen f)
  ]
  blas_dot (blas_wrap v n) (slice d) = none
  blas_dot (blas_wrap v n) unset = none
  blas_dot (slice d) b = none
  blas_dot unset b = none

  unfoldable pub blas : Implementation F
  unfolding blas_dot
  blas = record {
    name = "blas32";
    space = λ m. m.total;
    used = λ m. m.sys;
    wrap = λ n d. blas_wrap (record { inc = 1; elems = d }) n;
    dot = blas_dot;
  }

  -- the package's variables: the table `available` is fixed, so `selected` is the state
  unfoldable pub available : List (String × Implementation F)
  unfolding naive blas
  available = ("naive", naive fl) ∷ ("blas32", blas) ∷ []

  -- `selected`, as the package starts: the table has the name
  unfoldable pub initial : Implementation F
  unfolding blas
  initial = blas

  -- Available, in one of the orders of the map
  unfoldable pub available_names : List String
  unfolding available
  available_names = map (λ e. e.0) available

  -- Select; `none` is its panic
  unfoldable pub select : String → Implementation F → Option (Implementation F)
  unfolding available get
  select name selected = get name available
