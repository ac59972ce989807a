-- ===== src/Tests/Distances.antt =====
-- The theorems about the products and distances of records, over a toy arithmetic.
use sum.Prelude.{ℕ, ◌+◌, ◌*◌, ◌/◌, ◌≡◌, none, some, List, [], ◌∷◌, arith}
use sum.Prelude.Tests.{nat_eq, ◌==◌}
use sum.Proto.{Record}
use sum.Backend.{Floats, naive}
use sum.Wrapper.Records.{wrap_record}
use sum.Wrapper.Distances.{cosine, cosine_range}
use sum.Wrapper.Distances.Ranges.{cropped, cosine_range-cosine}

-- every number stands for itself
abbrev pub whole : Floats ℕ
whole = record {
  nought = 0;
  one = 1;
  add = λ a b. a + b;
  mul = λ a b. a * b;
  div = λ a b. a / b;
  sqrt = λ a. a;
  is_equal = λ a b. a == b;
  widen = λ a. a;
  add32 = λ a b. a + b;
  mul32 = λ a b. a * b;
  is_equal32 = λ a b. a == b;
}

abbrev vector : List ℕ → Record
vector d = record { id = 1; elems = some d; shape = none; meta = none }

abbrev left : Record
left = vector (1 ∷ 2 ∷ 3 ∷ [])

abbrev right : Record
right = vector (4 ∷ 5 ∷ 6 ∷ 7 ∷ [])

-- the arrays go on with a stale element
abbrev spare : Record → List ℕ
spare rec = 9 ∷ []

cosine_range_example :
    cosine_range whole (naive whole) spare (wrap_record (some left)) (wrap_record (some right)) 1 3
    ≡ cosine whole (naive whole) (cropped 1 3 left) (cropped 1 3 right)
cosine_range_example =
    cosine_range-cosine whole (naive whole) spare left right 1 3 (omega arith) (omega arith)
      (omega arith)
