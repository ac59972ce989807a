-- ===== src/Wrapper/Distances.antt =====
-- The arithmetic of node/wrapper/record.go on the backend's vectors.
pub mod Ranges
pub mod Symmetry
use sum.Prelude.{
  ℕ, zero, suc, ◌+◌, ◌-◌, ◌^◌, ◌%◌, Bool, true, false, not, ◌&&◌, ◌||◌, Option, none, some, List,
  [], ◌∷◌, ◌++◌,
}
use sum.Prelude.Tests.{leb, if◌then◌else◌}
use sum.Prelude.Lists.{length, get_elem?, take, drop}
use sum.Prelude.Int.{ℤ, pos}
use sum.Proto.{Record}
use sum.Backend.{Floats, Implementation, Vector, unset}
use sum.Wrapper.Records.{Wrapped, elems_of}

-- float32(1)
abbrev pub one32 : ℕ
one32 = 1065353216

-- reflect.DeepEqual of two slices, which looks at no element where both begin at the same place of
-- the same array, `same`
unfoldable pub deep_equal : (ℕ → ℕ → Bool) → Bool → Option (List ℕ) → Option (List ℕ) → Bool
deep_equal eq same none none = true
deep_equal eq same none (some ys) = false
deep_equal eq same (some xs) none = false
deep_equal eq same (some []) (some []) = true
deep_equal eq same (some []) (some (y ∷ ys)) = false
deep_equal eq same (some (x ∷ xs)) (some []) = false
deep_equal eq same (some (x ∷ xs)) (some (y ∷ ys)) =
    let rest = deep_equal eq same (some xs) (some ys) in (same || eq x y) && rest

-- `data[start:end]` of a slice whose array goes on with `spare`; `none` is the panic
unfoldable pub reslice : List ℕ → List ℕ → ℕ → ℕ → Option (List ℕ)
reslice d spare start end =
    if leb start end && leb end (length (d ++ spare))
    then some (take (end - start) (drop start (d ++ spare)))
    else none

-- the elements for a loop in whose body the record is looked at: a nil record panics there
unfoldable pub data_in_loop : Wrapped → List ℕ
data_in_loop b = elim b.source [ none ↦ [] | some rec ↦ elems_of rec ]

-- `none` is a panic throughout, on a nil record among others.
module _ {F : Type 0} (fl : Floats F) where
  unfoldable pub equal : Bool → Wrapped → Wrapped → Option Bool
  unfolding deep_equal
  equal same w b = elim w.source [
    | none ↦ none
    | some x ↦ elim b.source [
      | none ↦ none
      | some y ↦ some (deep_equal fl.is_equal32 same x.elems y.elems)
    ]
  ]

  -- the quotient that Jaccard and JaccardRange end with
  unfoldable pub ratio : F → F → F
  ratio m11 m10 =
      if fl.is_equal (fl.add m10 m11) fl.nought then fl.nought else fl.div m11 (fl.add m11 m10)

  -- one element of both, in their loops: `m11` and `m10` after it
  unfoldable pub count_pair : ℕ → ℕ → F × F → F × F
  count_pair va vb (m11, m10) = (
    fl.add m11 (fl.widen (fl.mul32 va vb)),
    if fl.is_equal32 (fl.add32 va vb) one32 then fl.add m10 fl.one else m10,
  )

  -- the loop of Jaccard over the elements of `w` from the index `i` on
  unfoldable pub jaccard_loop : List ℕ → ℕ → F × F → List ℕ → Option (F × F)
  unfolding count_pair
  jaccard_loop ys i m [] = some m
  jaccard_loop ys i m (va ∷ rest) = elim (get_elem? ys i) [
    | none ↦ none
    | some vb ↦ jaccard_loop ys (suc i) (count_pair va vb m) rest
  ]

  unfoldable pub finish : Option (F × F) → Option F
  unfolding ratio
  finish none = none
  finish (some (m11, m10)) = some (ratio m11 m10)

  unfoldable pub jaccard : Wrapped → Wrapped → Option F
  unfolding jaccard_loop data_in_loop finish
  jaccard w b = elim w.source [
    | none ↦ none
    | some rec ↦ finish (jaccard_loop (data_in_loop b) 0 (fl.nought, fl.nought) (elems_of rec))
  ]

  -- the loop of JaccardRange, `n` elements from the index `i` on
  unfoldable pub range_loop : List ℕ → List ℕ → ℕ → ℕ → F × F → Option (F × F)
  unfolding count_pair
  range_loop xs ys zero i m = some m
  range_loop xs ys (suc n) i m = elim (get_elem? xs i) [
    | none ↦ none
    | some va ↦ elim (get_elem? ys i) [
      | none ↦ none
      | some vb ↦ range_loop xs ys n (suc i) (count_pair va vb m)
    ]
  ]

  unfoldable pub jaccard_range : Wrapped → Wrapped → ℕ → ℕ → Option F
  unfolding range_loop data_in_loop finish
  jaccard_range w b start end =
      finish
        (range_loop (data_in_loop w) (data_in_loop b) (end - start) start (fl.nought, fl.nought))

-- the elements `data[start:end]` of a record, whose array goes on with `spare`
unfoldable pub elems_between : (Record → List ℕ) → Wrapped → ℕ → ℕ → Option (List ℕ)
unfolding reslice
elems_between spare w start end = elim w.source [
  | none ↦ none
  | some rec ↦ reslice (elems_of rec) (spare rec) start end
]

module _ {F : Type 0} (be : Implementation F) where
  -- the field `vec`, which SetData writes
  unfoldable pub vec : Wrapped → Vector
  vec w = elim w.source [
    | none ↦ unset
    | some rec ↦ be.wrap (pos (length (elems_of rec))) (elems_of rec)
  ]

  unfoldable pub dot : Wrapped → Wrapped → Option F
  unfolding vec
  dot w b = be.dot (vec w) (vec b)

  -- DotRange; `int(end - start)` is negative only where the slice expression panics
  unfoldable pub dot_range : (Record → List ℕ) → Wrapped → Wrapped → ℕ → ℕ → Option F
  unfolding elems_between
  dot_range spare w b start end = elim (elems_between spare w start end) [
    | none ↦ none
    | some xs ↦ elim (elems_between spare b start end) [
      | none ↦ none
      | some ys ↦ be.dot (be.wrap (pos (end - start)) xs) (be.wrap (pos (end - start)) ys)
    ]
  ]

  unfoldable pub dot_sub : (Record → List ℕ) → Wrapped → Wrapped → ℕ → Option F
  unfolding dot_range
  dot_sub spare w b elems = dot_range spare w b 0 elems

module _ {F : Type 0} (fl : Floats F) where
  -- the end of the three cosines: the product is computed where the denominator is not 0
  unfoldable pub quotient : F → Option F → Option F
  quotient den d =
      if fl.is_equal den fl.nought
      then some fl.nought
      else elim d [ none ↦ none | some p ↦ some (fl.div p den) ]

  -- CosineRange and CosineSub, over the three products they compute
  unfoldable pub cosine_of : Option F → Option F → Option F → Option F
  unfolding quotient
  cosine_of none bb wb = none
  cosine_of (some p) none wb = none
  cosine_of (some p) (some q) wb = quotient (fl.mul (fl.sqrt p) (fl.sqrt q)) wb

module _ {F : Type 0} (fl : Floats F) (be : Implementation F) where
  unfoldable pub magnitude : Wrapped → Option F
  unfolding dot
  magnitude w = elim (dot be w w) [ none ↦ none | some d ↦ some (fl.sqrt d) ]

  unfoldable pub cosine : Wrapped → Wrapped → Option F
  unfolding magnitude quotient dot
  cosine w b = elim (magnitude w) [
    | none ↦ none
    | some m ↦ elim (magnitude b) [ none ↦ none | some n ↦ quotient fl (fl.mul m n) (dot be w b) ]
  ]

  unfoldable pub cosine_range : (Record → List ℕ) → Wrapped → Wrapped → ℕ → ℕ → Option F
  unfolding dot_range cosine_of
  cosine_range spare w b start end =
      cosine_of fl (dot_range be spare w w start end) (dot_range be spare b b start end)
        (dot_range be spare w b start end)

  unfoldable pub cosine_sub : (Record → List ℕ) → Wrapped → Wrapped → ℕ → Option F
  unfolding dot_sub cosine_of
  cosine_sub spare w b elems =
      cosine_of fl (dot_sub be spare w w elems) (dot_sub be spare b b elems)
        (dot_sub be spare w b elems)
