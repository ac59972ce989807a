-- ===== src/Backend/Dot.antt =====
-- Dot of the naive implementation against the sum it is to compute.
use sum.Prelude.{ℕ, inl, inr, suc, ◌≡◌, none, some, List, [], ◌∷◌, arith}
use sum.Prelude.Tests.{leb, Option-cases, if◌then◌else◌}
use sum.Prelude.Lists.{get_elem?, drop, length, drop-none, drop-some}
use sum.Backend.{Floats, slice, naive_loop, naive_dot, elements}

module _ {F : Type 0} (fl : Floats F) where
  -- the products of two lists, place by place, added up one after the other
  unfoldable pub dot_sum : F → List ℕ → List ℕ → F
  dot_sum acc [] ys = acc
  dot_sum acc (x ∷ xs) [] = acc
  dot_sum acc (x ∷ xs) (y ∷ ys) = dot_sum (fl.add acc (fl.mul (fl.widen x) (fl.widen y))) xs ys

  naive_loop-drop :
      (ys : List ℕ) (i : ℕ) (acc : F) (xs : List ℕ)
      → naive_loop fl (slice ys) i acc xs
        ≡ (if leb (length xs) (length (drop i ys)) then some (dot_sum acc xs (drop i ys)) else none)
  unfolding naive_loop elements dot_sum
  naive_loop-drop ys i acc [] = ground arith
  naive_loop-drop ys i acc (x ∷ xs) = elim (Option-cases (get_elem? ys i)) [
    | inl e ↦ rw (naive_loop, e, drop-none ys i e) (ground arith)
    | inr (y, e) ↦
        rw (naive_loop, e, drop-some ys i y e)
          (ground
            (arith, naive_loop-drop ys (suc i) (fl.add acc (fl.mul (fl.widen x) (fl.widen y))) xs))
  ]

  -- Dot of two slices is the sum of the products where the second is as long as the first at
  -- least; it panics where it is shorter.
  pub naive_dot_lem :
      (xs ys : List ℕ)
      → naive_dot fl (slice xs) (slice ys)
        ≡ (if leb (length xs) (length ys) then some (dot_sum fl.nought xs ys) else none)
  unfolding naive_dot elements
  naive_dot_lem xs ys = naive_loop-drop ys 0 fl.nought xs
