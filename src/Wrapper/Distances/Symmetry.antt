-- ===== src/Wrapper/Distances/Symmetry.antt =====
-- Jaccard of node/wrapper/record.go with the two records exchanged.
use sum.Prelude.{ℕ, suc, ◌≡◌, refl, ap, some, List, [], ◌∷◌, arith}
use sum.Prelude.Lists.{length, drop, drop-cons}
use sum.Proto.{Record}
use sum.Backend.{Floats}
use sum.Wrapper.Records.{elems_of, wrap_record}
use sum.Wrapper.Distances.{jaccard, jaccard_loop, count_pair, finish, data_in_loop}

module _ {F : Type 0} (fl : Floats F) where
  count_pair_comm :
      ((a b : ℕ) → fl.mul32 a b ≡ fl.mul32 b a)
      → ((a b : ℕ) → fl.add32 a b ≡ fl.add32 b a)
      → (a b : ℕ) (m : F × F) → count_pair fl a b m ≡ count_pair fl b a m
  unfolding count_pair
  count_pair_comm mul add a b (m11, m10) = rw (mul a b, add a b) refl

  jaccard_loop_comm :
      ((a b : ℕ) → fl.mul32 a b ≡ fl.mul32 b a)
      → ((a b : ℕ) → fl.add32 a b ≡ fl.add32 b a)
      → (xs ys zs ws : List ℕ) (i : ℕ) (m : F × F) → drop i xs ≡ zs
      → drop i ys ≡ ws
      → length zs ≡ length ws
      → jaccard_loop fl ys i m zs ≡ jaccard_loop fl xs i m ws
  unfolding jaccard_loop
  jaccard_loop_comm mul add xs ys [] [] i m p q h = refl
  jaccard_loop_comm mul add xs ys [] (w ∷ ws) i m p q h = absurd (omega arith)
  jaccard_loop_comm mul add xs ys (z ∷ zs) [] i m p q h = absurd (omega arith)
  jaccard_loop_comm mul add xs ys (z ∷ zs) (w ∷ ws) i m p q h =
      let (z_at, p') = drop-cons xs i z zs p in
      let (w_at, q') = drop-cons ys i w ws q in
      rw (jaccard_loop, z_at, w_at, count_pair_comm mul add z w m)
        (jaccard_loop_comm mul add xs ys zs ws (suc i) (count_pair fl w z m) p' q' (omega arith))

  -- Where the products and the sums of float32 do not depend on the order of their operands, Jaccard
  -- of two records of the same length is the same both ways.
  pub jaccard_comm :
      ((a b : ℕ) → fl.mul32 a b ≡ fl.mul32 b a)
      → ((a b : ℕ) → fl.add32 a b ≡ fl.add32 b a)
      → (x y : Record) → length (elems_of x) ≡ length (elems_of y)
      → jaccard fl (wrap_record (some x)) (wrap_record (some y))
        ≡ jaccard fl (wrap_record (some y)) (wrap_record (some x))
  unfolding jaccard data_in_loop wrap_record
  jaccard_comm mul add x y h = ap (finish fl) (
      jaccard_loop_comm mul add (elems_of x) (elems_of y) (elems_of x) (elems_of y) 0
        (fl.nought, fl.nought) refl refl h)
