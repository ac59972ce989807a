-- ===== src/Wrapper/Distances/Ranges.antt =====
-- The ranged operations of a record against the ones over all its elements.
use sum.Prelude.{
  ℕ, zero, suc, ◌-◌, ◌≤◌, ◌≡◌, refl, sym, ◌∙◌, ap, inl, inr, some, List, [], ◌∷◌, ◌++◌, arith,
}
use sum.Prelude.Tests.{Option-cases}
use sum.Prelude.Lists.{
  length, get_elem?, take, drop, drop-cons, length-append, length-take, length-drop,
}
use sum.Proto.{Record}
use sum.Backend.{Floats, Implementation}
use sum.Wrapper.Records.{Wrapped, elems_of, wrap_record, create_wrapped}
use sum.Wrapper.Distances.{
  reslice, elems_between, finish, vec, dot, dot_range, cosine, cosine_range, cosine_of, magnitude,
  jaccard, jaccard_range, jaccard_loop, count_pair, range_loop, data_in_loop,
}

take-append-le :
    {A : Type 0} (n : ℕ) (xs ys : List A) → n ≤ length xs → take n (xs ++ ys) ≡ take n xs
take-append-le zero xs ys h = refl
take-append-le (suc n) [] ys h = absurd (omega arith)
take-append-le (suc n) (x ∷ xs) ys h = ap (◌∷◌ x) (take-append-le n xs ys (omega arith))

drop-append-le :
    {A : Type 0} (n : ℕ) (xs ys : List A) → n ≤ length xs → drop n (xs ++ ys) ≡ drop n xs ++ ys
drop-append-le zero xs ys h = refl
drop-append-le (suc n) [] ys h = absurd (omega arith)
drop-append-le (suc n) (x ∷ xs) ys h = drop-append-le n xs ys (omega arith)

-- `l[start:end]` of a list
unfoldable pub between : ℕ → ℕ → List ℕ → List ℕ
between start end l = take (end - start) (drop start l)

length-between :
    (start end : ℕ) (l : List ℕ)
    → start ≤ end
    → end ≤ length l
    → length (between start end l) ≡ end - start
unfolding between
length-between start end l h k =
    omega (arith, length-take (end - start) (drop start l), length-drop start l)

-- a slice within the length does not show what the array has behind it
reslice-between :
    (l spare : List ℕ) (start end : ℕ)
    → start ≤ end
    → end ≤ length l
    → reslice l spare start end ≡ some (between start end l)
unfolding reslice between
reslice-between l spare start end h k =
    rw
      (
        drop-append-le start l spare (omega arith),
        take-append-le (end - start) (drop start l) spare (omega (arith, length-drop start l)),
      )
      (ground (arith, length-append l spare))

module _ {F : Type 0} (fl : Floats F) where
  range_loop-jaccard_loop :
      (xs ys zs : List ℕ) (i : ℕ) (m : F × F)
      → drop i xs ≡ zs
      → range_loop fl xs ys (length zs) i m ≡ jaccard_loop fl ys i m zs
  unfolding range_loop jaccard_loop
  range_loop-jaccard_loop xs ys [] i m e = refl
  range_loop-jaccard_loop xs ys (z ∷ zs) i m e =
      let (here, next) = drop-cons xs i z zs e in
      rw (range_loop, here)
        (elim (Option-cases (get_elem? ys i)) [
          | inl o ↦ rw (range_loop, jaccard_loop, o) refl
          | inr (y, o) ↦
              rw (range_loop, jaccard_loop, o)
                (range_loop-jaccard_loop xs ys zs (suc i) (count_pair fl z y m) next)
        ])

  -- JaccardRange over all elements of a record is Jaccard: the same value, and the same panics
  -- where the other record is shorter or null.
  pub jaccard_range-jaccard :
      (x : Record) (b : Wrapped)
      → jaccard_range fl (wrap_record (some x)) b 0 (length (elems_of x))
        ≡ jaccard fl (wrap_record (some x)) b
  unfolding jaccard_range jaccard data_in_loop wrap_record
  jaccard_range-jaccard x b =
      ap (λ n. finish fl (range_loop fl (elems_of x) (data_in_loop b) n 0 (fl.nought, fl.nought)))
        {x = length (elems_of x) - 0} {y = length (elems_of x)} (omega arith)
      ∙ ap (finish fl) (
          range_loop-jaccard_loop (elems_of x) (data_in_loop b) (elems_of x) 0
            (fl.nought, fl.nought) refl)

-- the record with the elements of the range alone
unfoldable pub cropped : ℕ → ℕ → Record → Wrapped
unfolding create_wrapped between
cropped start end x = create_wrapped (some (between start end (elems_of x)))

module _ {F : Type 0} (fl : Floats F) (be : Implementation F) (spare : Record → List ℕ) where
  dot_range-dot :
      (x y : Record) (start end : ℕ)
      → start ≤ end
      → end ≤ length (elems_of x)
      → end ≤ length (elems_of y)
      → dot_range be spare (wrap_record (some x)) (wrap_record (some y)) start end
        ≡ dot be (cropped start end x) (cropped start end y)
  unfolding dot_range dot vec wrap_record elems_between cropped create_wrapped
  dot_range-dot x y start end h p q =
      rw
        (
          dot_range,
          elems_between,
          reslice-between (elems_of x) (spare x) start end h p,
          reslice-between (elems_of y) (spare y) start end h q,
          dot,
          length-between start end (elems_of x) h p,
          length-between start end (elems_of y) h q,
        )
        refl

  cosine-cosine_of :
      (w b : Wrapped) → cosine fl be w b ≡ cosine_of fl (dot be w w) (dot be b b) (dot be w b)
  unfolding cosine magnitude cosine_of
  cosine-cosine_of w b = elim (Option-cases (dot be w w)) [
    | inl e ↦ rw (cosine, magnitude, dot, e) refl
    | inr (p, e) ↦
        rw (cosine, magnitude, dot, e)
          (elim (Option-cases (dot be b b)) [
            | inl d ↦ rw (dot, d) refl
            | inr (q, d) ↦ rw (dot, d) refl
          ])
  ]

  -- For a range within both records, CosineRange is Cosine of two new records that hold the
  -- elements of the range, whatever the arrays hold behind the elements of a record.
  pub cosine_range-cosine :
      (x y : Record) (start end : ℕ)
      → start ≤ end
      → end ≤ length (elems_of x)
      → end ≤ length (elems_of y)
      → cosine_range fl be spare (wrap_record (some x)) (wrap_record (some y)) start end
        ≡ cosine fl be (cropped start end x) (cropped start end y)
  unfolding cosine_range
  cosine_range-cosine x y start end h p q =
      rw
        (
          cosine_range,
          dot_range-dot x x start end h p p,
          dot_range-dot x y start end h p q,
          dot_range-dot y y start end h q q,
        )
        (sym (cosine-cosine_of (cropped start end x) (cropped start end y)))
