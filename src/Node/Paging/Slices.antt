-- ===== src/Node/Paging/Slices.antt =====
-- The items of the pages of ListRecords and ListOracles (node/service/records.go, oracles.go).
use native.Mathlib.Nat.{mul-le-mul_right, le-div_iff_mul-le}
use sum.Prelude.{
  ℕ, zero, suc, ◌+◌, ◌-◌, ◌*◌, ◌≤◌, ◌<◌, ◌≡◌, ◌↔◌, ◌/◌, ◌%◌, inl, inr, ◌∙◌, sym, ap, refl, Option,
  none, some, List, [], ◌++◌, arith,
}
use sum.Prelude.Tests.{leb, Bool-cases}
use sum.Prelude.Lists.{
  length, take, drop, take_of_length-le, drop_of_length-le, length-drop, take-add,
}
use sum.Proto.{uint64_mod}
use sum.Node.Paging.{at_least_one, num_pages, page_start, page_end, slice, page_of, list_page}

at_least_one_of_pos : (n : ℕ) → 0 < n → at_least_one n ≡ n
at_least_one_of_pos n h = ground arith

page_start_lem :
    (p per_page : ℕ) → suc p * per_page < uint64_mod → page_start (suc p) per_page ≡ p * per_page
unfolding page_start
page_start_lem p per_page h = grind arith

page_end_lem :
    (p per_page : ℕ)
    → suc p * per_page < uint64_mod
    → page_end (p * per_page) per_page ≡ p * per_page + per_page
unfolding page_end
page_end_lem p per_page h = grind arith

slice_lem : {A : Type 0} (xs : List A) (s n : ℕ) → slice xs s (s + n) ≡ some (take n (drop s xs))
unfolding slice
slice_lem xs s n = let e : s + n - s ≡ n = omega arith in rw e (ground arith)

num_pages_enough : (total per_page : ℕ) → 0 < per_page → total ≤ num_pages total per_page * per_page
num_pages_enough total per_page h = grind arith

module _ {M : Type 0} (arrange : List M → List M) where
  page_of_lem :
      (all : List M) (s n pages : ℕ)
      → length (arrange all) ≡ length all
      → page_of arrange all (length all) s (s + n) pages
        ≡ some (record { total = length all; pages = pages; items = take n (drop s (arrange all)) })
  unfolding page_of
  page_of_lem all s n pages h = elim (Bool-cases (leb (length all) s)) [
    | inl e ↦
        rw
          (
            e,
            drop_of_length-le s (arrange all) (ground arith),
            take_of_length-le {A = M} n [] (omega arith),
          )
          refl
    | inr e ↦ elim (Bool-cases (leb (length all) (s + n))) [
      | inl f ↦
          rw
            (
              e,
              f,
              take_of_length-le n (drop s (arrange all))
                  (ground (arith, length-drop s (arrange all))),
            )
            refl
      | inr f ↦ rw (e, f) (rw (slice_lem (arrange all) s n))
    ]
  ]

  -- With a sort that keeps the length, and a page and a size from 1 whose product fits 64 bits,
  -- the answer has the total, the number of pages, and at most `per_page` items from `(page - 1) *
  -- per_page` on; it does not panic.
  pub list_page_lem :
      (all : List M) (p per_page : ℕ)
      → length (arrange all) ≡ length all
      → 0 < per_page
      → suc p * per_page < uint64_mod
      → list_page arrange all (record { page = suc p; per_page = per_page })
        ≡ some (record {
          total = length all;
          pages = num_pages (length all) per_page;
          items = take per_page (drop (p * per_page) (arrange all));
        })
  unfolding list_page
  list_page_lem all p per_page hl hs fits =
      rw
        (
          at_least_one_of_pos (suc p) (omega arith),
          at_least_one_of_pos per_page hs,
          page_start_lem p per_page fits,
          page_end_lem p per_page fits,
        )
        (page_of_lem all (p * per_page) per_page _ hl)

  -- a client's walk through the first `n` pages, with the items of all of them
  unfoldable pub walk : ℕ → ℕ → List M → Option (List M)
  walk zero per_page all = some []
  walk (suc p) per_page all = elim (walk p per_page all) [
    | none ↦ none
    | some seen ↦ elim (list_page arrange all (record { page = suc p; per_page = per_page })) [
      | none ↦ none
      | some resp ↦ some (seen ++ resp.items)
    ]
  ]

  walk_lem :
      (n per_page : ℕ) (all : List M)
      → length (arrange all) ≡ length all
      → 0 < per_page
      → n * per_page < uint64_mod
      → walk n per_page all ≡ some (take (n * per_page) (arrange all))
  unfolding walk
  walk_lem zero per_page all hl hs fits =
      ap (λ k. some (take k (arrange all))) {x = 0} {y = 0 * per_page} (omega arith)
  walk_lem (suc p) per_page all hl hs fits = rw (walk_lem p per_page all hl hs (omega arith)) (
      rw (list_page_lem all p per_page hl hs fits) (
        ap some (sym (take-add (p * per_page) per_page (arrange all)))
        ∙ ap (λ k. some (take k (arrange all))) {x = p * per_page + per_page} {y = suc p * per_page}
            (omega arith)))

  -- Walking through as many pages as the answers announce gives every item once, in their order.
  pub walk_complete :
      (per_page : ℕ) (all : List M)
      → length (arrange all) ≡ length all
      → 0 < per_page
      → num_pages (length all) per_page * per_page < uint64_mod
      → walk (num_pages (length all) per_page) per_page all ≡ some (arrange all)
  walk_complete per_page all hl hs fits =
      walk_lem (num_pages (length all) per_page) per_page all hl hs fits
      ∙ ap some (
          take_of_length-le _ (arrange all)
            (omega (arith, num_pages_enough (length all) per_page hs)))

  -- A request for page 2^64 - 1 with 2^64 - 1 items a page panics on any three items or more: the
  -- end of the page wraps around below its start.
  pub list_page_panics :
      (all : List M)
      → 3 ≤ length all
      → list_page arrange all
          (record { page = 18446744073709551615; per_page = 18446744073709551615 })
        ≡ none
  unfolding list_page page_of page_start page_end slice
  list_page_panics all h = ground arith

-- A number of pages of a positive size holds all the items exactly where it is the announced
-- number or more.
pub num_pages_least :
    (total per_page n : ℕ) → 0 < per_page → (total ≤ n * per_page) ↔ (num_pages total per_page ≤ n)
num_pages_least total per_page n h = (forth, back)
  where
    exact : total ≡ total / per_page * per_page + total % per_page
    exact = grind arith

    forth : total ≤ n * per_page → num_pages total per_page ≤ n
    forth le = grind (arith, le-div_iff_mul-le {x = suc n} {y = total} h, exact)

    back : num_pages total per_page ≤ n → total ≤ n * per_page
    back le = omega (arith, num_pages_enough total per_page h, mul-le-mul_right per_page le)
