-- ===== src/Node/Paging/Order.antt =====
-- The sort of ListRecords in node/service/records.go.
use mathlib.Core.List.{Permᴰ, Memᴰ}
use mathlib.Core.List.Permᴰ
use sum.Prelude.{
  ℕ, zero, suc, ◌*◌, ◌<◌, ◌≤◌, Option, none, inl, inr, ◌++◌, ◌≡◌, ◌∙◌, ◌≢◌, sym, ap, ap₂, subst,
  refl, some, List, [], ◌∷◌, arith,
}
use native.Mathlib.Decide.{ℕ_discrete}
use sum.Prelude.Tests.{leb, Bool-cases}
use sum.Prelude.Lists.{length, All}
use sum.Proto.{Record, ListRequest, ListResponse, uint64_mod}
use sum.Node.Paging.{num_pages, insert_by_id, sort_by_id, list_records, list_page, page_of}
use sum.Node.Paging.Slices.{walk, walk_complete}

length-insert : (r : Record) (l : List Record) → length (insert_by_id r l) ≡ suc (length l)
unfolding insert_by_id
length-insert r [] = refl
length-insert r (s ∷ l) = ground (arith, length-insert r l)

pub length-sort : (l : List Record) → length (sort_by_id l) ≡ length l
unfolding sort_by_id
length-sort [] = refl
length-sort (r ∷ l) = length-insert r (sort_by_id l) ∙ ap suc (length-sort l)

insert_swap_ne :
    (a b : Record) (l : List Record)
    → a.id ≢ b.id
    → insert_by_id a (insert_by_id b l) ≡ insert_by_id b (insert_by_id a l)
unfolding insert_by_id
insert_swap_ne a b [] h = ground arith
insert_swap_ne a b (s ∷ l) h = ground (arith, insert_swap_ne a b l h)

insert_swap :
    (a b : Record) (l : List Record)
    → (a.id ≡ b.id → a ≡ b)
    → insert_by_id a (insert_by_id b l) ≡ insert_by_id b (insert_by_id a l)
insert_swap a b l h = elim (ℕ_discrete a.id b.id) [
  | yes e ↦
      subst (λ x. insert_by_id x (insert_by_id b l) ≡ insert_by_id b (insert_by_id x l)) (sym (h e))
        refl
  | no ne ↦ insert_swap_ne a b l ne
]

page_of_order :
    (l l' : List Record)
    → sort_by_id l ≡ sort_by_id l'
    → (total start end_ pages : ℕ)
    → page_of sort_by_id l total start end_ pages ≡ page_of sort_by_id l' total start end_ pages
unfolding page_of
page_of_order l l' e total start end_ pages = rw e

module _ (P : Record → Type 0) (inj : (a b : Record) → P a → P b → a.id ≡ b.id → a ≡ b) where
  All-perm : {l l' : List Record} → Permᴰ l l' → All P l → All P l'
  All-perm Permᴰ.nil h = tt
  All-perm (Permᴰ.cons e p) h = (subst P e h.0, All-perm p h.1)
  All-perm (Permᴰ.swap e f) h = (subst P f h.1.0, (subst P e h.0, h.1.1))
  All-perm (Permᴰ.trans p q) h = All-perm q (All-perm p h)

  sort-perm : {l l' : List Record} → Permᴰ l l' → All P l → sort_by_id l ≡ sort_by_id l'
  unfolding sort_by_id
  sort-perm Permᴰ.nil h = refl
  sort-perm (Permᴰ.cons {a = a} {l₂ = m} e p) h =
      ap (insert_by_id a) (sort-perm p h.1) ∙ ap (λ x. insert_by_id x (sort_by_id m)) e
  sort-perm (Permᴰ.swap {a = a} {b = b} {l = l} e f) h =
      insert_swap a b (sort_by_id l) (inj a b h.0 h.1.0)
      ∙ ap₂ (λ x y. insert_by_id x (insert_by_id y (sort_by_id l))) f e
  sort-perm (Permᴰ.trans p q) h = sort-perm p h ∙ sort-perm q (All-perm p h)

  length-perm : {l l' : List Record} → Permᴰ l l' → length l ≡ length l'
  length-perm Permᴰ.nil = refl
  length-perm (Permᴰ.cons e p) = ap suc (length-perm p)
  length-perm (Permᴰ.swap e f) = refl
  length-perm (Permᴰ.trans p q) = length-perm p ∙ length-perm q

  -- Two orders of the same records, of which no two share an identifier, give the same answer to
  -- every request.
  pub list_records_order :
      (l l' : List Record) (req : ListRequest)
      → Permᴰ l l'
      → All P l
      → list_records l req ≡ list_records l' req
  unfolding list_records list_page
  list_records_order l l' req p h = rw (length-perm p) (page_of_order l l' (sort-perm p h) _ _ _ _)

-- the walk over one list, in the order of the sort
sorted_walk :
    (per_page : ℕ) (all : List Record)
    → 0 < per_page
    → num_pages (length all) per_page * per_page < uint64_mod
    → walk sort_by_id (num_pages (length all) per_page) per_page all ≡ some (sort_by_id all)
sorted_walk per_page all hs fits = walk_complete sort_by_id per_page all (length-sort all) hs fits

insert-Perm : (r : Record) (l : List Record) → Permᴰ (insert_by_id r l) (r ∷ l)
unfolding insert_by_id
insert-Perm r [] = Permᴰ.cons refl Permᴰ.nil
insert-Perm r (s ∷ l) = elim (Bool-cases (leb r.id s.id)) [
  | inl e ↦ rw (e, insert_by_id) (Permᴰ.refl (r ∷ s ∷ l))
  | inr e ↦
      rw (e, insert_by_id) (Permᴰ.trans (Permᴰ.cons refl (insert-Perm r l)) (Permᴰ.swap refl refl))
]

sort-Perm : (l : List Record) → Permᴰ (sort_by_id l) l
unfolding sort_by_id
sort-Perm [] = Permᴰ.nil
sort-Perm (r ∷ l) = Permᴰ.trans (insert-Perm r (sort_by_id l)) (Permᴰ.cons refl (sort-Perm l))

-- each record before those of no smaller identifier
unfoldable pub IsAscending : List Record → Type 0
IsAscending [] = Unit
IsAscending (r ∷ l) = All (λ (s : Record). r.id ≤ s.id) l × IsAscending l

All-insert :
    (P : Record → Type 0) (r : Record) (l : List Record) → P r → All P l → All P (insert_by_id r l)
unfolding insert_by_id
All-insert P r [] h k = (h, tt)
All-insert P r (s ∷ l) h k = elim (Bool-cases (leb r.id s.id)) [
  | inl e ↦ rw (e, insert_by_id) (h, k)
  | inr e ↦ rw (e, insert_by_id) (k.0, All-insert P r l h k.1)
]

All-le :
    (m n : ℕ) (l : List Record)
    → m ≤ n
    → All (λ (s : Record). n ≤ s.id) l
    → All (λ (s : Record). m ≤ s.id) l
All-le m n [] h k = tt
All-le m n (s ∷ l) h k = (omega (arith, h, k.0), All-le m n l h k.1)

insert-IsAscending : (r : Record) (l : List Record) → IsAscending l → IsAscending (insert_by_id r l)
unfolding insert_by_id IsAscending
insert-IsAscending r [] h = (tt, tt)
insert-IsAscending r (s ∷ l) h = elim (Bool-cases (leb r.id s.id)) [
  | inl e ↦
      let le : r.id ≤ s.id = ground arith in
      rw (e, insert_by_id) ((le, All-le r.id s.id l le h.0), h)
  | inr e ↦
      let le : s.id ≤ r.id = ground arith in
      rw (e, insert_by_id)
        (All-insert (λ (t : Record). s.id ≤ t.id) r l le h.0, insert-IsAscending r l h.1)
]

sort-IsAscending : (l : List Record) → IsAscending (sort_by_id l)
unfolding sort_by_id IsAscending
sort-IsAscending [] = tt
sort-IsAscending (r ∷ l) = insert-IsAscending r (sort_by_id l) (sort-IsAscending l)

All-Mem : (P : Record → Type 0) (l : List Record) → ((r : Record) → Memᴰ r l → P r) → All P l
All-Mem P [] h = tt
All-Mem P (r ∷ l) h = (h r (Memᴰ.head refl), All-Mem P l (λ s p. h s (Memᴰ.tail p)))

-- what a client has seen after one more answer
unfoldable pub add_page : Option (List Record) → Option (ListResponse Record) → Option (List Record)
add_page none answer = none
add_page (some seen) none = none
add_page (some seen) (some resp) = some (seen ++ resp.items)

-- a client's walk through the first `n` pages, where the request of page `p + 1` meets the records in
-- the order `orders p`
unfoldable pub records_walk : (ℕ → List Record) → ℕ → ℕ → Option (List Record)
unfolding add_page
records_walk orders zero per_page = some []
records_walk orders (suc p) per_page =
    add_page (records_walk orders p per_page)
      (list_records (orders p) (record { page = suc p; per_page = per_page }))

module _ (all : List Record)
    (unique : (a b : Record) → Memᴰ a all → Memᴰ b all → a.id ≡ b.id → a ≡ b)
    (orders : ℕ → List Record) (same : (p : ℕ) → Permᴰ all (orders p)) where
  walk-add_page :
      (p per_page : ℕ)
      → walk sort_by_id (suc p) per_page all
        ≡ add_page
            (walk sort_by_id p per_page all)
            (list_records all (record { page = suc p; per_page = per_page }))
  unfolding walk add_page list_records
  walk-add_page p per_page = ground arith

  records_walk-walk :
      (n per_page : ℕ) → records_walk orders n per_page ≡ walk sort_by_id n per_page all
  unfolding records_walk walk
  records_walk-walk zero per_page = refl
  records_walk-walk (suc p) per_page =
      let req : ListRequest = record { page = suc p; per_page = per_page } in
      let one =
        list_records_order (λ r. Memᴰ r all) unique all (orders p) req (same p)
          (All-Mem (λ r. Memᴰ r all) all (λ r m. m)) in
      ap₂ add_page (records_walk-walk p per_page) (sym one) ∙ sym (walk-add_page p per_page)

  -- For a positive page size whose announced pages fit 64 bits, over records of which no two
  -- different ones share an identifier, a client that walks through the announced pages gets every
  -- record, each as often as it is stored, in ascending order of the identifiers, in whatever
  -- order each request meets the records.
  pub list_records_walk :
      (per_page : ℕ)
      → 0 < per_page
      → num_pages (length all) per_page * per_page < uint64_mod
      → (out : List Record) × (records_walk orders (num_pages (length all) per_page) per_page
          ≡ some out)
        × Permᴰ out all
        × IsAscending out
  list_records_walk per_page hs fits = (
    sort_by_id all,
    records_walk-walk (num_pages (length all) per_page) per_page ∙ sorted_walk per_page all hs fits,
    sort-Perm all,
    sort-IsAscending all,
  )
