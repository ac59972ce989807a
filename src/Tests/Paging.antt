-- ===== src/Tests/Paging.antt =====
-- The theorems about paging at concrete inputs.
use mathlib.Core.List.{Permᴰ, Memᴰ}
use mathlib.Core.List.Permᴰ
use sum.Prelude.{ℕ, zero, suc, ◌≡◌, ◌∙◌, sym, ap, refl, none, some, List, [], ◌∷◌, arith}
use sum.Prelude.Lists.{take, drop}
use sum.Proto.{Record}
use sum.Node.Paging.{num_pages, list_page}
use sum.Node.Paging.Slices.{list_page_lem, list_page_panics}
use sum.Node.Paging.Order.{records_walk, IsAscending, list_records_walk}

abbrev row : ℕ → Record
row id = record { id = id; elems = none; shape = none; meta = none }

abbrev rows : List Record
rows = row 3 ∷ row 1 ∷ row 2 ∷ []

-- the handler of ListOracles gives the items to the pages as they come
abbrev as_is : List Record → List Record
as_is l = l

list_page_example :
    list_page as_is rows (record { page = 2; per_page = 2 })
    ≡ some (record { total = 3; pages = num_pages 3 2; items = take 2 (drop 2 rows) })
list_page_example = list_page_lem as_is rows 1 2 refl (omega arith) (omega arith)

list_page_panics_example :
    list_page as_is rows (record { page = 18446744073709551615; per_page = 18446744073709551615 })
    ≡ none
list_page_panics_example = list_page_panics as_is rows (omega arith)

-- the order in which each request meets the records
abbrev met : ℕ → List Record
met zero = row 1 ∷ row 3 ∷ row 2 ∷ []
met (suc p) = rows

met_same : (p : ℕ) → Permᴰ rows (met p)
met_same zero = Permᴰ.swap refl refl
met_same (suc p) = Permᴰ.refl rows

is_row : (r : Record) → Memᴰ r rows → r ≡ row r.id
is_row r (Memᴰ.head e) = e ∙ sym (ap (λ (x : Record). row x.id) e)
is_row r (Memᴰ.tail (Memᴰ.head e)) = e ∙ sym (ap (λ (x : Record). row x.id) e)
is_row r (Memᴰ.tail (Memᴰ.tail (Memᴰ.head e))) = e ∙ sym (ap (λ (x : Record). row x.id) e)
is_row r (Memᴰ.tail (Memᴰ.tail (Memᴰ.tail p))) = elim p [ ]

rows_unique : (a b : Record) → Memᴰ a rows → Memᴰ b rows → a.id ≡ b.id → a ≡ b
rows_unique a b p q e = is_row a p ∙ ap row e ∙ sym (is_row b q)

list_records_walk_example :
    (out : List Record) × (records_walk met (num_pages 3 2) 2 ≡ some out)
    × Permᴰ out rows
    × IsAscending out
list_records_walk_example =
    list_records_walk rows rows_unique met met_same 2 (omega arith) (omega arith)
