-- ===== src/Node/Paging.antt =====
-- The paging of ListRecords and ListOracles in node/service/records.go and oracles.go.
pub mod Slices
pub mod Order
use sum.Prelude.{ℕ, ◌+◌, ◌-◌, ◌*◌, ◌/◌, ◌%◌, Bool, Option, none, some, List, [], ◌∷◌}
use sum.Prelude.Tests.{ltb, leb, if◌then◌else◌}
use sum.Prelude.Lists.{length, take, drop}
use sum.Proto.{Record, ListRequest, ListResponse, uint64_mod}

-- `if list.Page < 1 { list.Page = 1 }`, and the same of PerPage
abbrev pub at_least_one : ℕ → ℕ
at_least_one n = if ltb n 1 then 1 else n

abbrev pub num_pages : ℕ → ℕ → ℕ
num_pages total per_page = total / per_page + (if ltb 0 (total % per_page) then 1 else 0)

-- `(page - 1) * perPage` and `start + perPage` on uint64
unfoldable pub page_start : ℕ → ℕ → ℕ
page_start page per_page = ((page - 1) * per_page) % uint64_mod

unfoldable pub page_end : ℕ → ℕ → ℕ
page_end start per_page = (start + per_page) % uint64_mod

-- `all[start:end]` where `end` is within the slice; `none` is the panic of bounds out of order
unfoldable pub slice {ℓ} : {A : Type ℓ} → List A → ℕ → ℕ → Option (List A)
slice all start end_ = if ltb end_ start then none else some (take (end_ - start) (drop start all))

-- the part of the handlers after the normalisation of the request; `arrange` is the sort
unfoldable pub page_of :
    {M : Type 0}
    → (List M → List M)
    → List M
    → (total start end_ pages : ℕ) → Option (ListResponse M)
unfolding slice
page_of arrange all total start end_ pages =
    if leb total start
    then some (record { total = total; pages = pages; items = [] })
    else if leb total end_
    then some (record { total = total; pages = pages; items = drop start (arrange all) })
    else elim (slice (arrange all) start end_) [
      | none ↦ none
      | some items ↦ some (record { total = total; pages = pages; items = items })
    ]

unfoldable pub list_page :
    {M : Type 0} → (List M → List M) → List M → ListRequest → Option (ListResponse M)
list_page arrange all req =
    let page = at_least_one req.page in
    let per_page = at_least_one req.per_page in
    let total = length all in
    let start = page_start page per_page in
    page_of arrange all total start (page_end start per_page) (num_pages total per_page)

-- sort.Slice by identifier; every sort gives this list, since no two records share an identifier
unfoldable pub insert_by_id : Record → List Record → List Record
insert_by_id r [] = r ∷ []
insert_by_id r (s ∷ rest) = if leb r.id s.id then r ∷ s ∷ rest else s ∷ insert_by_id r rest

unfoldable pub sort_by_id : List Record → List Record
unfolding insert_by_id
sort_by_id [] = []
sort_by_id (r ∷ rest) = insert_by_id r (sort_by_id rest)

unfoldable pub list_records : List Record → ListRequest → Option (ListResponse Record)
unfolding list_page sort_by_id
list_records all req = list_page sort_by_id all req
