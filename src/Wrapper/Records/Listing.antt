-- ===== src/Wrapper/Records/Listing.antt =====
-- All and AllBut of node/wrapper/records.go.
use mathlib.Core.List.{append_assoc, append-nil}
use sum.Prelude.{ℕ, ◌≡◌, ◌∙◌, ap, sym, inl, inr, none, some, List, [], ◌∷◌, ◌++◌}
use sum.Prelude.Tests.{nat_eq, ◌==◌, if◌then◌else◌, Bool-cases}
use sum.Proto.{Record}
use sum.Storage.Env.{Env}
use sum.Storage.Index.{for_each}
use sum.Storage.Records.{Records}
use sum.Wrapper.Records.{Wrapped, wrap_record, is, append_wrapped, append_but, listed, all, all_but}

-- the wrapped records of a list that are not, by Is, the given one
unfoldable pub others : Wrapped → List Wrapped → List Wrapped
others w [] = []
others w (v ∷ rest) = if is v w then others w rest else v ∷ others w rest

unfoldable pub wrap_each : List (ℕ × Record) → List Wrapped
wrap_each [] = []
wrap_each ((id, rec) ∷ es) = wrap_record (some rec) ∷ wrap_each es

for_each-append_wrapped :
    (es : List (ℕ × Record)) (ws : List Wrapped)
    → (for_each append_wrapped ws es).0 ≡ ws ++ wrap_each es
unfolding for_each append_wrapped wrap_each
for_each-append_wrapped [] ws = sym (append-nil ws)
for_each-append_wrapped ((id, rec) ∷ es) ws =
    for_each-append_wrapped es (ws ++ wrap_record (some rec) ∷ [])
    ∙ append_assoc ws (wrap_record (some rec) ∷ []) (wrap_each es)

for_each-append_but :
    (ex : Record) (es : List (ℕ × Record)) (ws : List Wrapped)
    → for_each (append_but (wrap_record (some ex))) ws es
      ≡ (ws ++ others (wrap_record (some ex)) (wrap_each es), none)
unfolding for_each append_but wrap_each others wrap_record is
for_each-append_but ex [] ws = ap (λ l. (l, none)) (sym (append-nil ws))
for_each-append_but ex ((id, rec) ∷ es) ws = elim (Bool-cases (rec.id == ex.id)) [
  | inl e ↦ rw (e) (for_each-append_but ex es ws)
  | inr e ↦ rw (e) (
      for_each-append_but ex es (ws ++ wrap_record (some rec) ∷ [])
      ∙ ap (λ l. (l, none))
          (append_assoc ws (wrap_record (some rec) ∷ [])
            (others (wrap_record (some ex)) (wrap_each es))))
]

module _ {env : Env Record} where
  -- Where both iterate in the same order, AllBut of a wrapped record does not panic and returns
  -- what All returns, less the records that Is says are the given one.
  pub all_but-others :
      (range : List (ℕ × Record) → List (ℕ × Record)) (ex : Record) (r : Records env)
      → all_but range (wrap_record (some ex)) r
        ≡ some (others (wrap_record (some ex)) (all range r))
  unfolding all_but all listed
  all_but-others range ex r =
      ap listed (for_each-append_but ex (range r.base.index) [])
      ∙ ap (λ l. some (others (wrap_record (some ex)) l))
          (sym (for_each-append_wrapped (range r.base.index) []))
