-- ===== src/Master/Oracles/Cage.antt =====
-- What the oracle handlers of the master promise, beside a map of oracles by identifier
-- (master/mux_oracles.go).
use sum.Prelude.{
  ℕ, ◌+◌, ◌<◌, ◌≤◌, ◌≡◌, refl, String, true, false, Option, none, some, List, [], ◌∷◌, arith, ◌⊎◌,
  inl, inr,
}
use sum.Prelude.Tests.{
  ok, ◌==◌, string_eq, nat_eq, if◌then◌else◌, Bool-cases, Option-cases, Result-cases, beq_self,
}
use sum.Prelude.Map.{get, put, del, IsMap, get-put, get-del, put-IsMap, del-IsMap}
use sum.Prelude.Decimal.{format_uint}
use sum.Proto.{Oracle, uint64_mod}
use sum.Master.Raccoon.{Parser, AstRaccoon, new_ast_raccoon, parse_ast, as_oracle, is_equal_to}
use sum.Master.Replies.{err_oracle_response}
use sum.Master.State.{Service}
use sum.Master.Oracles.{
  do_i_have_this_oracle, have_equal, cage, create_oracle, update_oracle, delete_oracle, Request,
  create, update, remove, serve,
}

-- the abstract view: the oracle of each identifier
abbrev pub view : {js : Parser} → Service js → ℕ → Option Oracle
view s id = elim (get id s.raccoons) [ none ↦ none | some a ↦ some (as_oracle a) ]

-- Each raccoon stands under its identifier, which is below the next one.
pub record IsCaged {js : Parser} (s : Service js) : Type 0 where
  pub is_map : IsMap s.raccoons
  pub own_id : (id : ℕ) (a : AstRaccoon js) → get id s.raccoons ≡ some a → a.id ≡ id
  pub below : (id : ℕ) (a : AstRaccoon js) → get id s.raccoons ≡ some a → id < s.next_raccoon_id

beq_eq : (i j : ℕ) → (i == j) ≡ true → i ≡ j
beq_eq i j h = ground arith

-- what a request makes of the oracle that it is about, and which one that is
unfoldable pub changed : Request → ℕ → Option Oracle
changed (create arg) id = some (record arg { id = id })
changed (update arg) id = some (record arg { id = id })
changed (remove id) _ = none

unfoldable pub target : {js : Parser} → Request → Service js → ℕ
target (create arg) s = s.next_raccoon_id
target (update arg) s = arg.id
target (remove id) s = id

module _ {js : Parser} where
  get_next : (s : Service js) → IsCaged s → get s.next_raccoon_id s.raccoons ≡ none
  get_next s h = elim (Option-cases (get s.next_raccoon_id s.raccoons)) [
    | inl e ↦ e
    | inr (a, e) ↦ ground (arith, h.below s.next_raccoon_id a e)
  ]

  put-IsCaged :
      (s : Service js) (id next : ℕ) (a : AstRaccoon js)
      → IsCaged s
      → a.id ≡ id
      → id < next
      → s.next_raccoon_id ≤ next
      → IsCaged (record s { raccoons = put id a s.raccoons; next_raccoon_id = next })
  put-IsCaged s id next a h e b c = record {
    is_map = put-IsMap id a s.raccoons h.is_map;
    own_id = λ j x g. ground (arith, get-put j id a s.raccoons, nat_eq.means_eq id j, h.own_id j x);
    below = λ j x g. elim (Bool-cases (id == j)) [
      | inl q ↦ omega (arith, beq_eq id j q)
      | inr q ↦ omega (arith, h.below j x (rw (get-put j id a s.raccoons, q) at g))
    ];
  }

  del-IsCaged :
      (s : Service js) (id : ℕ) → IsCaged s → IsCaged (record s { raccoons = del id s.raccoons })
  del-IsCaged s id h = record {
    is_map = del-IsMap id s.raccoons h.is_map;
    own_id = λ j b g. ground (arith, get-del j id s.raccoons, h.own_id j b);
    below = λ j b g. ground (arith, get-del j id s.raccoons, h.below j b);
  }

  cage_lem :
      (a : AstRaccoon js) (s : Service js)
      → IsCaged s
      → s.next_raccoon_id + 1 < uint64_mod
      → cage a s ≡ (
        record s {
          raccoons = put s.next_raccoon_id (record a { id = s.next_raccoon_id }) s.raccoons;
          next_raccoon_id = s.next_raccoon_id + 1;
        },
        record { success = true; msg = format_uint s.next_raccoon_id; oracle = none },
      )
  unfolding cage
  cage_lem a s h b = rw (get_next s h, cage) (ground arith)

  -- Where each raccoon stands under its own identifier and below the next one, which is below 2^64
  -- - 1, it is so after a request.
  pub serve-IsCaged :
      (r : Request) (s : Service js)
      → IsCaged s
      → s.next_raccoon_id + 1 < uint64_mod
      → IsCaged (serve r s).0
  unfolding serve create_oracle update_oracle delete_oracle
  serve-IsCaged (create arg) s h b = elim (Bool-cases (do_i_have_this_oracle arg s)) [
    | inl e ↦ rw (e, create_oracle) h
    | inr e ↦ elim (Result-cases (new_ast_raccoon js arg.code)) [
      | inr (x, f) ↦ rw (e, create_oracle, f) h
      | inl (a, f) ↦
          rw (e, create_oracle, f, cage_lem (record a { name = arg.name }) s h b)
            (put-IsCaged s s.next_raccoon_id (s.next_raccoon_id + 1) _ h refl (omega arith)
              (omega arith))
    ]
  ]
  serve-IsCaged (update arg) s h b = elim (Result-cases (new_ast_raccoon js arg.code)) [
    | inr (x, f) ↦ rw (f, update_oracle) h
    | inl (a, f) ↦ elim (Option-cases (get arg.id s.raccoons)) [
      | inl e ↦ rw (f, update_oracle, e) h
      | inr (old, e) ↦
          rw (f, update_oracle, e)
            (put-IsCaged s arg.id s.next_raccoon_id _ h refl (h.below arg.id old e) (omega arith))
    ]
  ]
  serve-IsCaged (remove id) s h b = elim (Option-cases (get id s.raccoons)) [
    | inl e ↦ rw (e, delete_oracle) h
    | inr (old, e) ↦ rw (e, delete_oracle) (del-IsCaged s id h)
  ]

  new_ast_raccoon_lem :
      (source : String) (a : AstRaccoon js) → new_ast_raccoon js source ≡ ok a → a.src ≡ source
  unfolding new_ast_raccoon
  new_ast_raccoon_lem source a h = elim (Result-cases (parse_ast js source)) [
    | inr (x, e) ↦ ground (arith, e)
    | inl ((f, m), e) ↦ ground (arith, e)
  ]

  view-put :
      (j id : ℕ) (a : AstRaccoon js) (arg : Oracle) (s : Service js)
      → a.src ≡ arg.code
      → a.name ≡ arg.name
      → a.id ≡ id
      → (elim (get j (put id a s.raccoons)) [ none ↦ none | some b ↦ some (as_oracle b) ])
        ≡ (if id == j then some (record arg { id = id }) else view s j)
  unfolding as_oracle
  view-put j id a arg s h e f = rw (get-put j id a s.raccoons) (ground arith)

  view-del :
      (j id : ℕ) (s : Service js)
      → (elim (get j (del id s.raccoons)) [ none ↦ none | some b ↦ some (as_oracle b) ])
        ≡ (if id == j then none else view s j)
  view-del j id s = rw (get-del j id s.raccoons) (ground arith)

  -- Over raccoons that stand under their identifiers below the next one, which is below 2^64 - 1,
  -- a request of an oracle either fails and changes nothing, or it succeeds and changes the map of
  -- oracles exactly at its identifier: to the new name and code, or to nothing.
  pub serve-refines :
      (r : Request) (s : Service js)
      → IsCaged s
      → s.next_raccoon_id + 1 < uint64_mod
      → ((serve r s).1.success ≡ false) × ((serve r s).0 ≡ s)
        ⊎ ((serve r s).1.success ≡ true)
          × ((id : ℕ)
              → view (serve r s).0 id
                ≡ (if target r s == id then changed r (target r s) else view s id))
  unfolding serve create_oracle update_oracle delete_oracle changed target as_oracle
  serve-refines (create arg) s h b = elim (Bool-cases (do_i_have_this_oracle arg s)) [
    | inl e ↦ rw (e, create_oracle) (inl (refl, refl))
    | inr e ↦ elim (Result-cases (new_ast_raccoon js arg.code)) [
      | inr (x, f) ↦ rw (e, create_oracle, f) (inl (refl, refl))
      | inl (a, f) ↦
          rw (e, create_oracle, f, cage_lem (record a { name = arg.name }) s h b)
            (inr (
              refl,
              λ id.
                  view-put id s.next_raccoon_id _ arg s (new_ast_raccoon_lem arg.code a f) refl
                    refl,
            ))
    ]
  ]
  serve-refines (update arg) s h b = elim (Result-cases (new_ast_raccoon js arg.code)) [
    | inr (x, f) ↦ rw (f, update_oracle) (inl (refl, refl))
    | inl (a, f) ↦ elim (Option-cases (get arg.id s.raccoons)) [
      | inl e ↦ rw (f, update_oracle, e) (inl (refl, refl))
      | inr (old, e) ↦
          rw (f, update_oracle, e)
            (inr
              (refl, λ id. view-put id arg.id _ arg s (new_ast_raccoon_lem arg.code a f) refl refl))
    ]
  ]
  serve-refines (remove id) s h b = elim (Option-cases (get id s.raccoons)) [
    | inl e ↦ rw (e, delete_oracle) (inl (refl, refl))
    | inr (old, e) ↦ rw (e, delete_oracle) (inr (refl, λ j. view-del j id s))
  ]

  have_equal-put :
      (oracle : Oracle) (id : ℕ) (a : AstRaccoon js) (m : List (ℕ × AstRaccoon js))
      → is_equal_to a oracle ≡ true
      → have_equal oracle (put id a m) ≡ true
  unfolding have_equal put
  have_equal-put oracle id a [] h = rw (h, have_equal) refl
  have_equal-put oracle id a ((j, b) ∷ m) h = ground (arith, h, have_equal-put oracle id a m)

  -- Over raccoons that stand under their identifiers below the next one, which is below 2^64 - 1,
  -- a second CreateOracle of an oracle that was created is refused and changes nothing.
  pub create_oracle_twice :
      (arg : Oracle) (s : Service js)
      → IsCaged s
      → s.next_raccoon_id + 1 < uint64_mod
      → (create_oracle arg s).1.success ≡ true
      → create_oracle arg (create_oracle arg s).0
        ≡ ((create_oracle arg s).0, err_oracle_response "This oracle already exists.")
  unfolding create_oracle do_i_have_this_oracle is_equal_to
  create_oracle_twice arg s h b ok' = elim (Bool-cases (do_i_have_this_oracle arg s)) [
    | inl e ↦ cc (rw (e, create_oracle) at ok')
    | inr e ↦ elim (Result-cases (new_ast_raccoon js arg.code)) [
      | inr (x, f) ↦ cc (rw (e, create_oracle, f) at ok')
      | inl (a, f) ↦
          let src = new_ast_raccoon_lem arg.code a f in
          let equal : is_equal_to (record a { name = arg.name; id = s.next_raccoon_id }) arg
              ≡ true =
            rw (src, beq_self arg.name, beq_self arg.code) refl in
          let there =
            have_equal-put arg s.next_raccoon_id
              (record a { name = arg.name; id = s.next_raccoon_id }) s.raccoons equal in
          rw (e, create_oracle, f, cage_lem (record a { name = arg.name }) s h b, there) refl
    ]
  ]
