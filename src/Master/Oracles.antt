-- ===== src/Master/Oracles.antt =====
-- master/mux_oracles.go, with doIHaveThisOracle of oracle_stealer.go and findRaccoon of mux_runner.go.
pub mod Cage
use sum.Prelude.{ℕ, ◌+◌, ◌%◌, String, Bool, true, false, Option, none, some, List, [], ◌∷◌, map}
use sum.Prelude.Tests.{Result, ok, err, ◌◇◌, ◌==◌, string_eq, nat_eq, if◌then◌else◌}
use sum.Prelude.Map.{get, put, del}
use sum.Prelude.Decimal.{format_uint}
use sum.Proto.{Oracle, OracleResponse, ListRequest, ListResponse, uint64_mod}
use sum.Storage.Files.{invalid_id, record_not_found, error_text}
use sum.Node.Paging.{list_page}
use sum.Master.Raccoon.{Parser, AstRaccoon, new_ast_raccoon, as_oracle, is_equal_to}
use sum.Master.Replies.{err_oracle_response}
use sum.Master.State.{Service}

module _ {js : Parser} where
  unfoldable pub find_raccoon : ℕ → Service js → Option (AstRaccoon js)
  unfolding get
  find_raccoon id s = get id s.raccoons

  -- doIHaveThisOracle
  unfoldable pub have_equal : Oracle → List (ℕ × AstRaccoon js) → Bool
  unfolding is_equal_to
  have_equal oracle [] = false
  have_equal oracle ((id, a) ∷ raccoons) =
      let later = have_equal oracle raccoons in if is_equal_to a oracle then true else later

  unfoldable pub do_i_have_this_oracle : Oracle → Service js → Bool
  unfolding have_equal
  do_i_have_this_oracle oracle s = have_equal oracle s.raccoons

  -- CreateOracle, from the assignment of the identifier on
  unfoldable pub cage : AstRaccoon js → Service js → Service js × OracleResponse
  unfolding get put
  cage a s = elim (get s.next_raccoon_id s.raccoons) [
    | some _ ↦ (s, err_oracle_response (error_text invalid_id))
    | none ↦ (
      record s {
        raccoons = put s.next_raccoon_id (record a { id = s.next_raccoon_id }) s.raccoons;
        next_raccoon_id = (s.next_raccoon_id + 1) % uint64_mod;
      },
      record { success = true; msg = format_uint s.next_raccoon_id; oracle = none },
    )
  ]

  unfoldable pub create_oracle : Oracle → Service js → Service js × OracleResponse
  unfolding do_i_have_this_oracle cage
  create_oracle arg s =
      if do_i_have_this_oracle arg s
      then (s, err_oracle_response "This oracle already exists.")
      else elim (new_ast_raccoon js arg.code) [
        | err e ↦ (s, err_oracle_response ("Error parsing the code: " ◇ e))
        | ok a ↦ cage (record a { name = arg.name }) s
      ]

  unfoldable pub update_oracle : Oracle → Service js → Service js × OracleResponse
  unfolding get put
  update_oracle arg s = elim (new_ast_raccoon js arg.code) [
    | err e ↦ (s, err_oracle_response ("Error parsing the code: " ◇ e))
    | ok a ↦ elim (get arg.id s.raccoons) [
      | none ↦ (s, err_oracle_response (error_text record_not_found))
      | some _ ↦ (
        record s { raccoons = put arg.id (record a { id = arg.id; name = arg.name }) s.raccoons },
        record { success = true; msg = ""; oracle = none },
      )
    ]
  ]

  unfoldable pub read_oracle : ℕ → Service js → OracleResponse
  unfolding get as_oracle
  read_oracle id s = elim (get id s.raccoons) [
    | none ↦ err_oracle_response ("oracle " ◇ format_uint id ◇ " not found.")
    | some a ↦ record { success = true; msg = ""; oracle = some (as_oracle a) }
  ]

  -- FindOracle
  unfoldable pub named : String → List (ℕ × AstRaccoon js) → Option (AstRaccoon js)
  named name [] = none
  named name ((id, a) ∷ raccoons) =
      let later = named name raccoons in if a.name == name then some a else later

  unfoldable pub find_oracle : String → Service js → OracleResponse
  unfolding named as_oracle
  find_oracle name s = elim (named name s.raccoons) [
    | none ↦ err_oracle_response ("oracle '" ◇ name ◇ "' not found.")
    | some a ↦ record { success = true; msg = ""; oracle = some (as_oracle a) }
  ]

  -- ListOracles; `arrange` is what sort.Slice leaves, and `none` a panic
  unfoldable pub oracles_of : List (ℕ × AstRaccoon js) → List ℕ → Option (List Oracle)
  unfolding get as_oracle
  oracles_of raccoons [] = some []
  oracles_of raccoons (id ∷ ids) = elim (get id raccoons) [
    | none ↦ none
    | some a ↦ elim (oracles_of raccoons ids) [
      | none ↦ none
      | some rest ↦ some (as_oracle a ∷ rest)
    ]
  ]

  unfoldable pub keys : List (ℕ × AstRaccoon js) → List ℕ
  keys [] = []
  keys ((id, a) ∷ raccoons) = id ∷ keys raccoons

  unfoldable pub list_oracles :
      (List ℕ → List ℕ) → ListRequest → Service js → Option (ListResponse Oracle)
  unfolding list_page keys oracles_of
  list_oracles arrange req s = elim (list_page arrange (keys s.raccoons) req) [
    | none ↦ none
    | some page ↦ elim (oracles_of s.raccoons page.items) [
      | none ↦ none
      | some items ↦ some (record { total = page.total; pages = page.pages; items = items })
    ]
  ]

  unfoldable pub delete_oracle : ℕ → Service js → Service js × OracleResponse
  unfolding get del
  delete_oracle id s = elim (get id s.raccoons) [
    | none ↦ (s, err_oracle_response ("Oracle " ◇ format_uint id ◇ " not found."))
    | some _ ↦ (
      record s { raccoons = del id s.raccoons },
      record { success = true; msg = ""; oracle = none },
    )
  ]

-- the requests that change the oracles
pub data Request : Type 0 where
  create : Oracle → Request
  update : Oracle → Request
  remove : ℕ → Request

unfoldable pub serve : {js : Parser} → Request → Service js → Service js × OracleResponse
unfolding create_oracle update_oracle delete_oracle
serve (create arg) s = create_oracle arg s
serve (update arg) s = update_oracle arg s
serve (remove id) s = delete_oracle id s
