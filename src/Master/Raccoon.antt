-- ===== src/Master/Raccoon.antt =====
-- master/ast_raccoon.go: the analysis of an oracle's source, and its rewriting with the records that
-- the master has looked up.
pub mod Patch
use sum.Prelude.{
  ℕ, ◌+◌, ◌-◌, zero, suc, String, Bool, true, false, Option, none, some, List, [], ◌∷◌, ◌++◌,
}
use sum.Prelude.Tests.{Result, ok, err, ◌◇◌, ◌==◌, nat_eq, string_eq, if◌then◌else◌}
use sum.Prelude.Lists.{length, get_elem?, set}
use sum.Prelude.Text.{before, after}
use sum.Proto.{Record, Oracle}

-- A call in the source: where it and its callee begin and end, Idx0 and Idx1 counted from 0, and its
-- arguments, `some name` for an identifier.
pub record CallExpression : Type 0 where
  pub idx0 : ℕ
  pub idx1 : ℕ
  pub callee_idx0 : ℕ
  pub callee_idx1 : ℕ
  pub arguments : List (Option String)

-- A node of the syntax tree, as Enter sees it.
pub data Node : Type 0 where
  call : CallExpression → Node
  other : Node

-- `Body` is the type of a function's body.
pub record FunctionLiteral (Body : Type 0) : Type 0 where
  pub name : String
  pub parameters : List String
  pub body : Body

-- What the analysis takes from outside the repository: otto's parser and walk, strings.HasPrefix of
-- "merge", strings.Fields joined again, and json.Marshal of a record.
pub record Parser : Type 1 where
  pub Body : Type 0
  -- a declaration that is no function is `none`
  pub parse_file : String → Result String (List (Option (FunctionLiteral Body)))
  -- the walk hands each node to Enter, and goes below it where Enter says so
  pub walk : {S : Type 0} → (Node → S → S × Bool) → Body → S → S
  pub has_merge_prefix : String → Bool
  pub join_fields : String → String
  pub json_record : Record → Result String String

-- A record that was looked up: the mark recordNotFound, or a record.
pub data Resolved : Type 0 where
  record_not_found : Resolved
  found : Record → Resolved

-- what Enter collects: callNodes and the set parametersToLookup
pub record Findings : Type 0 where
  pub call_nodes : List CallExpression
  pub to_lookup : List ℕ

pub record AstRaccoon (js : Parser) : Type 0 where
  pub id : ℕ
  pub name : String
  pub src : String
  pub call_nodes : List CallExpression
  pub parameters : List String
  pub parameters_to_lookup : List ℕ
  pub merger_function : Option (FunctionLiteral js.Body)

-- the index of the first parameter of a name, counted from the given one
unfoldable pub index_of : String → ℕ → List String → Option ℕ
index_of name i [] = none
index_of name i (p ∷ rest) =
    let later = index_of name (suc i) rest in if p == name then some i else later

-- `src[i:j]`, for the bounds of a node
unfoldable pub get_source : String → ℕ → ℕ → String
unfolding before after
get_source src i j = before (j - i) (after i src)

-- Enter, for a call with one argument that is an identifier
unfoldable pub enter_lookup : List String → CallExpression → String → Findings → Findings × Bool
unfolding index_of
enter_lookup parameters c name f = elim (index_of name 0 parameters) [
  | none ↦ (f, true)
  | some i ↦ (record { call_nodes = f.call_nodes ++ c ∷ []; to_lookup = i ∷ f.to_lookup }, false)
]

-- Enter; the flag says whether to go below the node
unfoldable pub enter : (js : Parser) → String → List String → Node → Findings → Findings × Bool
unfolding get_source enter_lookup
enter js src [] n f = (f, false)
enter js src (p ∷ ps) other f = (f, true)
enter js src (p ∷ ps) (call c) f = elim c.arguments [
  | [] ↦ (f, true)
  | arg ∷ more ↦ elim more [
    | _ ∷ _ ↦ (f, true)
    | [] ↦ elim arg [
      | none ↦ (f, true)
      | some name ↦
          if js.join_fields (get_source src c.callee_idx0 c.callee_idx1) == "records.Find"
          then enter_lookup (p ∷ ps) c name f
          else (f, true)
    ]
  ]
]

-- the functions among the declarations
unfoldable pub functions_of : {F : Type 0} → List (Option F) → List F
functions_of [] = []
functions_of (none ∷ decls) = functions_of decls
functions_of (some f ∷ decls) = f ∷ functions_of decls

unfoldable pub has_one : {A : Type 0} → List A → Bool
has_one (a ∷ []) = true
has_one _ = false

module _ (js : Parser) where
  -- the search for a merger function, among the functions after the first
  unfoldable pub merger_of : List (FunctionLiteral js.Body) → Option (FunctionLiteral js.Body)
  unfolding has_one
  merger_of [] = none
  merger_of (f ∷ rest) =
      let later = merger_of rest in
      if js.has_merge_prefix f.name then if has_one f.parameters then some f else later else later

  -- parseAst
  unfoldable pub split_functions :
      List (FunctionLiteral js.Body)
      → Result String (FunctionLiteral js.Body × Option (FunctionLiteral js.Body))
  unfolding merger_of
  split_functions [] = err "no function provided"
  split_functions (f ∷ rest) = ok (f, merger_of rest)

  unfoldable pub parse_ast :
      String → Result String (FunctionLiteral js.Body × Option (FunctionLiteral js.Body))
  unfolding split_functions functions_of
  parse_ast code = elim (js.parse_file code) [
    | err e ↦ err e
    | ok decls ↦ split_functions (functions_of decls)
  ]

  unfoldable pub new_ast_raccoon : String → Result String (AstRaccoon js)
  unfolding parse_ast enter
  new_ast_raccoon source = elim (parse_ast source) [
    | err e ↦ err e
    | ok (function, merger) ↦
        let f : Findings =
          js.walk (enter js source function.parameters) function.body
            (record { call_nodes = []; to_lookup = [] }) in
        ok (record {
          id = 0;
          name = "";
          src = source;
          call_nodes = f.call_nodes;
          parameters = function.parameters;
          parameters_to_lookup = f.to_lookup;
          merger_function = merger;
        })
  ]

  -- getSerialised for a record that was resolved
  unfoldable pub serialised : Resolved → Result String String
  serialised record_not_found = ok "null"
  serialised (found r) = js.json_record r

module _ {js : Parser} where
  -- AsOracle and IsEqualTo
  unfoldable pub as_oracle : AstRaccoon js → Oracle
  as_oracle a = record { id = a.id; name = a.name; code = a.src }

  unfoldable pub is_equal_to : AstRaccoon js → Oracle → Bool
  is_equal_to a oracle = if oracle.name == a.name then oracle.code == a.src else false
