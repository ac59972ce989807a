-- ===== src/Node/Compiler.antt =====
-- node/service/compiler.go.
use sum.Prelude.{ℕ, String, Option, none, some, List, [], ◌∷◌}
use sum.Prelude.Tests.{Result, ok, err, ◌◇◌}
use sum.Prelude.Lists.{length}
use sum.Proto.{Oracle}
use sum.Node.Interpreter.{Interpreter, FunctionDeclaration}
use sum.Node.Pool.{ExecutionPool, create_execution_pool}

pub record Compiled {R : Type 0} (js : Interpreter R) : Type 0 where
  pub pool : ExecutionPool js.Vm
  pub oracle : Oracle
  pub call : js.Script
  pub argc : ℕ
  pub args : List String

-- the loop over program.DeclarationList, up to the first function
unfoldable pub prototype : List (Option FunctionDeclaration) → Option FunctionDeclaration
prototype [] = none
prototype (none ∷ decls) = prototype decls
prototype (some f ∷ decls) = some f

-- strings.Join with a comma
unfoldable pub join_comma : List String → String
join_comma [] = ""
join_comma (s ∷ []) = s
join_comma (s ∷ t ∷ rest) = s ◇ "," ◇ join_comma (t ∷ rest)

-- the end of validate, with the declaration found
unfoldable pub call_of : Option FunctionDeclaration → Result String (String × List String)
unfolding join_comma
call_of none = err "expected a function declaration"
call_of (some f) =
    let args : List String = elim f.parameters [ none ↦ [] | some names ↦ names ] in
    ok (f.name ◇ "(" ◇ join_comma args ◇ ")", args)

module _ {R : Type 0} (js : Interpreter R) where
  unfoldable pub validate : Oracle → Result String (String × List String)
  unfolding call_of prototype
  validate oracle = elim (js.parse_file oracle.code) [
    | err e ↦ err e
    | ok decls ↦ call_of (prototype decls)
  ]

  unfoldable pub compile : Oracle → Result String (Compiled js)
  unfolding validate
  compile oracle = elim (validate oracle) [
    | err e ↦ err e
    | ok (call_string, args) ↦ elim (js.run_text js.new_vm oracle.code) [
      | err e ↦ err e
      | ok vm ↦ ok (record {
        pool = create_execution_pool js.copy_vm vm;
        oracle = oracle;
        call = js.compile_call vm call_string;
        argc = length args;
        args = args;
      })
    ]
  ]
