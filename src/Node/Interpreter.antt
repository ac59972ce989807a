-- ===== src/Node/Interpreter.antt =====
-- What node/service takes from outside the repository: the JavaScript interpreter (otto), encoding/json.
use sum.Prelude.{String, Option, List}
use sum.Prelude.Tests.{Result}
use sum.Wrapper.Context.{Context}

-- The name of a function declaration and its parameters; `none` for a nil list.
pub record FunctionDeclaration : Type 0 where
  pub name : String
  pub parameters : Option (List String)

-- A recovered value: a string, an error, or one of another type, with what `%T` and `%v` print.
pub data Panic : Type 0 where
  text : String → Panic
  error : String → Panic
  other : String → String → Panic

-- How a piece of Go code ends: with a value, with an error, or by a panic.
pub data Ending (A : Type 0) : Type 0 where
  returned : A → Ending A
  failed : String → Ending A
  panicked : Panic → Ending A

-- `R` is what the oracles can read and change through the `records` of their interpreter.
pub record Interpreter (R : Type 0) : Type 1 where
  pub Vm : Type 0
  pub Script : Type 0
  pub Value : Type 0
  pub Json : Type 0
  pub Bytes : Type 0
  -- parser.ParseFile with its declarations, of which one that is no function is `none`
  pub parse_file : String → Result String (List (Option FunctionDeclaration))
  -- otto.New, Copy, Run of a text, Compile, Set of a parsed argument
  pub new_vm : Vm
  pub copy_vm : Vm → Vm
  pub run_text : Vm → String → Result String Vm
  pub compile_call : Vm → String → Script
  pub set_value : Vm → String → Json → Vm
  -- the setting of `records` and of a new `ctx`, and Run of the compiled call with them: `none` for a
  -- call that never ends
  pub set_globals : Vm → R → Vm
  pub run_call : Vm → Script → R → Context → Option ((Vm × (R × Context)) × Ending Value)
  -- Export and json.Marshal, which can panic, and json.Unmarshal
  pub export : Value → Ending Json
  pub marshal : Json → Ending Bytes
  pub unmarshal : String → Result String Json
