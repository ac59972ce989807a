-- ===== src/Node/Run.antt =====
-- node/service/compiled.go: one run of a compiled oracle.
pub mod Outcome
use sum.Prelude.{
  ℕ, zero, suc, ◌-◌, String, Bool, true, false, Option, none, some, List, [], ◌∷◌, ◌++◌,
}
use sum.Prelude.Tests.{Result, ok, err, ◌◇◌, if◌then◌else◌}
use sum.Prelude.Lists.{length, get_elem?, set}
use sum.Wrapper.Context.{Context, new_context}
use sum.Node.Interpreter.{Interpreter, Panic, Ending, returned, failed, panicked}
use sum.Node.Pool.{ExecutionPool, get_vm, set_free}
use sum.Node.Compiler.{Compiled}

-- `for len(args) < c.argc`, so many rounds
unfoldable pub pad_args : ℕ → List String → List String
pad_args zero args = args
pad_args (suc missing) args = pad_args missing (args ++ "null" ∷ [])

-- dontPanic
unfoldable pub recovered : Panic → String
recovered (Panic.text s) = s
recovered (Panic.error s) = s
recovered (Panic.other type value) = "got panic of type " ◇ type ◇ ": " ◇ value

abbrev pub out_of_range : Panic
out_of_range = Panic.error "runtime error: index out of range"

module _ {R : Type 0} (js : Interpreter R) where
  open js use {Vm, Value, Bytes}

  -- the loop over argIdx, with so many rounds left
  unfoldable pub set_args : ℕ → ℕ → (args names : List String) → Vm → Vm × Ending Unit
  set_args zero i args names vm = (vm, returned tt)
  set_args (suc left) i args names vm = elim (get_elem? args i) [
    | none ↦ (vm, panicked out_of_range)
    | some raw ↦ elim (js.unmarshal raw) [
      | err e ↦ (vm, failed ("could not unmarshal value '" ◇ raw ◇ "': " ◇ e))
      | ok v ↦ elim (get_elem? names i) [
        | none ↦ (vm, panicked out_of_range)
        | some name ↦ set_args left (suc i) args names (js.set_value vm name v)
      ]
    ]
  ]

  -- the inner function of Run after the interpreter is taken
  unfoldable pub evaluate :
      Compiled js → R → Vm × Ending Unit → Option ((Vm × (R × Context)) × Ending Value)
  evaluate c r (vm, returned _) = js.run_call vm c.call r new_context
  evaluate c r (vm, failed e) = some ((vm, (r, new_context)), failed e)
  evaluate c r (vm, panicked p) = some ((vm, (r, new_context)), panicked p)

  -- what Run makes of the result; dontPanic has returned when it is exported and marshalled
  unfoldable pub result : Context → Ending Value → Ending Bytes
  unfolding recovered
  result ctx (failed e) = failed e
  result ctx (panicked p) = failed (recovered p)
  result ctx (returned v) = if ctx.is_error then failed ctx.message else elim (js.export v) [
    | returned obj ↦ js.marshal obj
    | failed e ↦ failed e
    | panicked p ↦ panicked p
  ]

  -- Release, deferred: the interpreter, as it is now, goes back to the pool
  released :
      ℕ
      → Compiled js
      → (Vm × (R × Context)) × Ending Value
      → Option (Compiled js × R × Ending Bytes)
  unfolding result
  released i c ((vm, (r, ctx)), ending) =
      elim (set_free i (record c.pool { clones = set c.pool.clones i vm })) [
        | none ↦ none
        | some pool ↦ some (record c { pool = pool }, r, result ctx ending)
      ]

  -- Run; `none` where it waits for an interpreter, or to release one, or where the oracle never ends
  unfoldable pub compiled_run :
      R → List String → Compiled js → Option (Compiled js × R × Ending Bytes)
  unfolding pad_args set_args evaluate released
  compiled_run r args c = elim (get_vm c.pool) [
    | none ↦ none
    | some (i, pool) ↦ elim (get_elem? pool.clones i) [
      | none ↦ none
      | some vm ↦
          elim (evaluate c r (
            set_args c.argc 0 (pad_args (c.argc - length args) args) c.args
              (js.set_globals vm r))) [
                | none ↦ none
                | some out ↦ released i (record c { pool = pool }) out
              ]
    ]
  ]
