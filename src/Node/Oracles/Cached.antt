-- ===== src/Node/Oracles/Cached.antt =====
-- The cache of compiled oracles beside the stored ones (node/service/cache.go).
pub mod Changes
pub mod Runs
pub mod Startup
pub mod Serving
use mathlib.Core.Option.{some_inj}
use sum.Prelude.{
  ℕ, ◌≡◌, ◌∙◌, ap, subst, sym, ◌<◌, ◌≤◌, inl, inr, refl, String, Bool, true, false, Option, none,
  some, List, [], ◌∷◌, arith,
}
use sum.Prelude.Tests.{
  Result, ok, err, nat_eq, nat_beq_iff, ◌==◌, ◌◇◌, if◌then◌else◌, Option-cases, Bool-cases,
  Result-cases, Result-elim,
}
use sum.Prelude.Lists.{length, All}
use sum.Prelude.Map.{get, put, del, get-put, get-del}
use sum.Prelude.Decimal.{format_uint}
use sum.Proto.{Record, Oracle, OracleResponse, Call, CallResponse}
use sum.Storage.Env.{Env}
use sum.Storage.Driver.{oracle_driver, oracle_driver-DriverLaws, copy_oracle}
use sum.Storage.Files.{Error}
use sum.Storage.Index
use sum.Storage.Index.{Index, Outcome}
use sum.Storage.Index.Validity.{IsValid, create-IsValid, update-IsValid, delete-IsValid}
use sum.Storage.Index.Effects.{
  create_fresh, create_failed, update_stored, update_missing, delete_lem,
}
use sum.Storage.Records.{Records}
use sum.Node.Interpreter.{Interpreter}
use sum.Node.Pool.{
  ExecutionPool, num_vm_in_pool, create_execution_pool, create_clones, create_clone,
}
use sum.Node.Compiler.{Compiled, compile, validate, prototype, call_of}
use sum.Node.Run.{compiled_run, result}
use sum.Node.Run.Outcome.{IsReady, program, ran, compiled_run_lem}
use sum.Node.Payload.{Gzip, build_payload}
use sum.Node.Service.{Service}
use sum.Node.Oracles.{
  oracle_created, create_oracle, oracle_updated, update_oracle, oracle_deleted, delete_oracle,
  respond, run, err_call_response,
}

module _ {R : Type 0} (js : Interpreter R) where
  -- only the code of an oracle is compiled
  pub compile_same_code :
      (o o' : Oracle) (c : Compiled js)
      → o.code ≡ o'.code
      → compile js o ≡ ok c
      → compile js o' ≡ ok (record c { oracle = o' })
  unfolding compile validate
  compile_same_code o o' c e h = ground arith

  compile_parts :
      (o : Oracle) (c : Compiled js)
      → compile js o ≡ ok c
      → (c.argc ≡ length c.args) × ((vm : js.Vm) × (c.pool ≡ create_execution_pool js.copy_vm vm))
  unfolding compile
  compile_parts o c h = elim (Result-cases (validate js o)) [
    | inl ((text, names), e) ↦ elim (Result-cases (js.run_text js.new_vm o.code)) [
      | inl (vm, f) ↦ (ground arith, (vm, ground arith))
      | inr (x, f) ↦ absurd (ground arith)
    ]
    | inr (x, e) ↦ absurd (ground arith)
  ]

  -- A compiled oracle is ready to run.
  pub compile-IsReady : (o : Oracle) (c : Compiled js) → compile js o ≡ ok c → IsReady js c
  unfolding create_execution_pool create_clones create_clone
  compile-IsReady o c h =
      let (argc, (vm, e)) = compile_parts o c h in
      record {
        argc = argc;
        clones = ap (λ p. length p.clones) e;
        way = rw (ap (λ p. p.free_way) e) (
          omega arith,
          (
            omega arith,
            (
              omega arith,
              (omega arith, (omega arith, (omega arith, (omega arith, (omega arith, tt))))),
            ),
          ),
        );
        free = (
          omega (arith, ap (λ p. length p.free_way) e),
          omega (arith, ap (λ p. length p.free_way) e),
        );
      }

  -- the entry that the cache needs for a stored oracle: its compiled form, as runs left it
  unfoldable pub Serves : Oracle → Option (Compiled js) → Type 0
  Serves o entry =
      (c : Compiled js) × (c' : Compiled js) × (compile js o ≡ ok c)
      × (entry ≡ some c')
      × (program js c' ≡ program js c)
      × IsReady js c'

pub Serves-fresh :
    {R : Type 0} (js : Interpreter R) (o : Oracle) (c : Compiled js) (entry : Option (Compiled js))
    → compile js o ≡ ok c
    → entry ≡ some c
    → Serves js o entry
unfolding Serves
Serves-fresh js o c entry h e = (c, c, h, e, refl, compile-IsReady js o c h)

module _ {env : Env Record} {oenv : Env Oracle} {js : Interpreter (Records env)} where
  pub record IsCached (s : Service oenv js) : Type 0 where
    pub valid : IsValid oracle_driver s.oracles
    pub hit :
        (id : ℕ) (o : Oracle) → Index.find id s.oracles ≡ some o → Serves js o (get id s.cache)
    pub miss : (id : ℕ) → Index.find id s.oracles ≡ none → get id s.cache ≡ none
