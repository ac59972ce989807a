-- ===== src/Node/Oracles/Cached/Runs.antt =====
-- Run with the cache (node/service/service.go).
use mathlib.Core.Option.{some_inj}
use sum.Prelude.{ℕ, ◌≡◌, ◌∙◌, ap, subst, sym, inl, inr, refl, true, none, some, arith}
use sum.Prelude.Tests.{ok, nat_eq, nat_beq_iff, ◌==◌, ◌◇◌, Bool-cases}
use sum.Prelude.Map.{get, put, get-put}
use sum.Prelude.Decimal.{format_uint}
use sum.Proto.{Record, Oracle, Call}
use sum.Storage.Env.{Env}
use sum.Storage.Index
use sum.Storage.Index.{Index, Outcome}
use sum.Storage.Records.{Records}
use sum.Wrapper.Context.{Context}
use sum.Node.Interpreter.{Interpreter, Ending, returned}
use sum.Node.Compiler.{Compiled, compile}
use sum.Node.Run.{result}
use sum.Node.Run.Outcome.{IsReady, program, ran, compiled_run_lem}
use sum.Node.Payload.{Gzip}
use sum.Node.Service.{Service}
use sum.Node.Oracles.{respond, run, err_call_response}
use sum.Node.Oracles.Cached.{IsCached, Serves}

module _ {env : Env Record} {oenv : Env Oracle} {js : Interpreter (Records env)} where
  ran-IsCached :
      (s : Service oenv js) (id : ℕ) (o : Oracle) (r : Records env) (c' after : Compiled js)
      → IsCached s
      → Index.find id s.oracles ≡ some o
      → get id s.cache ≡ some c'
      → program js after ≡ program js c'
      → IsReady js after
      → IsCached (record s { records = r; cache = put id after s.cache })
  unfolding Serves
  ran-IsCached s id o r c' after k found e same ready = record {
    valid = k.valid;
    hit = λ j m p. elim (Bool-cases (id == j)) [
      | inl eq ↦ again j m eq p
      | inr ne ↦
          let other : get j (put id after s.cache) ≡ get j s.cache =
            ground (arith, get-put j id after s.cache) in
          subst (Serves js m) (sym other) (k.hit j m p)
    ];
    miss = λ j p. ground (arith, get-put j id after s.cache, k.miss j, nat_beq_iff id j);
  }
    where
      again :
          (j : ℕ) (m : Oracle)
          → (id == j) ≡ true
          → Index.find j s.oracles ≡ some m
          → Serves js m (get j (put id after s.cache))
      again j m eq p =
          let (c, c0, h, e0, same0, _) = k.hit j m p in
          let at : id ≡ j = (nat_beq_iff id j).0 eq in
          let was : some c0 ≡ some c' = sym e0 ∙ ap (λ t. get t s.cache) (sym at) ∙ e in
          (
            c,
            after,
            h,
            ground (arith, get-put j id after s.cache),
            same ∙ ap (program js) (sym (some_inj.0 was)) ∙ same0,
            ready,
          )

  -- Where every stored oracle has its compiled form in the cache and nothing else is in it, and
  -- the program of a stored oracle comes to an end on the arguments, by a value, an error or a
  -- panic, Run comes to its end: its response, its error and its panic are those that it makes of
  -- the ending of the oracle's program, the records are as the program left them, and the cache is
  -- kept so.
  pub run_stored :
      (z : Gzip js.Bytes) (call : Call) (s : Service oenv js) (o : Oracle) (c' : Compiled js)
      (end_state : (js.Vm × (Records env × Context)) × Ending js.Value)
      → IsCached s
      → Index.find call.oracle_id s.oracles ≡ some o
      → get call.oracle_id s.cache ≡ some c'
      → ran js s.records call.args c' ≡ some end_state
      → (out : Service oenv js) × (c : Compiled js) × (run z call s
          ≡ some (out, respond z call.oracle_id (result js end_state.0.1.1 end_state.1)))
        × IsCached out
        × (out.records ≡ end_state.0.1.0)
        × (compile js o ≡ ok c)
        × (program js c' ≡ program js c)
  unfolding run Serves
  run_stored z call s o c' end_state k found at ended =
      let (c, c0, h, e, same, ready) = k.hit call.oracle_id o found in
      let here : c0 ≡ c' = some_inj.0 (sym e ∙ at) in
      let (after, done, still, same') =
        compiled_run_lem js s.records call.args c' end_state (subst (IsReady js) here ready)
          ended in
      (
        record s { records = end_state.0.1.0; cache = put call.oracle_id after s.cache },
        c,
        rw (at, run) (rw (done) refl),
        ran-IsCached s call.oracle_id o end_state.0.1.0 c' after k found at same' still,
        refl,
        h,
        subst (λ x. program js x ≡ program js c) here same,
      )

  -- Run of an identifier without an oracle says so, and changes nothing.
  pub run_missing :
      (z : Gzip js.Bytes) (call : Call) (s : Service oenv js)
      → IsCached s
      → Index.find call.oracle_id s.oracles ≡ none
      → run z call s
        ≡ some (
          s,
          returned
              (err_call_response ("oracle " ◇ format_uint call.oracle_id ◇ " not found."), none),
        )
  unfolding run
  run_missing z call s k e = rw (k.miss call.oracle_id e, run) refl
