-- ===== src/Node/Oracles/Cached/Startup.antt =====
-- New with the cache (node/service/service.go).
use sum.Prelude.{ℕ, ◌≡◌, ◌∙◌, ap, subst, sym, refl, String, Option, none, some, List, [], arith}
use sum.Prelude.Tests.{ok, nat_eq}
use sum.Prelude.Map.{get}
use sum.Proto.{Record, Oracle}
use sum.Storage.Env.{Env}
use sum.Storage.Driver.{oracle_driver}
use sum.Storage.Index
use sum.Storage.Index.{Index, Outcome}
use sum.Storage.Index.Validity.{IsValid}
use sum.Storage.Records.{Records}
use sum.Node.Interpreter.{Interpreter}
use sum.Node.Compiler.{Compiled}
use sum.Node.Service.{Service}
use sum.Node.Service.{precompile, precompiled, serving, CompiledCache}
use sum.Node.Service.Precompiled.{RangeLaws, precompile_each}
use sum.Storage.Index.{for_each}
use sum.Node.Oracles.Cached.{IsCached, Serves, Serves-fresh}

module _ {env : Env Record} {oenv : Env Oracle} {js : Interpreter (Records env)} where
  -- Where New returns a service, over oracles without a repeated identifier and each under its
  -- own, and an iteration that meets each entry once, every stored oracle has its compiled form in
  -- the cache, ready to run, and nothing else is in it.
  pub precompiled-IsCached :
      (range : List (ℕ × Oracle) → List (ℕ × Oracle)) (records : Records env) (oracles : Index oenv)
      (s : Service oenv js)
      → RangeLaws range
      → IsValid oracle_driver oracles
      → precompiled js range records oracles ≡ ok s
      → IsCached s
  unfolding precompiled serving Index.find Serves get
  precompiled-IsCached range records oracles s laws v h =
      started (for_each (precompile js) [] (range oracles.index)) refl
    where
      nothing : (id : ℕ) → get {V = Compiled js} id [] ≡ none
      nothing id = refl

      started :
          (o : CompiledCache js × Option String)
          → for_each (precompile js) [] (range oracles.index) ≡ o
          → IsCached s
      started (cache, some x) e = absurd (ground arith)
      started (cache, none) e =
          let same : record { records = records; oracles = oracles; cache = cache } ≡ s =
            ground arith in
          let each =
            precompile_each js (range oracles.index) [] (laws.range-IsMap oracles.index v.map)
              (λ id m p. v.ids id m (sym (laws.get-range oracles.index id v.map) ∙ p))
              (ap (λ t. t.1) e) in
          subst IsCached same (record {
            valid = v;
            hit = λ id o p.
                let (c, d, at) = each.0 id o (laws.get-range oracles.index id v.map ∙ p) in
                Serves-fresh js o c _ d (ap (λ t. get id t.0) (sym e) ∙ at);
            miss = λ id p.
                ap (λ t. get id t.0) (sym e)
                ∙ each.1 id (laws.get-range oracles.index id v.map ∙ p)
                ∙ nothing id;
          })
