-- ===== src/Cli/Oracles/Unique.antt =====
-- The oracle handlers of node/service/oracles.go against the names of the stored oracles.
use sum.Prelude.{
  ℕ, ◌≡◌, ◌≢◌, ◌⊎◌, inl, inr, refl, sym, ◌∙◌, String, true, false, Option, none, some, List,
}
use sum.Prelude.Tests.{nat_eq, string_eq, Result-elim}
use sum.Prelude.Map.{get}
use sum.Proto.{Record, Oracle, OracleResponse}
use sum.Storage.Env.{Env}
use sum.Storage.Driver.{oracle_driver}
use sum.Storage.Index
use sum.Storage.Index.{Index, for_each}
use sum.Storage.Records.{Records}
use sum.Node.Interpreter.{Interpreter}
use sum.Node.Compiler.{Compiled, compile}
use sum.Node.Service.{Service}
use sum.Node.Service.Precompiled.{RangeLaws}
use sum.Node.Oracles
use sum.Node.Oracles.{keep_named, oracle_or, oracle_created, oracle_updated, oracle_deleted}
use sum.Cli.Oracles.Naming.{
  IsUnique, IsFreeBut, create-IsUnique, update-IsUnique, delete-IsUnique, for_each-keep_named,
}

module _ {env : Env Record} {oenv : Env Oracle} {js : Interpreter (Records env)} where
  -- what a search by name answers
  unfoldable pub Answers : String → Service oenv js → OracleResponse → Type 0
  Answers name s resp =
      ((k : ℕ) × (o : Oracle) × (resp.success ≡ true)
        × (resp.oracle ≡ some o)
        × (get k s.oracles.index ≡ some o)
        × (o.name ≡ name))
      ⊎ ((resp.success ≡ false)
          × ((k : ℕ) (o : Oracle) → get k s.oracles.index ≡ some o → o.name ≢ name))

  pub find_oracle-Answers :
      (range : List (ℕ × Oracle) → List (ℕ × Oracle)) (name : String) (s : Service oenv js)
      → RangeLaws range
      → IsUnique s.oracles
      → Answers name s (Oracles.find_oracle range name s)
  unfolding Answers Oracles.find_oracle oracle_or
  find_oracle-Answers range name s laws u =
      elim (for_each-keep_named name (range s.oracles.index) none
        (laws.range-IsMap s.oracles.index u.valid.map)) [
          | inl (k, o, r, g, n) ↦ inl (
            k,
            o,
            rw (r) refl,
            rw (r) refl,
            sym (laws.get-range s.oracles.index k u.valid.map) ∙ g,
            n,
          )
          | inr (r, others) ↦
              inr (
                rw (r) refl,
                λ k o e. others k o (laws.get-range s.oracles.index k u.valid.map ∙ e),
              )
        ]

  created-IsUnique :
      (o : Oracle) (c : Compiled js) (s : Service oenv js) (out : Index.Outcome oenv)
      → IsUnique out.0
      → IsUnique (oracle_created o c s out).0.oracles
  unfolding oracle_created
  created-IsUnique o c s (i, some e) u = u
  created-IsUnique o c s (i, none) u = u

  updated-IsUnique :
      (o : Oracle) (c : Compiled js) (s : Service oenv js) (out : Index.Outcome oenv)
      → IsUnique out.0
      → IsUnique (oracle_updated o c s out).0.oracles
  unfolding oracle_updated
  updated-IsUnique o c s (i, some e) u = u
  updated-IsUnique o c s (i, none) u = u

  deleted-IsUnique :
      (id : ℕ) (s : Service oenv js) (out : Index oenv × Option Oracle)
      → IsUnique out.0
      → IsUnique (oracle_deleted id s out).0.oracles
  unfolding oracle_deleted
  deleted-IsUnique id s (i, some e) u = u
  deleted-IsUnique id s (i, none) u = u

  pub node_create-IsUnique :
      (o : Oracle) (s : Service oenv js)
      → ((j : ℕ) (b : Oracle) → get j s.oracles.index ≡ some b → b.name ≢ o.name)
      → IsUnique s.oracles
      → IsUnique (Oracles.create_oracle o s).0.oracles
  unfolding Oracles.create_oracle
  node_create-IsUnique o s free u =
      Result-elim (λ (a : Service oenv js × OracleResponse). IsUnique a.0.oracles) (compile js o)
        (λ _ _. u)
        (λ c _.
          created-IsUnique (Index.created oracle_driver o s.oracles) c s
            (Index.create oracle_driver o s.oracles) (create-IsUnique o s.oracles free u))

  pub node_update-IsUnique :
      (o : Oracle) (s : Service oenv js)
      → IsFreeBut o.id o.name s.oracles.index
      → IsUnique s.oracles
      → IsUnique (Oracles.update_oracle o s).0.oracles
  unfolding Oracles.update_oracle
  node_update-IsUnique o s free u =
      Result-elim (λ (a : Service oenv js × OracleResponse). IsUnique a.0.oracles) (compile js o)
        (λ _ _. u)
        (λ c _.
          updated-IsUnique o c s (Index.update oracle_driver o s.oracles)
            (update-IsUnique o s.oracles free u))

  pub node_delete-IsUnique :
      (id : ℕ) (s : Service oenv js)
      → IsUnique s.oracles
      → IsUnique (Oracles.delete_oracle id s).0.oracles
  unfolding Oracles.delete_oracle
  node_delete-IsUnique id s u =
      deleted-IsUnique id s (Index.delete id s.oracles) (delete-IsUnique id s.oracles u)
