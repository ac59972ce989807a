-- ===== src/Node/Oracles/Cached/Changes.antt =====
-- CreateOracle, UpdateOracle and DeleteOracle with the cache (node/service/oracles.go).
use sum.Prelude.{ℕ, ◌≡◌, subst, sym, inl, inr, refl, Option, none, some, arith}
use sum.Prelude.Tests.{ok, nat_eq, nat_beq_iff, ◌==◌, if◌then◌else◌, Bool-cases, Result-elim}
use sum.Prelude.Map.{put, get-put, get-del}
use sum.Proto.{Record, Oracle, OracleResponse}
use sum.Storage.Env.{Env}
use sum.Storage.Driver.{oracle_driver, oracle_driver-DriverLaws, copy_oracle}
use sum.Storage.Files.{Error}
use sum.Storage.Index
use sum.Storage.Index.{Index, Outcome}
use sum.Storage.Index.Validity.{IsValid, create-IsValid, update-IsValid, delete-IsValid}
use sum.Storage.Index.Effects.{
  create_fresh, create_failed, update_stored, update_missing, delete_lem,
}
use sum.Storage.Records.{Records}
use sum.Node.Interpreter.{Interpreter}
use sum.Node.Compiler.{Compiled, compile}
use sum.Node.Service.{Service}
use sum.Node.Oracles.{
  oracle_created, create_oracle, oracle_updated, update_oracle, oracle_deleted, delete_oracle,
}
use sum.Node.Oracles.Cached.{IsCached, compile_same_code, Serves-fresh}

module _ {env : Env Record} {oenv : Env Oracle} {js : Interpreter (Records env)} where
  -- one more entry, in the index and in the cache
  put-IsCached :
      (s : Service oenv js) (i : Index oenv) (id : ℕ) (o : Oracle) (c : Compiled js)
      → IsValid oracle_driver i
      → ((j : ℕ) → Index.find j i ≡ (if id == j then some o else Index.find j s.oracles))
      → compile js o ≡ ok c
      → IsCached s
      → IsCached (record s { oracles = i; cache = put id c s.cache })
  put-IsCached s i id o c v at h k = record {
    valid = v;
    hit = λ j m p. elim (Bool-cases (id == j)) [
      | inl e ↦
          Serves-fresh js m c _ (ground (arith, at j)) (ground (arith, get-put j id c s.cache))
      | inr e ↦ ground (arith, at j, get-put j id c s.cache, k.hit j m)
    ];
    miss = λ j p. ground (arith, at j, get-put j id c s.cache, k.miss j);
  }

  same-IsCached :
      (s : Service oenv js) (i : Index oenv)
      → i.index ≡ s.oracles.index
      → IsCached s
      → IsCached (record s { oracles = i })
  unfolding Index.find
  same-IsCached s i e k = record { valid = rw e k.valid; hit = rw e k.hit; miss = rw e k.miss }

  created-IsCached :
      (o : Oracle) (c : Compiled js) (s : Service oenv js) (out : Outcome oenv)
      → IsValid oracle_driver out.0
      → (out.1 ≡ none
          → (j : ℕ) → Index.find j out.0 ≡ (if o.id == j then some o else Index.find j s.oracles))
      → ((e : Error) → out.1 ≡ some e → out.0.index ≡ s.oracles.index)
      → compile js o ≡ ok (record c { oracle = o })
      → IsCached s
      → IsCached (oracle_created o c s out).0
  unfolding oracle_created
  created-IsCached o c s (i, none) v done failed h k =
      put-IsCached s i o.id o (record c { oracle = o }) v (done refl) h k
  created-IsCached o c s (i, some e) v done failed h k = same-IsCached s i (failed e refl) k

  -- CreateOracle keeps the cache in step with the stored oracles, whatever fails.
  pub create_oracle-IsCached :
      (o : Oracle) (s : Service oenv js) → IsCached s → IsCached (create_oracle o s).0
  unfolding create_oracle Index.created
  create_oracle-IsCached o s k =
      Result-elim (λ (a : Service oenv js × OracleResponse). IsCached a.0) (compile js o) (λ _ _. k)
        (λ c h.
          created-IsCached (Index.created oracle_driver o s.oracles) c s
            (Index.create oracle_driver o s.oracles)
            (create-IsValid oracle_driver oracle_driver-DriverLaws o s.oracles k.valid)
            (λ e. (create_fresh oracle_driver o s.oracles e).2)
            (λ x e. (create_failed oracle_driver o s.oracles x e).0)
            (compile_same_code js o _ c refl h) k)

  deleted-IsCached :
      (id : ℕ) (s : Service oenv js) (out : Index oenv × Option Oracle)
      → IsValid oracle_driver out.0
      → out.1 ≡ Index.find id s.oracles
      → ((j : ℕ) → Index.find j out.0 ≡ (if id == j then none else Index.find j s.oracles))
      → IsCached s
      → IsCached (oracle_deleted id s out).0
  unfolding oracle_deleted
  deleted-IsCached id s (i, none) v e at k = record {
    valid = v;
    hit = λ j o p. k.hit j o (ground (arith, at j));
    miss = λ j p. k.miss j (ground (arith, at j, nat_beq_iff id j));
  }
  deleted-IsCached id s (i, some m) v e at k = record {
    valid = v;
    hit = λ j o p. ground (arith, at j, get-del j id s.cache, k.hit j o);
    miss = λ j p. ground (arith, at j, get-del j id s.cache, k.miss j);
  }

  -- DeleteOracle keeps the cache in step with the stored oracles.
  pub delete_oracle-IsCached :
      (id : ℕ) (s : Service oenv js) → IsCached s → IsCached (delete_oracle id s).0
  unfolding delete_oracle
  delete_oracle-IsCached id s k =
      deleted-IsCached id s (Index.delete id s.oracles)
        (delete-IsValid oracle_driver id s.oracles k.valid) (delete_lem id s.oracles).0
        (delete_lem id s.oracles).1 k

  updated_lem :
      (o : Oracle) (c : Compiled js) (s : Service oenv js) (out : Outcome oenv)
      → out.1 ≡ none
      → (oracle_updated o c s out).0 ≡ record s { oracles = out.0; cache = put o.id c s.cache }
  unfolding oracle_updated
  updated_lem o c s (i, none) e = refl
  updated_lem o c s (i, some x) e = absurd (ground arith)

  missing_lem :
      (o : Oracle) (c : Compiled js) (s : Service oenv js)
      → Index.find o.id s.oracles ≡ none
      → (oracle_updated o c s (Index.update oracle_driver o s.oracles)).0 ≡ s
  unfolding oracle_updated
  missing_lem o c s e = rw (update_missing oracle_driver o s.oracles e) refl

  -- UpdateOracle, unless the storage refuses the update of a stored oracle, keeps the cache in
  -- step with the stored oracles.
  pub update_oracle-IsCached :
      (o : Oracle) (s : Service oenv js)
      → ((old : Oracle)
          → Index.find o.id s.oracles ≡ some old
          → (Index.update oracle_driver o s.oracles).1 ≡ none)
      → IsCached s
      → IsCached (update_oracle o s).0
  unfolding update_oracle copy_oracle Index.find
  update_oracle-IsCached o s accepted k =
      Result-elim (λ (a : Service oenv js × OracleResponse). IsCached a.0) (compile js o) (λ _ _. k)
        (λ c h. updated c h (Index.find o.id s.oracles) refl)
    where
      updated :
          (c : Compiled js)
          → compile js o ≡ ok c
          → (found : Option Oracle) → Index.find o.id s.oracles ≡ found
          → IsCached (oracle_updated o c s (Index.update oracle_driver o s.oracles)).0
      updated c h none e = subst IsCached (sym (missing_lem o c s e)) k
      updated c h (some old) e =
          let same : old.id ≡ o.id = k.valid.ids o.id old e in
          subst IsCached (sym (updated_lem o c s _ (accepted old e))) (
            put-IsCached s _ o.id o c
              (update-IsValid oracle_driver oracle_driver-DriverLaws o s.oracles k.valid)
              (λ j. ground (
                arith,
                same,
                (update_stored oracle_driver o old (copy_oracle old o) s.oracles e refl).1 j,
              ))
              h k)
