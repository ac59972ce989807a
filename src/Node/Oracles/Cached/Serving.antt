-- ===== src/Node/Oracles/Cached/Serving.antt =====
-- The requests that change the oracles of a node, over the cache (node/service/oracles.go).
use sum.Prelude.{ℕ, ◌≡◌, none, some}
use sum.Proto.{Record, Oracle, OracleResponse}
use sum.Storage.Env.{Env}
use sum.Storage.Driver.{oracle_driver}
use sum.Storage.Index
use sum.Storage.Records.{Records}
use sum.Node.Interpreter.{Interpreter}
use sum.Node.Service.{Service}
use sum.Node.Oracles
use sum.Node.Oracles.Cached.{IsCached}
use sum.Node.Oracles.Cached.Changes.{
  create_oracle-IsCached, update_oracle-IsCached, delete_oracle-IsCached,
}

pub data Request : Type 0 where
  create : Oracle → Request
  update : Oracle → Request
  delete : ℕ → Request

module _ {env : Env Record} {oenv : Env Oracle} {js : Interpreter (Records env)} where
  unfoldable pub serve : Request → Service oenv js → Service oenv js × OracleResponse
  serve (create o) s = Oracles.create_oracle o s
  serve (update o) s = Oracles.update_oracle o s
  serve (delete id) s = Oracles.delete_oracle id s

  -- the storage does not refuse the update of a stored oracle
  abbrev pub IsAccepted : Request → Service oenv js → Type 0
  IsAccepted (update o) s =
      (old : Oracle)
      → Index.find o.id s.oracles ≡ some old
      → (Index.update oracle_driver o s.oracles).1 ≡ none
  IsAccepted _ s = Unit {0}

  -- CreateOracle, DeleteOracle, and UpdateOracle unless the storage refuses the update of a stored
  -- oracle, keep the cache in step with the stored oracles.
  pub serve-IsCached :
      (q : Request) (s : Service oenv js) → IsAccepted q s → IsCached s → IsCached (serve q s).0
  unfolding serve
  serve-IsCached (create o) s a k = create_oracle-IsCached o s k
  serve-IsCached (update o) s a k = update_oracle-IsCached o s a k
  serve-IsCached (delete id) s a k = delete_oracle-IsCached id s k
