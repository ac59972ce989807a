-- ===== src/Node/Service.antt =====
-- The state of one node: Service of node/service/service.go and the cache of cache.go.
pub mod Precompiled
use sum.Prelude.{ℕ, String, Option, none, some, List, [], ◌∷◌, Bool}
use sum.Prelude.Tests.{Result, ok, err, nat_eq, ◌◇◌}
use sum.Prelude.Map.{get, put, del}
use sum.Prelude.Decimal.{format_uint}
use sum.Proto.{Record, Oracle}
use sum.Storage.Env.{Env}
use sum.Storage.Files.{Error, error_text}
use sum.Storage.Index.{Index, for_each}
use sum.Storage.Records.{Records, load_records, load_oracles}
use sum.Node.Interpreter.{Interpreter}
use sum.Node.Compiler.{Compiled, compile}

module _ {R : Type 0} (js : Interpreter R) where
  -- compiledCache: Get, Add and Del are those of its map
  abbrev pub CompiledCache : Type 0
  CompiledCache = List (ℕ × Compiled js)

  -- the callback of New over the stored oracles
  unfoldable pub precompile : CompiledCache → Oracle → CompiledCache × Option String
  precompile cache oracle = elim (compile js oracle) [
    | err e ↦ (cache, some ("error while compiling oracle " ◇ format_uint oracle.id ◇ ": " ◇ e))
    | ok c ↦ (put oracle.id c cache, none)
  ]

pub record Service {env : Env Record} (oenv : Env Oracle) (js : Interpreter (Records env))
    : Type 0 where
  pub records : Records env
  pub oracles : Index oenv
  pub cache : CompiledCache js

module _ {env : Env Record} {oenv : Env Oracle} (js : Interpreter (Records env)) where
  -- the end of New
  unfoldable pub serving :
      Records env → Index oenv → CompiledCache js × Option String → Result String (Service oenv js)
  serving records oracles (cache, some e) = err e
  serving records oracles (cache, none) =
      ok (record { records = records; oracles = oracles; cache = cache })

  -- New after the loading; `range` is the order of the iteration over the oracles
  unfoldable pub precompiled :
      (List (ℕ × Oracle) → List (ℕ × Oracle))
      → Records env
      → Index oenv
      → Result String (Service oenv js)
  unfolding serving precompile
  precompiled range records oracles =
      serving records oracles (for_each (precompile js) [] (range oracles.index))

-- New, given the paths of the two folders and what the disk of each holds
unfoldable pub new_service :
    (env : Env Record) (oenv : Env Oracle) (js : Interpreter (Records env))
    → (String → Bool)
    → (List (ℕ × Record) → List (ℕ × Record))
    → (List (ℕ × Oracle) → List (ℕ × Oracle))
    → String × env.Disk
    → String × oenv.Disk
    → Result String (Service oenv js)
unfolding precompiled
new_service env oenv js has_suffix range orange (data_path, disk) (oracles_path, odisk) =
    elim (load_records env has_suffix range data_path disk) [
      | err e ↦ err (error_text e)
      | ok records ↦ elim (load_oracles oenv has_suffix oracles_path odisk) [
        | err e ↦ err (error_text e)
        | ok oracles ↦ precompiled js orange records oracles
      ]
    ]
