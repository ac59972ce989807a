-- ===== src/Tests/Index.antt =====
-- The theorems about the index at concrete inputs.
use sum.Prelude.{ℕ, String, ◌≡◌, refl, none, some, [], ◌∷◌, arith}
use sum.Prelude.Tests.{◌==◌, nat_eq, string_eq, if◌then◌else◌}
use sum.Prelude.Lists.{contains}
use sum.Prelude.Map.{get, put, del}
use sum.Prelude.Decimal.{format_uint}
use sum.Proto.{Oracle}
use sum.Storage.Env.{Env}
use sum.Storage.Driver.{oracle_driver, oracle_driver-DriverLaws, copy_oracle}
use sum.Storage.Files.{invalid_id, flush, load_file, list_path}
use sum.Storage.Index.{
  Index, next, path_for_id, find, delete_many, created, create, create_with_id, store_each,
  create_many_with_id, update, load,
}
use sum.Storage.Index.Validity.{IsValid, create_one, create_given, serve, perform, serve-IsValid}
use sum.Storage.Index.Effects.{
  create_fresh, create_collides, create_many_rolled_back, update_stored, latest, ids_of, collect,
}
use sum.Storage.Index.Numbering.{IsAhead, load-IsAhead, create_error}
use sum.Storage.Index.Persistence.{IsSynced}
use sum.Storage.Index.Persistence.Batch.{perform-IsSynced}
use sum.Tests.Memory.{memory, memory-EnvLaws}

program : Unit {0}
unfolding get put del format_uint flush load_file list_path next path_for_id find delete_many
    created create create_with_id store_each create_many_with_id update load contains latest ids_of
    collect
program = tt

abbrev env : Env Oracle
env = memory Oracle

abbrev oracle : ℕ → String → Oracle
oracle id name = record { id = id; name = name; code = "function f(){}" }

abbrev empty : Index env
empty = record { data_path = "data/"; index = []; next_id = 1; disk = [] }

create_one_run : (create oracle_driver (oracle 0 "a") empty).0.next_id ≡ 2
unfolding program
create_one_run = refl

empty-IsValid : IsValid oracle_driver empty
unfolding get
empty-IsValid = record { map = tt; ids = λ id m p. absurd (ground arith) }

-- one stored oracle, under the identifier 1
abbrev one : Index env
one = record {
  data_path = "data/";
  index = (1, oracle 1 "a") ∷ [];
  next_id = 2;
  disk = ("data/1.dat", oracle 1 "a") ∷ [];
}

requests_example :
    IsValid oracle_driver
      (serve oracle_driver (create_one (oracle 0 "a") ∷ create_given (oracle 7 "b") ∷ []) empty)
requests_example =
    serve-IsValid oracle_driver oracle_driver-DriverLaws
      (create_one (oracle 0 "a") ∷ create_given (oracle 7 "b") ∷ []) empty empty-IsValid

empty-IsSynced : IsSynced empty
unfolding find get
empty-IsSynced j hj m p = absurd (ground arith)

perform-IsSynced_example : IsSynced (perform oracle_driver (create_given (oracle 7 "b")) empty)
perform-IsSynced_example =
    perform-IsSynced oracle_driver (memory-EnvLaws Oracle) (create_given (oracle 7 "b")) empty
      (omega arith) (omega arith) (λ m e. absurd (ground arith)) empty-IsSynced

create_fresh_example :
    (find 1 empty ≡ none)
    × ((create oracle_driver (oracle 0 "a") empty).0.next_id ≡ next 1)
    × ((j : ℕ)
        → find j (create oracle_driver (oracle 0 "a") empty).0
          ≡ (if 1 == j then some (created oracle_driver (oracle 0 "a") empty) else find j empty))
unfolding program
create_fresh_example = create_fresh oracle_driver (oracle 0 "a") empty refl

-- the next identifier is taken
abbrev stuck : Index env
stuck = record one { next_id = 1 }

create_collides_example :
    create oracle_driver (oracle 0 "b") (create_with_id oracle_driver (oracle 1 "a") empty).0
    ≡ ((create_with_id oracle_driver (oracle 1 "a") empty).0, some invalid_id)
unfolding program
create_collides_example =
    create_collides oracle_driver (oracle 1 "a") (oracle 0 "b") empty refl refl

update_stored_example :
    ((update oracle_driver (oracle 1 "z") one).1
      ≡ (flush env (copy_oracle (oracle 1 "a") (oracle 1 "z")) (path_for_id "data/" 1) one.disk).1)
    × ((j : ℕ)
        → find j (update oracle_driver (oracle 1 "z") one).0
          ≡ (if 1 == j then some (copy_oracle (oracle 1 "a") (oracle 1 "z")) else find j one))
unfolding program
update_stored_example =
    update_stored oracle_driver (oracle 1 "z") (oracle 1 "a")
      (copy_oracle (oracle 1 "a") (oracle 1 "z")) one refl refl

-- a disk that refuses every write
abbrev full_env : Env Oracle
full_env = record env { write_file = λ disk p m. (disk, some "no space left") }

abbrev full : Index full_env
full = record {
  data_path = "data/";
  index = (1, oracle 1 "a") ∷ [];
  next_id = 2;
  disk = ("data/1.dat", oracle 1 "a") ∷ [];
}

create_many_rolled_back_example :
    find 1 (create_many_with_id oracle_driver (oracle 1 "x" ∷ []) full).0 ≡ none
unfolding program
create_many_rolled_back_example =
    create_many_rolled_back oracle_driver (oracle 1 "x" ∷ []) full _ refl 1

create_error_example :
    (create oracle_driver (oracle 0 "a") empty).1
    ≡ (flush env (created oracle_driver (oracle 0 "a") empty) (path_for_id "data/" 1) []).1
unfolding get
create_error_example =
    create_error oracle_driver (oracle 0 "a") empty (λ id m p. absurd (ground arith))

-- a folder with one file
abbrev folder : Index env
folder = record empty { disk = ("7.dat", oracle 7 "a") ∷ [] }

load-IsAhead_example : IsAhead (load oracle_driver folder).0
unfolding load_file get
load-IsAhead_example = load-IsAhead oracle_driver folder refl (λ p m e. ground arith)
