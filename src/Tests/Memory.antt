-- ===== src/Tests/Memory.antt =====
-- A file system that holds the messages themselves, by path.
use sum.Prelude.{String, ◌≡◌, ◌≢◌, Option, none, some, List, [], ◌∷◌, arith, true}
use sum.Prelude.Tests.{Result, ok, err, string_eq, beq_self}
use text.Mathlib.TextEquality.{eq_iff}
use sum.Prelude.Map.{get, put, del, get-put, get-del}
use sum.Storage.Env.{Env, EnvLaws}

abbrev file_names : {M : Type 0} → List (String × M) → List String
file_names [] = []
file_names ((p, m) ∷ disk) = p ∷ file_names disk

abbrev pub found : {M : Type 0} → Option M → Result String M
found none = err "no such file"
found (some m) = ok m

abbrev pub memory : (M : Type 0) → Env M
memory M = record {
  Disk = List (String × M);
  Bytes = M;
  marshal = λ m. ok m;
  unmarshal = λ m. ok m;
  write_file = λ disk p m. (put p m disk, none);
  read_file = λ disk p. found (get p disk);
  remove = λ disk p. del p disk;
  abs = λ p. p;
  is_dir = λ disk p. ok true;
  read_dir = λ disk p. ok (file_names disk);
  ext = λ p. ".dat";
  join = λ p name. name;
  strip_ext = λ name. name;
  range = λ files. files;
}

read-write_memory :
    {M : Type 0} (disk : List (String × M)) (p : String) (b : M)
    → found (get p (put p b disk)) ≡ ok b
read-write_memory disk p b = ground (arith, get-put p p b disk, beq_self p)

read-write_ne_memory :
    {M : Type 0} (disk : List (String × M)) (p q : String) (b : M)
    → p ≢ q
    → found (get q (put p b disk)) ≡ found (get q disk)
read-write_ne_memory disk p q b h = ground (arith, get-put q p b disk, eq_iff p q)

read-remove_ne_memory :
    {M : Type 0} (disk : List (String × M)) (p q : String)
    → p ≢ q
    → found (get q (del p disk)) ≡ found (get q disk)
read-remove_ne_memory disk p q h = ground (arith, get-del q p disk, eq_iff p q)

pub memory-EnvLaws : (M : Type 0) → EnvLaws (memory M)
memory-EnvLaws M = record {
  read-write = λ disk p b h. read-write_memory disk p b;
  read-write_ne = λ disk p q b h. read-write_ne_memory disk p q b h;
  read-remove_ne = λ disk p q h. read-remove_ne_memory disk p q h;
}
