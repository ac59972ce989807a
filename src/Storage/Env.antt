-- ===== src/Storage/Env.antt =====
-- What node/storage takes from outside the repository: the file system (os, io/ioutil,
-- path/filepath) and the protobuf encoding of one message type.
use sum.Prelude.{String, ◌≡◌, ◌≢◌, Option, none, Bool, List}
use sum.Prelude.Tests.{Result, ok}

pub record Env (M : Type 0) : Type 1 where
  pub Disk : Type 0
  pub Bytes : Type 0
  -- proto.Marshal and proto.Unmarshal
  pub marshal : M → Result String Bytes
  pub unmarshal : Bytes → Result String M
  -- ioutil.WriteFile, ioutil.ReadFile and os.Remove; a failed write may leave anything at its path
  pub write_file : Disk → String → Bytes → Disk × Option String
  pub read_file : Disk → String → Result String Bytes
  pub remove : Disk → String → Disk
  -- filepath.Abs without its error, os.Stat(p).IsDir(), and the names of ioutil.ReadDir
  pub abs : String → String
  pub is_dir : Disk → String → Result String Bool
  pub read_dir : Disk → String → Result String (List String)
  -- filepath.Ext, filepath.Join, and strings.Replace(name, ".dat", "", -1)
  pub ext : String → String
  pub join : String → String → String
  pub strip_ext : String → String
  -- the order in which the runtime iterates over the map of the files this time
  pub range : List (String × String) → List (String × String)

-- The documented behaviour of the file system that the storage relies on.
pub record EnvLaws {M : Type 0} (env : Env M) : Type 0 where
  pub read-write :
      (disk : env.Disk) (p : String) (b : env.Bytes)
      → (env.write_file disk p b).1 ≡ none
      → env.read_file (env.write_file disk p b).0 p ≡ ok b
  pub read-write_ne :
      (disk : env.Disk) (p q : String) (b : env.Bytes)
      → p ≢ q
      → env.read_file (env.write_file disk p b).0 q ≡ env.read_file disk q
  pub read-remove_ne :
      (disk : env.Disk) (p q : String)
      → p ≢ q
      → env.read_file (env.remove disk p) q ≡ env.read_file disk q
