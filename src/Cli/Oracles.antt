-- ===== src/Cli/Oracles.antt =====
-- The callbacks of cmd/sumcli/handlers on oracles.
pub mod Naming
pub mod Unique
pub mod Commands
use sum.Prelude.{ℕ, String, Bool, not, ◌&&◌, Option, none, some, List, [], ◌∷◌, map}
use sum.Prelude.Tests.{Result, ok, err, nat_eq, ◌==◌, ◌◇◌, if◌then◌else◌}
use sum.Prelude.Text.{size}
use sum.Prelude.Decimal.{format_uint}
use sum.Proto.{Oracle, OracleResponse, Data, ListRequest}
use sum.Cli.Console.{
  Act, Panic, nil_pointer, panicked, Client, Tools, ◌>>=◌, ◌>>◌, pure, fail, print, arg, deref, try,
  call, check,
}
use sum.Cli.Text.{page_line}
use sum.Cli.Records.{parse_id}

unfoldable pub oracle_row : Oracle → List String
unfolding size
oracle_row o = format_uint o.id ∷ o.name ∷ format_uint (size o.code) ∷ []

module _ {W : Type 0} where
  unfoldable pub show_oracle : Oracle → Act W (Unit {0})
  unfolding ◌>>◌ print
  show_oracle o = do
    print ("id   : " ◇ format_uint o.id ◇ "\n")
    print ("name : " ◇ o.name ◇ "\n")
    print ("\n" ◇ o.code ◇ "\n")

  -- the refusal of a name that an oracle has
  unfoldable pub taken : String → ℕ → Act W (Unit {0})
  unfolding fail
  taken name id = fail ("name '" ◇ name ◇ "' already taken by oracle " ◇ format_uint id)

  -- `else if resp.Success == true` of OCREATE
  unfoldable pub check_free : String → OracleResponse → Act W (Unit {0})
  unfolding ◌>>=◌ deref pure taken
  check_free name resp =
      if resp.success then deref resp.oracle >>= (λ o. taken name o.id) else pure tt

  -- `else if resp.Success == true && resp.Oracle.Id != id` of OUPDATE
  unfoldable pub check_other : ℕ → String → OracleResponse → Act W (Unit {0})
  unfolding ◌>>=◌ deref pure taken
  check_other id name resp =
      if resp.success
      then deref resp.oracle >>= (λ o. if o.id == id then pure tt else taken name o.id)
      else pure tt

  -- the text of a payload. Where NewReader fails its reader is nil, which ReadAll and the deferred
  -- Close use.
  unfoldable pub payload_text : {B : Type 0} → Tools B → Data B → Act W String
  unfolding ◌>>=◌ pure try deref
  payload_text tools d =
      if d.compressed
      then (do
        reader ← deref (tools.new_reader d.payload)
        raw ← try (tools.read_all reader)
        pure (tools.text raw))
      else pure (tools.text d.payload)

module _ {W B : Type 0} (tools : Tools B) (client : Client W B) where
  unfoldable pub create_oracle : List String → Act W (Unit {0})
  unfolding ◌>>=◌ ◌>>◌ arg try call check check_free print
  create_oracle args = do
    name ← arg args 0
    path ← arg args 1
    code ← try (tools.read_file path)
    resp ← call (client.find_oracle name)
    check_free name resp
    resp' ← call (client.create_oracle (record { id = 0; name = name; code = code }))
    check resp'.success resp'.msg
    print ("oracle created with id " ◇ resp'.msg ◇ "\n")

  unfoldable pub read_oracle : List String → Act W (Unit {0})
  unfolding ◌>>=◌ ◌>>◌ arg parse_id call check deref show_oracle
  read_oracle args = do
    s ← arg args 0
    id ← parse_id tools s
    resp ← call (client.read_oracle id)
    check resp.success resp.msg
    o ← deref resp.oracle
    show_oracle o

  unfoldable pub update_oracle : List String → Act W (Unit {0})
  unfolding ◌>>=◌ ◌>>◌ arg parse_id try call check check_other print
  update_oracle args = do
    s ← arg args 0
    id ← parse_id tools s
    name ← arg args 1
    path ← arg args 2
    code ← try (tools.read_file path)
    resp ← call (client.read_oracle id)
    check resp.success resp.msg
    resp' ← call (client.find_oracle name)
    check_other id name resp'
    resp'' ← call (client.update_oracle (record { id = id; name = name; code = code }))
    check resp''.success resp''.msg
    print ("oracle " ◇ format_uint id ◇ " succesfully updated\n")

  unfoldable pub delete_oracle : List String → Act W (Unit {0})
  unfolding ◌>>=◌ ◌>>◌ arg parse_id call check print
  delete_oracle args = do
    s ← arg args 0
    id ← parse_id tools s
    resp ← call (client.delete_oracle id)
    check resp.success resp.msg
    print ("oracle " ◇ format_uint id ◇ " successfully deleted.\n")

  unfoldable pub find_oracle : List String → Act W (Unit {0})
  unfolding ◌>>=◌ ◌>>◌ arg call check deref show_oracle
  find_oracle args = do
    name ← arg args 0
    resp ← call (client.find_oracle name)
    check resp.success resp.msg
    o ← deref resp.oracle
    show_oracle o

  unfoldable pub list_oracles : List String → Act W (Unit {0})
  unfolding ◌>>=◌ ◌>>◌ arg parse_id call print oracle_row page_line
  list_oracles args = do
    s ← arg args 0
    page ← parse_id tools s
    t ← arg args 1
    per_page ← parse_id tools t
    resp ← call (client.list_oracles (record { page = page; per_page = per_page }))
    print (tools.table ("id" ∷ "name" ∷ "size" ∷ []) (map oracle_row resp.items))
    print (page_line page resp.pages resp.total "oracles")

  -- `name` is the first group of the expression, the command itself
  unfoldable pub call_oracle : String → List String → Act W (Unit {0})
  unfolding ◌>>=◌ ◌>>◌ arg call check deref payload_text print
  call_oracle name args = do
    resp ← call (client.find_oracle name)
    check resp.success resp.msg
    o ← deref resp.oracle
    s ← arg args 0
    cresp ← call (client.run (record { oracle_id = o.id; args = tools.comma s }))
    check cresp.success cresp.msg
    d ← deref cresp.body
    text ← payload_text tools d
    print (text ◇ "\n")
