-- ===== src/Cli/Info.antt =====
-- The callbacks INFO and HELP of cmd/sumcli/handlers.
use sum.Prelude.{ℕ, suc, String, ◌||◌, List, [], ◌∷◌, map}
use sum.Prelude.Tests.{string_eq, ◌==◌, ◌◇◌, if◌then◌else◌}
use sum.Prelude.Decimal.{format_uint}
use sum.Prelude.Int.{ℤ, pos, negsuc}
use sum.Proto.{ServerInfo}
use sum.Cli.Console.{Act, Client, Tools, ◌>>=◌, pure, print, arg, call}
use sum.Cli.Commands.{Command, commands}
use sum.Cli.Text.{join}

-- A value of the package reflect, for the kinds that `tos` names; `other` is what String gives for
-- any other kind.
mutual
  pub data Value : Type 0 where
    string_value : String → Value
    int64_value : ℤ → Value
    uint64_value : ℕ → Value
    narrow_value : Value
    slice_value : Values → Value
    other_value : String → Value

  pub data Values : Type 0 where
    nil : Values
    cons : Value → Values → Values

-- `%d`
unfoldable pub format_int : ℤ → String
format_int (pos n) = format_uint n
format_int (negsuc n) = "-" ◇ format_uint (suc n)

-- tos. A `case` of Go does not fall through: of the integers, only those of 64 bits are printed.
unfoldable mutual
  unfolding format_int join

  pub tos : Value → String
  tos (string_value s) = s
  tos (int64_value z) = format_int z
  tos (uint64_value n) = format_uint n
  tos narrow_value = ""
  tos (slice_value items) = join " " (tos_each items)
  tos (other_value s) = s

  pub tos_each : Values → List String
  tos_each nil = []
  tos_each (cons item rest) = tos item ∷ tos_each rest

unfoldable pub string_values : List String → Values
string_values [] = nil
string_values (s ∷ rest) = cons (string_value s) (string_values rest)

-- the fields of the structure ServerInfo with their JSON tags, in its order
unfoldable pub info_fields : ServerInfo → List (String × Value)
unfolding string_values
info_fields info =
    ("version,omitempty", string_value info.version)
    ∷ ("os,omitempty", string_value info.os)
    ∷ ("arch,omitempty", string_value info.arch)
    ∷ ("go_version,omitempty", string_value info.go_version)
    ∷ ("cpus,omitempty", uint64_value info.cpus)
    ∷ ("max_cpus,omitempty", uint64_value info.max_cpus)
    ∷ ("goroutines,omitempty", uint64_value info.goroutines)
    ∷ ("alloc,omitempty", uint64_value info.alloc)
    ∷ ("sys,omitempty", uint64_value info.sys)
    ∷ ("num_gc,omitempty", uint64_value info.num_gc)
    ∷ ("datapath,omitempty", string_value info.datapath)
    ∷ ("credspath,omitempty", string_value info.credspath)
    ∷ ("address,omitempty", string_value info.address)
    ∷ ("uptime,omitempty", uint64_value info.uptime)
    ∷ ("pid,omitempty", uint64_value info.pid)
    ∷ ("uid,omitempty", uint64_value info.uid)
    ∷ ("argv,omitempty", slice_value (string_values info.argv))
    ∷ ("records,omitempty", uint64_value info.records)
    ∷ ("oracles,omitempty", uint64_value info.oracles)
    ∷ ("backend,omitempty", string_value info.backend)
    ∷ ("backend_space,omitempty", uint64_value info.backend_space)
    ∷ ("backend_used,omitempty", uint64_value info.backend_used)
    ∷ ("next_record_id,omitempty", uint64_value info.next_record_id)
    ∷ ("-", other_value "<struct {} Value>")
    ∷ ("-", slice_value nil)
    ∷ ("-", narrow_value)
    ∷ []

module _ {W B : Type 0} (tools : Tools B) where
  -- the loop of INFO
  unfoldable pub info_rows : List (String × Value) → Act W (List (List String))
  unfolding ◌>>=◌ pure arg tos
  info_rows [] = pure []
  info_rows ((tag, v) ∷ rest) = do
    name ← arg (tools.comma tag) 0
    rows ← info_rows rest
    pure (if name == "" || name == "-" then rows else (name ∷ tos v ∷ []) ∷ rows)

  unfoldable pub info : Client W B → Act W (Unit {0})
  unfolding ◌>>=◌ call info_rows info_fields print
  info client = do
    i ← call client.info
    rows ← info_rows (info_fields i)
    print (tools.table ("name" ∷ "value" ∷ []) rows)

  unfoldable pub help : Act W (Unit {0})
  unfolding print
  help = print (
      tools.table ("command" ∷ "description" ∷ [])
        (map (λ (h : Command). h.mnemonic ∷ h.description ∷ []) commands))
