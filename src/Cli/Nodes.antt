-- ===== src/Cli/Nodes.antt =====
-- The callbacks of cmd/sumcli/handlers on the nodes of a master.
use sum.Prelude.{String, List, [], ◌∷◌}
use sum.Prelude.Tests.{◌◇◌}
use sum.Prelude.Decimal.{format_uint}
use sum.Proto.{NodeEntry}
use sum.Cli.Console.{Act, Client, Tools, ◌>>=◌, ◌>>◌, pure, print, arg, deref, call, check}
use sum.Cli.Records.{parse_id}

module _ {W B : Type 0} (tools : Tools B) where
  unfoldable pub node_row : NodeEntry → Act W (List String)
  unfolding ◌>>=◌ deref pure
  node_row n = do
    info ← deref n.info
    pure (
        format_uint n.id
        ∷ format_uint info.pid
        ∷ n.name
        ∷ (info.os ◇ "/" ◇ info.arch)
        ∷ info.version
        ∷ tools.duration info.uptime
        ∷ format_uint info.records
        ∷ (info.backend
            ◇ " ("
            ◇ tools.bytes info.backend_used
            ◇ " of "
            ◇ tools.bytes info.backend_space
            ◇ ")")
        ∷ [])

  unfoldable pub node_rows : List NodeEntry → Act W (List (List String))
  unfolding ◌>>=◌ node_row pure
  node_rows [] = pure []
  node_rows (n ∷ nodes) = do row ← node_row n; rows ← node_rows nodes; pure (row ∷ rows)

module _ {W B : Type 0} (tools : Tools B) (client : Client W B) where
  unfoldable pub create_node : List String → Act W (Unit {0})
  unfolding ◌>>=◌ ◌>>◌ arg call check print
  create_node args = do
    addr ← arg args 0
    path ← arg args 1
    resp ← call (client.add_node (addr, path))
    check resp.success ("cannot create node: " ◇ resp.msg)
    print ("node created with id " ◇ resp.msg ◇ "\n")

  unfoldable pub list_nodes : Act W (Unit {0})
  unfolding ◌>>=◌ ◌>>◌ call check print node_rows
  list_nodes = do
    resp ← call client.list_nodes
    check resp.success ("cannot create node: " ◇ resp.msg)
    rows ← node_rows tools resp.nodes
    print (
        tools.table
          ("id" ∷ "pid" ∷ "name" ∷ "os/arch" ∷ "ver" ∷ "uptime" ∷ "records" ∷ "backend" ∷ []) rows)

  unfoldable pub delete_node : List String → Act W (Unit {0})
  unfolding ◌>>=◌ ◌>>◌ arg parse_id call check print
  delete_node args = do
    s ← arg args 0
    id ← parse_id tools s
    resp ← call (client.delete_node id)
    check resp.success ("cannot create node: " ◇ resp.msg)
    print ("node " ◇ format_uint id ◇ " deleted\n")
