-- ===== src/Master/Configuration.antt =====
-- master/config.go, and NewService and NewServiceFromConfig of mux_service.go.
pub mod Stored
use sum.Prelude.{ℕ, suc, ◌+◌, String, Option, some, List, [], ◌∷◌}
use sum.Prelude.Tests.{Result, ok, err, ◌◇◌, ◌==◌, string_eq, if◌then◌else◌}
use sum.Prelude.Lists.{length}
use sum.Node.Interpreter.{Ending, returned, failed}
use sum.Master.Network.{Network, NodeConfig, Config}
use sum.Master.Raccoon.{Parser}
use sum.Master.State.{NodeInfo, Service, numbered, create_node}
use sum.Master.Balancer.{balance}
use sum.Master.Stealer.{steal_oracles}

-- the nodes of a configuration, and back
unfoldable pub configured : List NodeInfo → List NodeConfig
configured [] = []
configured (n ∷ nodes) = record { address = n.name; cert_file = n.cert_file } ∷ configured nodes

module _ {W B : Type 0} (net : Network W B) where
  unfoldable pub load_config : String → W → Result String Config
  load_config config_file w = elim (net.read_file config_file w) [
    | err e ↦ err e
    | ok text ↦ net.unmarshal_config text
  ]

  unfoldable pub store_config : Config → String → W → W × Option String
  store_config config file_path w = elim (net.marshal_config config) [
    | err e ↦ (w, some e)
    | ok text ↦ net.write_file file_path text w
  ]

  unfoldable pub update_config : {js : Parser} → Service js → W → W
  unfolding store_config configured
  update_config s w =
      if s.config_file == ""
      then w
      else (store_config (record { nodes = configured s.nodes }) s.config_file w).0

  unfoldable pub empty_service : {js : Parser} → List NodeInfo → Service js
  empty_service nodes = record {
    nodes = nodes;
    next_node_id = length nodes + 1;
    next_id = 1;
    raccoons = [];
    next_raccoon_id = 1;
    config_file = "";
  }

  unfoldable pub new_service : {js : Parser} → List NodeInfo → W → Ending (Service js × W)
  unfolding empty_service balance steal_oracles numbered
  new_service nodes w =
      let (s, w1) = balance net (empty_service nodes, w) in
      steal_oracles net (numbered 0 s.nodes) (s, w1)

  -- the loop over the configured nodes, from the place `i` on
  unfoldable pub create_nodes : ℕ → List NodeConfig → W → W × Result String (List NodeInfo)
  unfolding create_node
  create_nodes i [] w = (w, ok [])
  create_nodes i (nc ∷ configs) w =
      let (w1, made) = create_node net nc.address nc.cert_file w in
      elim made [
        | err e ↦ (w1, err e)
        | ok n ↦
            let (w2, more) = create_nodes (suc i) configs w1 in
            elim more [
              | err e ↦ (w2, err e)
              | ok nodes ↦ (w2, ok (record n { id = i + 1 } ∷ nodes))
            ]
      ]

  unfoldable pub with_config_file :
      {js : Parser} → String → Ending (Service js × W) → Ending (Service js × W)
  with_config_file config_path (returned (s, w)) =
      returned (record s { config_file = config_path }, w)
  with_config_file config_path ending = ending

  unfoldable pub new_service_from_config : {js : Parser} → String → W → Ending (Service js × W)
  unfolding load_config create_nodes new_service with_config_file
  new_service_from_config config_path w = elim (load_config config_path w) [
    | err e ↦ failed ("cannot load config from '" ◇ config_path ◇ "': " ◇ e)
    | ok cfg ↦
        let (w1, made) = create_nodes 0 cfg.nodes w in
        elim made [
          | err e ↦ failed e
          | ok nodes ↦ with_config_file config_path (new_service nodes w1)
        ]
  ]
