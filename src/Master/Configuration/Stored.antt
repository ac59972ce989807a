-- ===== src/Master/Configuration/Stored.antt =====
-- The configuration file beside the nodes of the master (master/config.go).
use sum.Prelude.{◌≡◌, ◌≢◌, String, none, inl, inr}
use sum.Prelude.Tests.{ok, ◌==◌, string_eq, Bool-cases}
use sum.Master.Network.{Network, Config}
use sum.Master.Raccoon.{Parser}
use sum.Master.State.{Service}
use sum.Master.Configuration.{configured, load_config, store_config, update_config}

-- A file that was written is read as it was written, and json reads what json has written.
pub record FileLaws {W B : Type 0} (net : Network W B) : Type 0 where
  pub read-write :
      (path text : String) (w : W)
      → (net.write_file path text w).1 ≡ none
      → net.read_file path (net.write_file path text w).0 ≡ ok text
  pub unmarshal-marshal :
      (c : Config) (text : String)
      → net.marshal_config c ≡ ok text
      → net.unmarshal_config text ≡ ok c

module _ {W B : Type 0} (net : Network W B) {js : Parser} where
  -- Over a file system and json that give back what was written, LoadConfig reads the addresses
  -- and certificates of the nodes from the file that updateConfig has written without an error.
  pub load-update_config :
      (laws : FileLaws net) (s : Service js) (w : W) (text : String)
      → s.config_file ≢ ""
      → net.marshal_config (record { nodes = configured s.nodes }) ≡ ok text
      → (net.write_file s.config_file text w).1 ≡ none
      → load_config net s.config_file (update_config net s w)
        ≡ ok (record { nodes = configured s.nodes })
  unfolding load_config update_config store_config
  load-update_config laws s w text named h k = elim (Bool-cases (s.config_file == "")) [
    | inl e ↦ absurd (named ((string_eq.means_eq s.config_file "").0 e))
    | inr e ↦
        rw (e, h, store_config, laws.read-write s.config_file text w k, load_config)
          (laws.unmarshal-marshal (record { nodes = configured s.nodes }) text h)
  ]
