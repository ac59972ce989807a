-- ===== src/Cli.antt =====
-- cmd/sumcli: the command line client.
pub mod Console
pub mod Commands
pub mod Text
pub mod Records
pub mod Oracles
pub mod Nodes
pub mod Info
pub mod Dispatch
pub mod Session
