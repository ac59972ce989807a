-- ===== src/Node.antt =====
-- node/service: the service of one node.
pub mod Paging
pub mod Pool
pub mod Interpreter
pub mod Compiler
pub mod Run
pub mod Payload
pub mod Service
pub mod Info
pub mod Oracles
pub mod Records
