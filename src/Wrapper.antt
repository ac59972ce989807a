-- ===== src/Wrapper.antt =====
-- node/wrapper: what an oracle can reach while it runs.
pub mod Context
pub mod Records
pub mod Distances
