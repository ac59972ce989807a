-- ===== src/Storage.antt =====
-- node/storage: the generic index of messages, and its two instances.
pub mod Env
pub mod Driver
pub mod Files
pub mod Index
pub mod Meta
pub mod Records
