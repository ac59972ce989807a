-- ===== src/Tests.antt =====
-- Each theorem at a concrete input, over a file system in memory.
mod Memory
mod Index
mod Records
mod Paging
mod Node
mod Master
mod Distances
mod Cli
mod Cluster
mod Daemon
