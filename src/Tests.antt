-- ===== src/Tests.antt =====
-- Runs of the models on small logs, and the theorems at some of them.
mod Consistency
mod Failures
mod Leaders
mod Terms
mod Views
mod Tasks
mod Zookeeper
mod Ycsb
mod Throughput
mod Windows
mod Echo
mod Local
mod Background
mod Summaries
