-- ===== src/Tests.antt =====
-- Concrete runs of the modelled code, and the main theorems at concrete inputs.
mod Codec
mod WalRuns
mod Store
mod Scans
mod Tables
mod Txns
mod Upkeep
mod Structure
mod Writes
mod Streams
mod Commits
mod Recoveries
