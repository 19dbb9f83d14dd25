-- ===== src/Tests.antt =====
-- An engine and libraries that run, and the theorems applied to them.
mod Disk
mod Libraries
mod Machine
mod ManagerRuns
mod ChainRuns
mod CryptoRuns
mod Wires
mod HandlerRuns
mod SystemRuns
mod NetworkRuns
mod ServiceRuns
mod CliRuns
