-- ===== src/Tests.antt =====
-- Concrete runs: a number type for the risk model, and the theorems at concrete inputs.
mod Decimals
mod Data
mod LossRuns
mod PlacementRuns
mod RiskRuns
mod QueueRuns
mod DaemonRuns
mod GougingRuns
mod MemoryRuns
mod MigratorRuns
mod SlabRuns
mod AccountRuns
mod UploadRuns
mod SpendingRuns
mod DownloadRuns
