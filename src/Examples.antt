-- ===== src/Examples.antt =====
-- The theorems at concrete inputs, and runs of the model.
mod Setup
mod WireRuns
mod ReassemblyRuns
mod RegistryRuns
mod PolicyRuns
mod PreflightRuns
mod DriverRuns
mod SchedulerRuns
mod LedgerRuns
mod NodeRuns
mod RecordRuns
mod ServerRuns
mod SlicerRuns
mod HeaderRuns
mod FigureRuns
mod TrainingRuns
mod AssetRuns
mod HandoverRuns
