-- ===== src/Tests.antt =====
-- Runs of the models at concrete inputs, and the theorems at them.
mod Grid
mod AoiRuns
mod AoiLaws
mod WorldRuns
mod CollectibleRuns
mod RealtimeRuns
mod HubRuns
mod SyntheticRuns
mod AccountRuns
mod StorageRuns
