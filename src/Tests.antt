-- ===== src/Tests.antt =====
-- Runs of the model on concrete data.
pub mod Fixtures
mod DomainRuns
mod DbRuns
mod AccountRuns
mod ReleaseRuns
mod WorkerRuns
mod RouteRuns
mod ContentRuns
mod HandlerRuns
mod AccessRuns
mod UploadRuns
