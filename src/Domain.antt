-- ===== src/Domain.antt =====
-- crates/beacon-core/src/lib.rs: the vocabulary shared by the API and the database layer.
pub mod Errors
pub mod Tier
pub mod VaultState
pub mod SubscriptionState
pub mod ReleaseMode
pub mod SignalSource
pub mod BuddyResponse
pub mod StorageRegion
pub mod Score
pub mod Plans
