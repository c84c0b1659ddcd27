-- ===== src/Routes.antt =====
-- crates/beacon-api/src/routes.rs and auth.rs: handlers of the HTTP interface.
pub mod Auth
pub mod Releases
pub mod Deputies
pub mod Duress
pub mod Vaults
pub mod Letters
pub mod Signals
pub mod Accounts
pub mod Ownership
pub mod Passkeys
pub mod Recovery
pub mod Private
pub mod Usage
pub mod Attachments
