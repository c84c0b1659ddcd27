-- ===== src/Db.antt =====
-- crates/beacon-db/src/lib.rs: the tables and the queries.
pub mod Sql
pub mod Tables
pub mod Race
pub mod Vaults
pub mod Letters
pub mod Changes
pub mod Releases
pub mod Accounts
pub mod Subscriptions
pub mod Deputies
pub mod Presence
pub mod Contacts
pub mod Passkeys
pub mod Envelopes
