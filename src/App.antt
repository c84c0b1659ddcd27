-- ===== src/App.antt =====
-- crates/beacon-api: the state that handlers and workers share (`AppState`) and how they run.
pub mod World
pub mod Monad
