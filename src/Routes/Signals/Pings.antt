-- ===== src/Routes/Signals/Pings.antt =====
-- crates/beacon-api/src/routes.rs: which pings of an Apple shortcut count.
use paschal.Base.Bytes.{Bytes}
use paschal.App.World.{World}
