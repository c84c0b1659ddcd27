-- ===== src/Domain/Errors.antt =====
-- crates/beacon-core/src/lib.rs: `DomainError`. A state in an error is kept by its text in the
-- database; the case `SubscriptionForbids` is never built by the program.
use paschal.Base.{String}

pub data DomainError : Type 0 where
  invalid_transition : String → String → DomainError
  unknown_enum_value : String → String → DomainError
