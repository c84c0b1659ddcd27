-- ===== src/Lib.antt =====
-- Paschal keeps letters in vaults and delivers them after their owner's death. The owner (the
-- principal) writes letters; a server watches for signs of life, and when these stay away it
-- takes the vault through ACTIVE, SUSPICIOUS, ALERT and COOLING_OFF to a release, in which each
-- recipient gets a claim token. This library models the core of the server in Rust,
-- crates/beacon-core, crates/beacon-db and crates/beacon-api, with the crates for uploads
-- (crates/paschal-transform), blobs (crates/blob-store) and sealing (crates/crypto-stub).
--
-- How the parts interact: handlers (crates/beacon-api/src/routes.rs) and background workers
-- (crates/beacon-api/src/scheduler.rs) call queries (crates/beacon-db/src/lib.rs), which use the
-- entities and the rules of the domain (crates/beacon-core/src/lib.rs). All state that lasts is
-- in the database. Workers of several replicas may race, and the conditional updates on
-- vault.state decide who wins.
--
-- Base: numbers, tests, results, lists, and Float32, Rust's f32 as a record of operations that
-- stays abstract.
--
-- Domain: the enums with `as_db_str` and `from_db_str`, `can_transition` and `transition`, the
-- `score`.
--
-- Db: Db/Sql is SELECT, UPDATE, DELETE and INSERT on a table as the list of its rows; Db/Tables
-- are the rows and the `Store`; Db/Vaults, Letters, Changes, Releases, Accounts, Subscriptions,
-- Deputies, Presence, Contacts, Passkeys and Envelopes are the queries, under their names in the
-- source. A query that writes takes a Store and returns its result with the new Store; a new id
-- and the time `now` are arguments. Db/Race runs one conditional update several times, in the
-- order in which the database serialises it.
--
-- App: the `World` (Store, messages sent, counters, timers) and the monad `Api`, in which a
-- failure keeps what was written before it, since the source uses no transactions around a
-- handler. `Platform` stands for the random numbers and for SHA-256.
--
-- Scheduler: Observe is what a tick of the aggregator reads of a vault, Evaluate is `evaluate`;
-- Release is the release pipeline with its timers and its poll; Workers are the aggregator's
-- transitions, the schedule, event letters and changes of address; Retention is the sweep and the
-- erasure. One call of a tick is one round of a worker's endless loop, and a timer is a value
-- that a later call of `elapse_release` wakes.
--
-- Routes: the bearer token, sign-up and sign-in, and the handlers of vaults, letters, claims,
-- signs of life, releases, deputies and duress. Private are the letters of zero-knowledge vaults,
-- Attachments the uploads and the claims of files, Usage the handlers that only report. Passkeys
-- and Recovery are crates/beacon-api/src/passkey.rs: its ceremonies stand on the webauthn
-- library, which is a record of operations, as the blob store of Attachments is; a text in
-- base64url or hex is the bytes that it decodes to, or missing where it cannot be decoded.
--
-- Transform is the pipeline of uploads, Blob the local store and the router to S3, Crypto the
-- sealing, the tokens and the HMAC, RateLimit the token bucket
-- (crates/beacon-api/src/rate_limit.rs). Ciphers, hashes, image codecs and the S3 service are
-- parameters. The handlers of letters use the key service as an interface of their own, with
-- bytes as lists of numbers.
--
-- Tests: concrete runs.
--
-- Bounds: every loop of the model is a recursion on a list, so no fuel is needed. Ids, hashes and
-- times are natural numbers; the counters wrap at 2 ^ 64. The i32 of a cooling-off period is an
-- integer whose overflow no operation here can reach.
--
-- Not modelled: the transport and the text of HTTP requests and messages, a failing database
-- connection, errors of the file system, the export of letters, the move of a vault to another
-- region and the deletion of a letter, the texts of notifications, the configuration, the command
-- line and the web applications. The query `list_vaults_in_states` is left out, since it selects
-- fewer columns than its rows need.
pub mod Base
pub mod Domain
pub mod Db
pub mod App
pub mod Scheduler
pub mod Routes
pub mod Transform
pub mod Blob
pub mod Crypto
pub mod RateLimit
pub mod Tests
