-- ===== src/Lib.antt =====
-- A verification library for Chronicle, which follows an IOTA node over INX, keeps the tangle in
-- MongoDB, derives statistics for InfluxDB and serves a REST API.
--
-- The parts that are modelled, and the files that model them:
--   * Common: the shared notation, wrapping 64-bit words (Words), sums over lists (Totals), maps as
--     association lists (Dict), calls that return an error or panic (Run), byte strings (Bytes).
--   * Model: the data types of src/model. A record stands for a struct and a data type for an enum,
--     with the fields and variants of the source; an id or a hash is a byte string.
--   * Db: src/db/mongodb/collections, as lists of documents. Collections has the documents of blocks,
--     milestones and configurations and the queries on them that the handlers below make; Outputs
--     is outputs/mod.rs with the IndexedId of outputs/indexer/mod.rs; Documents has what the
--     synchronisation writes to the other collections; ApplicationState is application_state.rs.
--   * InxWorker: src/bin/inx-chronicle/inx/mod.rs. A run finds the start index, on a new database
--     stores the unspent outputs of the node (FirstRun), and then handles the milestones of the
--     stream one after the other: outputs and ledger updates first, then the blocks of the cone,
--     then parameters and configuration, then the milestone itself.
--   * Migrations: src/bin/inx-chronicle/migrations. The loop of mod.rs runs the migration that follows
--     the recorded version, until it is the latest; Steps is migrate_0.rs and migrate_1.rs.
--   * Api: src/bin/inx-chronicle/api. Cursors has the cursors of explorer/extractors.rs and
--     indexer/extractors.rs as text, Pagination the extractors of extractors.rs and
--     explorer/extractors.rs, Numbers what they use of the standard library.
--   * Poi: src/bin/inx-chronicle/api/poi. Hasher is merkle_hasher.rs, Proof and Dto are
--     merkle_proof.rs, Keys and Routes are routes.rs. A create handler asks the database for the
--     blocks of a milestone and builds an audit path over them; a validate handler checks a path
--     that a client sent against a milestone, whose signatures it checks against the keys of Keys.
--   * Tangle: src/tangle. LedgerUpdates is ledger_updates.rs, Sources is sources/mod.rs with
--     milestone_stream.rs, Inx is the reading of ledger updates in sources/inx.rs and the messages
--     of src/inx/ledger.rs, MongoDb is sources/mongodb.rs, Memory is
--     sources/memory.rs, Requests is src/inx/request.rs.
--   * Analytics: src/analytics. Milestone is the driver in mod.rs: it takes the blocks of a
--     milestone from Tangle/Sources in white-flag order, resolves their transactions by
--     Tangle/LedgerUpdates, and hands them to an analytic. Ledger has the analytics of
--     src/analytics/ledger, Tangle those of src/analytics/tangle, Choices those that the driver
--     is applied to. Update says what a transaction does to the set of unspent outputs.
--   * Tests: concrete data, and the theorems applied to it.
--
-- Conventions. State is passed explicitly: a method that changes `self` returns the new value. A
-- `Result` is Run, with a constructor for a panic; where a function can only panic, it returns an
-- Option. Machine integers are natural numbers with their wrap-around written out, as a release
-- build computes them; `usize` has 64 bits. A stream is the list of what it yields. A hash map is an
-- association list whose order has no meaning.
--
-- Fuel. The recursions of the Merkle hasher and of the audit path halve a slice. They run on fuel,
-- one more than the number of leaves, which bounds their depth, as both halves are shorter than the
-- whole. The number of leaves is at most 2^32, since the pivot is computed in 32 bits. The loop of
-- the migrations runs on a number of rounds: each runs one migration, and the last finds the latest
-- version, so the migrations that are left and one round more are enough. A number is printed with
-- up to twenty digits, and its logarithm is found by up to twenty divisions by ten, which are enough
-- below 2^64.
--
-- Parameters. The digest, the hex codecs, the validation of a milestone's signatures and the types
-- of blocks and milestones of the package iota_types are the record Iota of Poi/Routes; the size of
-- an output on the ledger is a parameter of Analytics/Ledger/LedgerSize; what INX sends is a list
-- of messages. In Migrations, these are the date of a version and what the database does with an
-- index. In InxWorker, the answers of the node, the equality of parameters and of configurations,
-- and which tasks are done when the others are aborted after an error. In Api, the hex
-- encoding, the reading of an output id by iota_types, and the query that axum has read.
--
-- Not modelled: the INX client, MongoDB and InfluxDB themselves, HTTP, authentication, the command
-- line, the handlers of the API other than those of Poi, the extractors and queries of the indexer,
-- and the conversions between the data model and iota_types, which do I/O or call other packages.
-- Errors of the database driver are left out. Of the INX source, the milestone and cone streams are
-- left out, which unpack what the node sends with iota_types. Of the analytics, the active addresses
-- of an interval are left out.
pub mod Common
pub mod Model
pub mod Db
pub mod Migrations
pub mod InxWorker
pub mod Api
pub mod Poi
pub mod Tangle
pub mod Analytics
pub mod Tests
