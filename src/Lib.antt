-- ===== src/Lib.antt =====
-- A model of the AWG Control panel: the API of apps/api (TypeScript), which keeps administrators,
-- VPN nodes, instances, users, connections and UDP relays in a SQLite database and has helpers on
-- the nodes and relays carry out its changes over SSH.
--
-- The parts, and where they are modelled:
--   Contracts   packages/contracts/src/index.ts: enumerations, entities, allowed transitions of a
--               connection (canTransitionConnection), supportsRelay.
--   Exec        code that reads and writes the database and throws, as functions from a state to a
--               result and a state; `transaction` rolls back. Exec.Laws (what a program
--               keeps), Exec.Returns (what holds of its results), Exec.Unwinds (what holds when it
--               throws) and Exec.Turns (one change among steps that keep) hold the rules by which
--               properties of a program follow from those of its parts.
--   Panel       the state: one list of rows for each table of apps/api/migrations, and the set of
--               relays that RelayService.running holds.
--   Crypto      hashOpaque, requestFingerprint, stableJson of apps/api/src/security/crypto.ts.
--   Store       apps/api/src/repository.ts, one module for each group of tables; a function has the
--               method's name. Base.Tables has the SQL statements on lists of rows.
--   Helper      apps/api/src/helper/client.ts: the interface, a record of actions; the negotiation of the
--               version (Helper.Negotiation); an RPC as a machine over the events of its SSH
--               connection (Helper.Transport).
--   Http        operationId and the parts of a request that handlers use.
--   Auth        apps/api/src/http/auth.ts: the login (Auth.Login), the session hooks, logout and
--               revocation (Auth.Sessions), TOTP (Auth.Totp).
--   Relay       apps/api/src/relay: publicIpv4 (Relay.Address), RelayRepository (Relay.Store,
--               Relay.Journal), RelayService (Relay.Service, Relay.Plans, Relay.Changes).
--   Routes      handlers of apps/api/src/http/routes.ts: suspend, resume and revoke (Lifecycle), the
--               issuance of a connection (Issuance), adoption, registration of users, nodes and quota
--               policies (Registration), discovery and management of instances (Discovery), import
--               (Import) and queries; of apps/api/src/http/relay-routes.ts: Relays.
--   Worker      apps/api/src/worker.ts: a tick, the poll of a node, enforcement and retention, with
--               the heartbeat of the repository.
--   Ids, Config, Secrets, Server   apps/api/src/lib/ids.ts, config.ts, the key rotation of cli.ts, and
--               the hooks of server.ts on origins and errors.
--   Web         withRelayEndpoint of apps/web/src/relayConfig.ts.
--   Tests       a concrete panel, and the theorems at concrete inputs.
--
-- A handler is an action on the panel: its reads, writes and throws are in the order of the code.
-- The helpers are parameters: a call returns or throws what it likes and may leave the state changed,
-- since other requests run while it is awaited. The clock and the random source are parameters too
-- (`Readings`), one reading for each place of the code. Times are milliseconds, UUIDs are numbers,
-- and strings that the code takes apart are lists of character codes. SQLite's constraints are
-- written out at the statements that can break them. No part needs fuel: the loops of the program run
-- over lists. Numbers are unbounded, as the program's own are far below 2^53.
--
-- An invariant over handlers is stated with what the helpers' calls keep as a hypothesis. The worker's
-- polls run at once in the program and one after the other in the model; what the others do while one
-- is awaited is part of what a helper's call may do.
--
-- The verification of a password, which a login awaits, is one step: what other requests change
-- meanwhile is left out. An insert checks the keys, the uniqueness and the parents of its row; the
-- CHECK constraints that a body's schema has checked are left out.
--
-- Not modelled: the library ssh2, the web framework, logging, timers, and titles and details of errors (input
-- and output); scrypt, AES-GCM, SHA-256, one-time codes and Intl (parameters); JSON schemas, which have
-- validated a body before its handler runs; opening, migrating and backing up the database; the rest of
-- the web application; the Go programs of cmd and internal, seen through the interfaces only.
pub mod Base
pub mod Contracts
pub mod Exec
pub mod Crypto
pub mod Panel
pub mod Store
pub mod Helper
pub mod Http
pub mod Relay
pub mod Auth
pub mod Routes
pub mod Tests
pub mod Worker
pub mod Ids
pub mod Config
pub mod Secrets
pub mod Server
pub mod Web
