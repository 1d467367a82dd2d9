-- ===== src/Store.antt =====
-- apps/api/src/repository.ts: one child for each group of the methods of `Repository`. A method that
-- reads the clock takes the reading as `now`, and one that draws a UUID takes it as `id`.
pub mod Sessions
pub mod Admins
pub mod Nodes
pub mod Instances
pub mod Users
pub mod Connections
pub mod Traffic
pub mod Policies
pub mod Idempotency
pub mod Audit
pub mod Dashboard
