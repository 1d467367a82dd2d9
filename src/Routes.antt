-- ===== src/Routes.antt =====
-- The handlers of apps/api/src/http/routes.ts, each as an action on the panel's state. `r` gives the
-- readings of the clock and of the random source, numbered in the order of the code.
mod Frames
pub mod Lifecycle
pub mod Issuance
pub mod Registration
pub mod Adoption
pub mod Discovery
pub mod Import
pub mod Relays
pub mod Queries
