-- ===== src/Tests.antt =====
-- The theorems at concrete inputs: a panel with an administrator, a node, connections and a relay.
pub mod Data
pub mod Store
pub mod Relay
pub mod Handlers
pub mod Worker
pub mod System
pub mod Routes
pub mod Web
