-- ===== src/Relay.antt =====
-- The UDP relays: their store (apps/api/src/relay/repository.ts), the addresses that they may serve,
-- and the service that changes them (apps/api/src/relay/service.ts).
pub mod Address
pub mod Store
pub mod Journal
pub mod Service
pub mod Plans
pub mod Changes
