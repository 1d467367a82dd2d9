-- ===== src/Web.antt =====
-- The parts of apps/web that rewrite what the API has answered.
pub mod RelayConfig
