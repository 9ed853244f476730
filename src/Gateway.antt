-- ===== src/Gateway.antt =====
-- The ingestion gateway, services/api-gateway.
pub mod Contract
pub mod Form
pub mod Submit
pub mod Listing
pub mod Dial
pub mod Limiter
pub mod Status
pub mod Config
pub mod Broker
pub mod Encode
pub mod Main
pub mod Router
