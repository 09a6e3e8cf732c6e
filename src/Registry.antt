-- ===== src/Registry.antt =====
-- src/oi-gateway/src/registry: the devices that the gateway knows, who of them is there, and their health.
pub mod State
pub mod Heartbeat
pub mod Service
pub mod Health
pub mod Consistent
pub mod Resume
pub mod Online
mod Tests
