-- ===== src/Datp.antt =====
-- src/oi-gateway/src/datp: the protocol between the gateway and the devices.
pub mod Text
pub mod Messages
pub mod Parse
pub mod Schema
pub mod Conforms
pub mod Built
pub mod Builders
pub mod Bus
pub mod Commands
mod Tests
pub mod Server
