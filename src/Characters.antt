-- ===== src/Characters.antt =====
-- src/oi-gateway/src/character_packs: how the states of the devices look.
pub mod Text
pub mod Pack
pub mod BuiltIn
pub mod Templates
pub mod Stored
pub mod Validator
pub mod Generator
pub mod Generated
pub mod Renderer
pub mod Rendered
pub mod Service
pub mod Repeated
mod Tests
