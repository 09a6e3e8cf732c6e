-- ===== src/Skills.antt =====
-- src/oi-gateway/src/integrations/skill_sandbox.py: skills that agents define, and what they may do.
pub mod Broker
pub mod Code
pub mod Harmless
pub mod Sandbox
pub mod Permitted
pub mod Validated
mod Tests
