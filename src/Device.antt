-- ===== src/Device.antt =====
-- The state machines of the clients: src/oi-clients/oi-sim/src/sim/state.py (the simulator),
-- src/oi-clients/generic_sbc_handheld/oi_client/state.py (the handheld) and
-- src/oi-clients/m5stack_stickS3/datp/state.py (the firmware).
pub mod State
pub mod Simulator
pub mod Handheld
pub mod Firmware
mod Tests
