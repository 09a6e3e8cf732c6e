-- ===== src/Datp/Server.antt =====
-- datp/server.py: `DATPServer`, from the message of a connection to the devices, the bus and the registry.
pub mod Conversation
pub mod State
pub mod Hello
pub mod Dispatch
pub mod Offered
pub mod Effect
pub mod Foreign
pub mod Handled
pub mod Kept
pub mod Reach
pub mod Conversations
pub mod Ownership
