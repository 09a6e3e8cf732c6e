-- ===== src/Speech.antt =====
-- src/oi-gateway/src/audio/delivery.py: how a streamed answer is cut into pieces of speech, and how
-- the audio of a piece is sent to a device.
pub mod Segmenter
pub mod Chunks
pub mod Delivery
pub mod Delivered
pub mod Cached
mod Tests
pub mod Segments
pub mod Streams
