-- ===== src/Recording.antt =====
-- src/oi-gateway/src/audio/pipeline.py: the audio that a device records, put together from chunks.
pub mod Numbers
pub mod Stream
pub mod Mono
pub mod Whole
pub mod Complete
pub mod Transcript
pub mod Accumulator
pub mod Buffered
pub mod Transcribed
mod Tests
pub mod Cleaning
