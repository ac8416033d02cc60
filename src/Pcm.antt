-- ===== src/Pcm.antt =====
-- src/pcm.c: PCM streams.
pub mod Format
pub mod Flags
pub mod Params
pub mod Handle
pub mod Control
pub mod Config
pub mod Ring
pub mod Times
pub mod Open
pub mod Transfer
mod Tests
