-- ===== src/Mixer.antt =====
-- src/mixer.c: the mixer.
pub mod Controls
pub mod Lookup
pub mod Info
pub mod Value
pub mod Enums
pub mod Events
pub mod Plug
pub mod Open
mod Tests
