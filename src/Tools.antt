-- ===== src/Tools.antt =====
-- utils/tinyplay.c and utils/tinycap.c: playing and capturing files of sound.
pub mod Wave
pub mod Play
pub mod Capture
pub mod Header
pub mod RoundTrip
pub mod Counted
pub mod Playing
pub mod Mix
mod Tests
