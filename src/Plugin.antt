-- ===== src/Plugin.antt =====
-- src/pcm_plugin.c: PCM devices that a loaded plugin implements.
pub mod State
pub mod Refine
pub mod Select
pub mod Open
pub mod Info
mod Tests
