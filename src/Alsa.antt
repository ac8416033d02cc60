-- ===== src/Alsa.antt =====
-- The numbers of the kernel's public interface (sound/asound.h and errno.h) that the library uses.
pub mod HwParam
pub mod Format
pub mod Errno
pub mod SyncPtr
pub mod CtlElem
