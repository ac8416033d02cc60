-- ===== src/Alsa/Errno.antt =====
-- The error numbers of Linux that the library names.
use tinyalsa.Base.{ℕ}

abbrev pub eintr : ℕ
eintr = 4

abbrev pub eio : ℕ
eio = 5

abbrev pub eagain : ℕ
eagain = 11

abbrev pub enomem : ℕ
enomem = 12

abbrev pub efault : ℕ
efault = 14

abbrev pub enodev : ℕ
enodev = 19

abbrev pub einval : ℕ
einval = 22

abbrev pub epipe : ℕ
epipe = 32

abbrev pub enosys : ℕ
enosys = 38

abbrev pub ebadfd : ℕ
ebadfd = 77

abbrev pub estrpipe : ℕ
estrpipe = 86
