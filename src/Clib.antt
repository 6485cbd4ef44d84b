-- ===== src/Clib.antt =====
-- The C library that the kernel and the programs share: lib/string.c.
pub mod Mem
pub mod Move
pub mod Str
pub mod StrCopy
pub mod StrCompare
