-- ===== src/Memory.antt =====
-- software/Femtiki/source/memmgnt3.c: the memory manager, over the constants of inc/config.h.
pub mod Bits
pub mod State
pub mod Map
pub mod Table
pub mod Run
pub mod Alias
pub mod Break
pub mod Boot
