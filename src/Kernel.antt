-- ===== src/Kernel.antt =====
-- The data of the kernel: software/Femtiki/source/inc/{const,config,types,glo}.h.
pub mod Config
pub mod Run
pub mod Types
pub mod State
pub mod Parts
