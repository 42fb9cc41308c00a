-- ===== src/Emitter.antt =====
-- src/translator.h: the private helpers of `BlockBuilder`.
pub mod State
pub mod Flags
pub mod Regs
pub mod Reading
pub mod Writing
pub mod Exits
pub mod Fusion
pub mod Conditions
pub mod Spill
pub mod Leaving
