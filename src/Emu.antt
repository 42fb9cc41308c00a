-- ===== src/Emu.antt =====
-- src/emu.h and src/emu.cpp: the emulator, its heap, its imports, its calls of the host and the
-- links between compiled blocks.
pub mod State
pub mod Heap
pub mod Imports
pub mod Host
pub mod Blocks
pub mod Run
