-- ===== src/Translator.antt =====
-- src/translator.cpp: the methods of `BlockBuilder` that decode instructions and emit code.
pub mod DpImm
pub mod Branch
pub mod LdSt
pub mod DpReg
pub mod Block
