-- ===== src/Evm/Instructions.antt =====
-- state/runtime/evm/instructions.go: the instructions, as changes of the state. An instruction that
-- pops more than the stack holds is a panic; Evm/Run says why none does.
pub mod Values
pub mod Data
pub mod Flow
pub mod Calls
