-- ===== src/Gate.antt =====
-- The switch gate of src/SecureVM/gate_function.h, native_gate_function.h and interupt.h: what runs
-- with interrupts off between two loads of cr3.
pub mod Machine
pub mod Native
pub mod Switch
pub mod Handlers
pub mod Writes
pub mod Faults
pub mod Sample
mod Tests
