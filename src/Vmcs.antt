-- ===== src/Vmcs.antt =====
-- The replacements of src/SecureVM/gate_function.h for the VMCS of a virtual CPU.
pub mod Fields
pub mod Access
pub mod Guard
mod Tests
