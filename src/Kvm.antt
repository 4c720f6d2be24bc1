-- ===== src/Kvm.antt =====
-- The replacements of src/SecureVM/gate_function.h for functions of KVM that keep no page tags, and
-- what the module does first when it is loaded.
pub mod Mmu
pub mod Tdp
pub mod Start
pub mod Search
pub mod Walk
pub mod Vms
pub mod Finds
pub mod Admits
pub mod Roots
pub mod Sets
mod Tests
