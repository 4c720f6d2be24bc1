-- ===== src/Hook.antt =====
-- src/SecureVM/set_hook.h and the module's entry points of src/SecureVM/hookcr32.c.
pub mod Data
pub mod Install
pub mod Vmcs
pub mod Kvm
pub mod Page
pub mod Session
pub mod Jump
pub mod Effect
pub mod RoundTrip
pub mod Order
pub mod Unload
pub mod Opened
pub mod Mediation
mod Tests
