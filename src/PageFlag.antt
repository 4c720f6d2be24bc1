-- ===== src/PageFlag.antt =====
-- The physical page tag table of src/SecureVM/gate_function.h: `pageflag`, and the handlers that
-- the hooked kernel calls when it maps, merges, frees or balloons a page.
pub mod Table
pub mod Release
pub mod Map
pub mod Merge
pub mod Free
pub mod Access
pub mod Mapping
pub mod Freeing
pub mod Merging
pub mod Invariant
pub mod Preserve
pub mod Owners
pub mod After
pub mod Refine
mod Tests
