-- ===== src/Paging.antt =====
-- Page tables as src/SecureVM/set_pgprot.h, src/SecureVM/set_pgprotrw.h and src/SecureVM/find.h
-- walk them: a memory of words by address, in which a table is 512 words and an entry holds the
-- frame of the next table.
pub mod Loop
pub mod Protect
pub mod Bits
pub mod Locked
pub mod Zeroed
pub mod Reopened
pub mod Unlocked
pub mod Find
pub mod Finds
pub mod Found
pub mod Store
pub mod Copy
mod Tests
