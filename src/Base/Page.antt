-- ===== src/Base/Page.antt =====
-- Page-table entries: the R/W bit, and the bits that hold the address of a page frame.
use Prim.Native.Nat.{ℕ}

-- `_PAGE_RW`, bit 1 of an x86 entry: the literal 0x2 with which set_pgtable_prot6 tests it.
abbrev pub page_rw : ℕ
page_rw = 2

-- `mask`, `mask_pt`, `mask_pgprot` and `mask_pgprot1`.
abbrev pub page_mask : ℕ
page_mask = 0xfffffffff000
