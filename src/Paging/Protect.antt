-- ===== src/Paging/Protect.antt =====
-- src/SecureVM/set_pgprot.h and src/SecureVM/set_pgprotrw.h. `va` is the kernel's __va, and
-- `pud_large`, `pmd_large` and `pgd_none` are its tests of an entry. All walks begin at the
-- kernel's half.
use hyper_mi.Base.{ℕ, ◌+◌, ◌*◌, Bool, bit_and, bit_or, bit_xor, ◌==◌, if◌then◌else◌, update}
use hyper_mi.Base.Page.{page_rw, page_mask}
use hyper_mi.Paging.Loop.{Memory, for_each}

-- The address of entry `i` of the table at `table`.
abbrev pub at : ℕ → ℕ → ℕ
at table i = table + 8 * i

-- `if ((e &= _PAGE_RW) == _PAGE_RW) e ^= _PAGE_RW`.
unfoldable pub strip : ℕ → Memory → Memory
strip a f =
    let g = update f a (bit_and (f a) page_rw) in
    if g a == page_rw then update g a (bit_xor (g a) page_rw) else g

-- `if ((e & _PAGE_RW) == _PAGE_RW) e ^= _PAGE_RW`.
unfoldable pub lock : ℕ → Memory → Memory
lock a f = if bit_and (f a) page_rw == page_rw then update f a (bit_xor (f a) page_rw) else f

-- `e |= _PAGE_RW`.
unfoldable pub unlock : ℕ → Memory → Memory
unlock a f = update f a (bit_or (f a) page_rw)

module _ (va : ℕ → ℕ) where
  -- The table under an entry.
  abbrev pub below : ℕ → ℕ
  below e = va (bit_and e page_mask)

  module _ (pud_large pmd_large : ℕ → Bool) where
    unfoldable pub prot_pte : ℕ → ℕ → Memory → Memory
    unfolding strip
    prot_pte pte i4 f = if bit_and (f (at pte i4)) page_mask == 0 then f else strip (at pte i4) f

    unfoldable pub prot_pmd : ℕ → ℕ → Memory → Memory
    unfolding strip
    prot_pmd pmd i3 f =
        if bit_and (f (at pmd i3)) page_mask == 0
        then f
        else if pmd_large (f (at pmd i3))
        then strip (at pmd i3) f
        else for_each 512 0 (prot_pte (below (f (at pmd i3)))) f

    unfoldable pub prot_pud : ℕ → ℕ → Memory → Memory
    unfolding strip
    prot_pud pud i2 f =
        if bit_and (f (at pud i2)) page_mask == 0
        then f
        else if pud_large (f (at pud i2))
        then strip (at pud i2) f
        else for_each 512 0 (prot_pmd (below (f (at pud i2)))) f

    unfoldable pub prot_pgd : ℕ → ℕ → Memory → Memory
    unfolding prot_pud
    prot_pgd pgd i1 f =
        if bit_and (f (at pgd i1)) page_mask == 0
        then f
        else for_each 512 0 (prot_pud (below (f (at pgd i1)))) f

    unfoldable pub set_pgtable_prot : ℕ → Memory → Memory
    unfolding prot_pgd
    set_pgtable_prot addr = for_each 256 256 (prot_pgd addr)

  module _ (pud_large : ℕ → Bool) where
    -- The middle level of set_pgtable_prot4.
    unfoldable pub prot4_pmd : ℕ → ℕ → Memory → Memory
    unfolding lock
    prot4_pmd pmd i3 f = if bit_and (f (at pmd i3)) page_mask == 0 then f else lock (at pmd i3) f

    unfoldable pub prot4_pud : ℕ → ℕ → Memory → Memory
    unfolding prot4_pmd
    prot4_pud pud i2 f =
        if bit_and (f (at pud i2)) page_mask == 0
        then f
        else if pud_large (f (at pud i2))
        then f
        else for_each 512 0 (prot4_pmd (below (f (at pud i2)))) f

    unfoldable pub prot4_pgd : ℕ → ℕ → Memory → Memory
    unfolding prot4_pud
    prot4_pgd pgd i1 f =
        if bit_and (f (at pgd i1)) page_mask == 0
        then f
        else for_each 512 0 (prot4_pud (below (f (at pgd i1)))) f

    unfoldable pub set_pgtable_prot4 : ℕ → Memory → Memory
    unfolding prot4_pgd
    set_pgtable_prot4 addr = for_each 256 256 (prot4_pgd addr)

    -- The middle level of set_pgtable_prot5: entry `i2` of the table above decides.
    unfoldable pub prot5_pmd : ℕ → ℕ → ℕ → Memory → Memory
    unfolding unlock
    prot5_pmd above pmd i3 f =
        if bit_and (f (at pmd i3)) page_mask == 0
        then f
        else if bit_and (f above) page_rw == page_rw
        then unlock (at pmd i3) f
        else f

    unfoldable pub prot5_pud : ℕ → ℕ → Memory → Memory
    unfolding prot5_pmd
    prot5_pud pud i2 f =
        if bit_and (f (at pud i2)) page_mask == 0
        then f
        else if pud_large (f (at pud i2))
        then f
        else for_each 512 0 (prot5_pmd (at pud i2) (below (f (at pud i2)))) f

    unfoldable pub prot5_pgd : ℕ → ℕ → Memory → Memory
    unfolding prot5_pud
    prot5_pgd pgd i1 f =
        if bit_and (f (at pgd i1)) page_mask == 0
        then f
        else for_each 512 0 (prot5_pud (below (f (at pgd i1)))) f

    unfoldable pub set_pgtable_prot5 : ℕ → Memory → Memory
    unfolding prot5_pgd
    set_pgtable_prot5 addr = for_each 256 256 (prot5_pgd addr)

    -- The same walk, with the literal 0x2 in the test.
    unfoldable pub set_pgtable_prot6 : ℕ → Memory → Memory
    unfolding prot5_pgd
    set_pgtable_prot6 addr = for_each 256 256 (prot5_pgd addr)

module _ (pgd_none : ℕ → Bool) where
  unfoldable pub prot2_pgd : ℕ → ℕ → Memory → Memory
  unfolding strip
  prot2_pgd pgd i1 f =
      if bit_and (f (at pgd i1)) page_mask == 0
      then f
      else if pgd_none (f (at pgd i1))
      then f
      else strip (at pgd i1) f

  unfoldable pub set_pgtable_prot2 : ℕ → Memory → Memory
  unfolding prot2_pgd
  set_pgtable_prot2 addr = for_each 256 256 (prot2_pgd addr)

  unfoldable pub prot3_pgd : ℕ → ℕ → Memory → Memory
  unfolding unlock
  prot3_pgd pgd i1 f =
      if bit_and (f (at pgd i1)) page_mask == 0
      then f
      else if pgd_none (f (at pgd i1))
      then f
      else unlock (at pgd i1) f

  unfoldable pub set_pgtable_prot3 : ℕ → Memory → Memory
  unfolding prot3_pgd
  set_pgtable_prot3 addr = for_each 256 256 (prot3_pgd addr)
