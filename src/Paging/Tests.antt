-- ===== src/Paging/Tests.antt =====
-- The walks on a table with one entry at each level, in a memory that __va addresses directly.
use hyper_mi.Base.{◌+◌, ◌*◌, ◌^◌, ℕ, ◌≡◌, refl, arith, Bool, false, ◌==◌, if◌then◌else◌}
use hyper_mi.Paging.Loop.{Memory}
use hyper_mi.Paging.Protect.{at, set_pgtable_prot2, set_pgtable_prot4, set_pgtable_prot5}
use hyper_mi.Paging.Bits.{IsReadOnly, IsWritable}
use hyper_mi.Paging.Locked.{Present, set_pgtable_prot4-IsReadOnly}
use hyper_mi.Paging.Unlocked.{set_pgtable_prot5-IsWritable}
use hyper_mi.Paging.Find.{Pt, indices, find}
use hyper_mi.Paging.Reopened.{find-reopens}
use hyper_mi.Paging.Found.{IsFound, find-IsFound}
use hyper_mi.Paging.Zeroed.{Zeroes, set_pgtable_prot2-unmaps}

abbrev va : ℕ → ℕ
va x = x

abbrev never : ℕ → Bool
never e = false

-- Entry 300 of the table at 0x1000, entry 1 of that at 0x2000, entry 2 of that at 0x3000.
abbrev tables : Memory
tables x =
    if x == 0x1960
    then 0x2003
    else (if x == 0x2008 then 0x3003 else (if x == 0x3010 then 0x4003 else 0))

top : Present (tables 0x1960)
top = omega arith

middle : Present (tables 0x2008)
middle = omega arith

leaf : Present (tables 0x3010)
leaf = omega arith

set_pgtable_prot4-IsReadOnly_example :
    IsReadOnly (set_pgtable_prot4 va never 0x1000 tables (at 0x3000 2))
set_pgtable_prot4-IsReadOnly_example =
    set_pgtable_prot4-IsReadOnly va never (λ a b q. refl) tables 0x1000 300 1 2 (omega arith)
      (omega arith) (omega arith) (omega arith) top middle refl leaf

set_pgtable_prot5-IsWritable_example :
    IsWritable (set_pgtable_prot5 va never 0x1000 tables (at 0x3000 2))
set_pgtable_prot5-IsWritable_example =
    set_pgtable_prot5-IsWritable va never (λ a b q. refl) tables 0x1000 300 1 2 (omega arith)
      (omega arith) (omega arith) (omega arith) top middle refl (omega arith) leaf

set_pgtable_prot2-unmaps_example :
    (set_pgtable_prot2 never 0x1000 tables (at 0x1000 300) ≡ 0)
    × Zeroes tables (set_pgtable_prot2 never 0x1000 tables)
set_pgtable_prot2-unmaps_example =
    set_pgtable_prot2-unmaps never 0x1000 tables 300 (omega arith) (omega arith) top refl

abbrev blank : Pt
blank = record {
  addr = 0;
  level = 0;
  pgd = 0;
  pud = 0;
  pmd = 0;
  pte = 0;
  index_pgd = 0;
  index_pud = 0;
  index_pmd = 0;
  index_pte = 0;
  index_offset = 0;
  value = 0;
  flag_valid = 0;
  pgd_addr = 0;
  pud_addr = 0;
  pmd_addr = 0;
  pte_addr = 0;
}

-- Indices 300, 1, 2 and 3, and offset 0x18.
abbrev address : ℕ
address = 300 * 2 ^ 39 + 1 * 2 ^ 30 + 2 * 2 ^ 21 + 3 * 2 ^ 12 + 0x18

abbrev deep_tables : Memory
deep_tables x = if x == 0x4018 then 0x5001 else tables x

deep_top : Present (deep_tables 0x1960)
deep_top = omega arith

deep_high : Present (deep_tables 0x2008)
deep_high = omega arith

deep_middle : Present (deep_tables 0x3010)
deep_middle = omega arith

deep_last : Present (deep_tables 0x4018)
deep_last = omega arith

find-IsFound_example : IsFound 0x4018 (find va never never address 0x1000 deep_tables blank)
unfolding indices
find-IsFound_example =
    find-IsFound va deep_tables never never (λ a b q. refl) (λ a b q. refl) address 0x1000 blank
      deep_top deep_high refl deep_middle refl deep_last

find-reopens_example :
    IsReadOnly (set_pgtable_prot4 va never 0x1000 deep_tables (at 0x3000 2))
    × IsWritable (
        (find va never never address 0x1000 (set_pgtable_prot4 va never 0x1000 deep_tables) blank).0
          (at 0x3000 2))
unfolding indices
find-reopens_example =
    find-reopens va never never (λ a b q. refl) (λ a b q. refl) deep_tables address 0x1000 blank
      (omega arith) deep_top deep_high refl deep_middle
