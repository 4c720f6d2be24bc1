-- ===== src/Paging/Copy/Count.antt =====
-- `printk_pgtable` of src/SecureVM/copy_pg.h: how many entries a table has, down to the third level.
use hyper_mi.Base.{
  ℕ, zero, suc, ◌+◌, ◌*◌, ◌^◌, ◌≤◌, ◌<◌, arith, Bool, ◌==◌, if◌then◌else◌, bit_and, Cmd, modify,
  ◌∷◌,
}
use hyper_mi.Base.Page.{page_mask}
use hyper_mi.Paging.Loop.{Memory}
use hyper_mi.Paging.Protect.{at, below}
use hyper_mi.Paging.Store.{Store, PageKernel, count_printed}

-- `for (i = first; i < first + n; i++)`, whose body may add to the count.
unfoldable pub for_counts : ℕ → ℕ → (ℕ → ℕ → ℕ) → ℕ → ℕ
for_counts zero i body count = count
for_counts (suc n) i body count = for_counts n (i + 1) body (body i count)

-- The loop over the fourth level prints and counts nothing.
unfoldable pub count_pmd : Memory → ℕ → ℕ → ℕ → ℕ
count_pmd f pmd_new i3 count =
    if bit_and (f (at pmd_new i3)) page_mask == 0 then count else count + 1

module _ (k : PageKernel) (f : Memory) where
  unfoldable pub count_pud : ℕ → ℕ → ℕ → ℕ
  count_pud pud_new i2 count =
      let e = f (at pud_new i2) in
      if bit_and e page_mask == 0
      then count
      else (if k.pud_large e
          then count + 1
          else for_counts 512 0 (count_pmd f (below k.va e)) (count + 1))

  unfoldable pub count_pgd : ℕ → ℕ → ℕ → ℕ
  count_pgd pgd_new i1 count =
      let e = f (at pgd_new i1) in
      if bit_and e page_mask == 0
      then count
      else for_counts 512 0 (count_pud (below k.va e)) (count + 1)

  unfoldable pub count_pgtable : ℕ → ℕ
  count_pgtable addr = for_counts 512 0 (count_pgd addr) 0

unfoldable pub printk_pgtable : PageKernel → ℕ → Cmd Store (Unit {0})
unfolding count_pgtable
printk_pgtable k addr =
    modify (λ s. record s { trace = count_printed (count_pgtable k s.memory addr) ∷ s.trace })

for_counts-le :
    (body : ℕ → ℕ → ℕ) (b : ℕ)
    → ((i c : ℕ) → body i c ≤ c + b)
    → (n i c : ℕ) → for_counts n i body c ≤ c + n * b
unfolding for_counts
for_counts-le body b small zero i c = omega arith
for_counts-le body b small (suc n) i c =
    omega (arith, for_counts-le body b small n (i + 1) (body i c), small i c)

count_pmd-le : (f : Memory) (t i c : ℕ) → count_pmd f t i c ≤ c + 1
unfolding count_pmd
count_pmd-le f t i c = ground arith

module _ (k : PageKernel) (f : Memory) where
  count_pud-le : (t i c : ℕ) → count_pud k f t i c ≤ c + 513
  unfolding count_pud
  count_pud-le t i c =
      let e = f (at t i) in
      let rest =
        for_counts-le (count_pmd f (below k.va e)) 1 (count_pmd-le f (below k.va e)) 512 0
          (c + 1) in
      ground (arith, rest)

  count_or-le : (b : Bool) (c r d : ℕ) → r ≤ c + d → (if b then c else r) ≤ c + d
  count_or-le b c r d small = ground arith

  count_pgd-le : (t i c : ℕ) → count_pgd k f t i c ≤ c + 262657
  unfolding count_pgd
  count_pgd-le t i c =
      let e = f (at t i) in
      let rest =
        for_counts-le (count_pud k f (below k.va e)) 513 (count_pud-le (below k.va e)) 512 0
          (c + 1) in
      count_or-le (bit_and e page_mask == 0) c _ 262657 (omega (arith, rest))

  -- The count of a table is at most 134480384, whatever memory holds, so the int in which the
  -- program keeps it does not overflow.
  pub count_pgtable-le :
      (addr : ℕ) → (count_pgtable k f addr ≤ 134480384) × (count_pgtable k f addr < 2 ^ 31)
  unfolding count_pgtable
  count_pgtable-le addr =
      let bound = for_counts-le (count_pgd k f addr) 262657 (count_pgd-le addr) 512 0 0 in
      (omega (arith, bound), omega (arith, bound))
