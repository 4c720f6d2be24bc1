-- ===== src/Paging/Copy/Tests.antt =====
-- The copies on a store with one entry at each level and an allocator of consecutive pages.
use hyper_mi.Base.{
  ◌%◌, ℕ, zero, suc, ◌+◌, ◌*◌, ◌^◌, ◌≤◌, ◌<◌, ◌≡◌, ◌≢◌, refl, arith, Bool, false, ◌==◌,
  if◌then◌else◌, within, update, List, [], ◌∷◌, ok, Returns, bit_and,
}
use hyper_mi.Base.Page.{page_mask}
use hyper_mi.Paging.Loop.{Memory, for_each}
use hyper_mi.Paging.Protect.{at}
use hyper_mi.Paging.Find.{Pt}
use hyper_mi.Paging.Store.{Store, PageKernel, flushed_tlb}
use hyper_mi.Paging.Copy.{link, copy_pmd, copy_pagetable, cl_cp_pgtable}
use hyper_mi.Paging.Copy.Count.{count_pgtable, count_pgtable-le}
use hyper_mi.Paging.Copy.Update.{update_pagetable}
use hyper_mi.Paging.Copy.Shallow.{copy_word, update_pagetable-copy_word}
use hyper_mi.Paging.Copy.Spec.{IsStoring, good, covered, IsSeparate}
use hyper_mi.Paging.Copy.Frame.{copy_pagetable-ends}
use hyper_mi.Paging.Copy.Turns.{AreCopied}
use hyper_mi.Paging.Copy.Top.{copy_pagetable-AreCopied}
use hyper_mi.Paging.Bits.{IsUnlocked}
use hyper_mi.Paging.Copy.Clobber.{copy_pmd-clobbers, cl_cp_pgtable-unmaps_nothing}

abbrev same : ℕ → ℕ
same x = x

abbrev never : ℕ → Bool
never e = false

abbrev store_word : ℕ → ℕ → Memory → Memory
store_word a v f = update f a v

abbrev kernel : PageKernel
kernel = record {
  pa = same;
  va = same;
  pud_large = never;
  pmd_large = never;
  set_pgd = store_word;
  set_pud = store_word;
  set_pmd = store_word;
  set_pte = store_word;
  clear_page = λ a f x. if within a 4096 x then 0 else f x;
}

kernel-IsStoring : IsStoring kernel
kernel-IsStoring = record {
  set_pgd_stores = λ a v f. refl;
  set_pud_stores = λ a v f. refl;
  set_pmd_stores = λ a v f. refl;
  set_pte_stores = λ a v f. refl;
  clear_page_clears = λ a f x. refl;
}

-- The pages from 0x1000000 on, the highest first.
pages_from : ℕ → List ℕ
pages_from zero = []
pages_from (suc n) = (0x1000000 + 4096 * n) ∷ pages_from n

good-pages_from : (n : ℕ) → good (pages_from n) ≡ n
unfolding pages_from
good-pages_from zero = refl
good-pages_from (suc n) = ground (arith, good-pages_from n)

covered-low : (n x : ℕ) → x < 0x1000000 → covered (pages_from n) x ≡ false
unfolding pages_from
covered-low zero x low = refl
covered-low (suc n) x low = ground (arith, covered-low n x low)

covered-high : (n x : ℕ) → 0x1000000 + 4096 * n ≤ x → covered (pages_from n) x ≡ false
unfolding pages_from
covered-high zero x high = refl
covered-high (suc n) x high = ground (arith, covered-high n x (omega arith))

separate : (n : ℕ) → IsSeparate (pages_from n)
unfolding pages_from
separate zero = tt
separate (suc n) = (λ given x inside. covered-high n x (ground arith), separate n)

abbrev words : Memory
words x =
    if x == 0x1960
    then 0x2003
    else (if x == 0x2008 then 0x3003 else (if x == 0x3010 then 0x4003 else 0))

abbrev store_of : ℕ → Store
store_of n = record {
  memory = words;
  cr3 = 0x1000;
  pages = pages_from n;
  pgd_addr_cp = 0;
  trace = [];
}

at_low : (i : ℕ) → i < 512 → at 0x1000 i < 0x1000000
at_low i low = omega arith

update_pagetable-copy_word_example :
    update_pagetable kernel 0x8000 (store_of 0)
    ≡ ok tt (record (store_of 0) {
      memory = for_each 256 256 (copy_word 0x8000 0x1000) words;
      trace = flushed_tlb ∷ [];
    })
update_pagetable-copy_word_example =
    update_pagetable-copy_word kernel (λ a v f. refl) 0x8000 (store_of 0)

enough : 67240193 ≤ good (store_of 67240193).pages
enough = omega (arith, good-pages_from 67240193)

copy_pagetable-ends_example : Returns (copy_pagetable kernel (store_of 67240193)) λ a u.
    ((x : ℕ) → covered (pages_from 67240193) x ≡ false → u.memory x ≡ words x) × (u.cr3 ≡ 0x1000)
copy_pagetable-ends_example = copy_pagetable-ends kernel kernel-IsStoring (store_of 67240193) enough

copy_pagetable-AreCopied_example : Returns (copy_pagetable kernel (store_of 67240193)) λ a u.
    (b : ℕ → ℕ) × AreCopied kernel 0x1000 a (λ x. within a 4096 x) 256 512 b (store_of 67240193) u
copy_pagetable-AreCopied_example =
    copy_pagetable-AreCopied kernel kernel-IsStoring (store_of 67240193) enough (separate 67240193)
      (λ i low. covered-low 67240193 (at 0x1000 i) (at_low i low))

copy_pmd-clobbers_example : Returns (copy_pmd kernel 0x8000 0x3000 1 2 (store_of 1)) λ _ u.
    (b : ℕ) × (b ≢ 0)
    × (u.memory (at 0x8000 2) ≡ link kernel b 3)
    × (u.memory (at 0x8000 1) ≡ link kernel b 3)
copy_pmd-clobbers_example =
    copy_pmd-clobbers kernel kernel-IsStoring 0x8000 0x3000 1 2 (store_of 1)
      (omega (arith, good-pages_from 1)) (covered-low 1 (at 0x8000 1) (omega arith))
      (covered-low 1 (at 0x8000 2) (omega arith)) (λ e. absurd (omega arith)) refl refl

abbrev blank : Pt
blank = record {
  addr = 0;
  level = 0;
  pgd = 0;
  pud = 0;
  pmd = 0;
  pte = 0;
  index_pgd = 0;
  index_pud = 0;
  index_pmd = 0;
  index_pte = 0;
  index_offset = 0;
  value = 0;
  flag_valid = 0;
  pgd_addr = 0;
  pud_addr = 0;
  pmd_addr = 0;
  pte_addr = 0;
}

cl_cp_pgtable-unmaps_nothing_example :
    Returns (cl_cp_pgtable kernel blank (store_of 67240193)) λ _ u.
      (x : ℕ)
      → covered (pages_from 67240193) x ≡ false
      → IsUnlocked (words x) (u.memory x)
        × bit_and (u.memory x) page_mask ≡ bit_and (words x) page_mask
        × u.memory x % 2 ≡ words x % 2
cl_cp_pgtable-unmaps_nothing_example =
    cl_cp_pgtable-unmaps_nothing kernel kernel-IsStoring blank (store_of 67240193) enough

count_pgtable-le_example :
    (count_pgtable kernel words 0x1000 ≤ 134480384) × (count_pgtable kernel words 0x1000 < 2 ^ 31)
count_pgtable-le_example = count_pgtable-le kernel words 0x1000
